-- ===== src/Plugin/Calls/Listing.antt =====
-- secrets/rnp/rnpkeys.h and secrets/rnp/rnpffi.h: the methods that list, as functions of the keys that
-- librnp holds.
use sailfish_crypto_plugins.Common.{
  String, ◌≡◌, ◌∙◌, refl, ap, true, Option, none, some, List, [], ◌∷◌, ◌++◌, map, all-append,
  append_assoc, str_eq, if◌then◌else◌, Bool-cases, inl, inr,
}
use sailfish_crypto_plugins.Host.{Host}
use sailfish_crypto_plugins.Machine.{World, M, Keyring, Ptr, deref}
use sailfish_crypto_plugins.Machine.Ledger.{is_of_key}
use sailfish_crypto_plugins.Rnp.Key.{Key, load}
use sailfish_crypto_plugins.Rnp.Key.Fingerprints.{fingerprints_at}
use sailfish_crypto_plugins.Rnp.Key.Handles.{located, leaked, all-leaked}
use sailfish_crypto_plugins.Rnp.Key.Names.{fingerprints_of, load_names}
use sailfish_crypto_plugins.Rnp.KeyAccess.Listing.{keyids_at}
use sailfish_crypto_plugins.Keys.Outcome as KeysOutcome
use sailfish_crypto_plugins.Keys.Outcome.{Identifier, no_collection}
use sailfish_crypto_plugins.Keys.Matching.{FilterOperator}
use sailfish_crypto_plugins.Keys.Collections.{collection_names, secret_names}
use sailfish_crypto_plugins.Keys.Search.{find_secrets}
use sailfish_crypto_plugins.Keys.Collections.Laws.{
  names_listed, collection_names_lem, secret_names_lem,
}
use sailfish_crypto_plugins.Keys.Search.Found.{Leaves, found_in, searched_at, find_secrets-Leaves}
use sailfish_crypto_plugins.Ffi.Outcome as FfiOutcome
use sailfish_crypto_plugins.Ffi.Operations.{stored_key_identifiers}
use sailfish_crypto_plugins.Ffi.Operations.Identifiers.{
  identified, listed_for, stored_key_identifiers-Leaves,
}
use sailfish_crypto_plugins.Plugin.Calls.{
  PluginCall, of_keys, of_ffi, call_collection_names, call_secret_names, call_find_secrets,
  call_stored_key_identifiers, Reply, of_names, of_secret_identifiers, of_key_identifiers, run_keys,
  run_ffi, replied, run_call, run_calls,
}

-- The calls that list.
pub data Listing : Type 0 where
  list_collections : Listing
  list_secrets : String → Listing
  list_found : String → List (String × String) → FilterOperator → Listing
  list_stored : String → List Identifier → Listing

abbrev pub call_of : Listing → PluginCall
call_of list_collections = of_keys call_collection_names
call_of (list_secrets name) = of_keys (call_secret_names name)
call_of (list_found name filter op) = of_keys (call_find_secrets name filter op)
call_of (list_stored name identifiers) = of_ffi (call_stored_key_identifiers name identifiers)

-- The fingerprints of the key that has the collection's name for a key id.
abbrev names_of :
    (H : Host) → String → Option H.KeyRef → List String → KeysOutcome.Result × List String
names_of H name none names = (no_collection H name, [])
names_of H name (some r) names = (KeysOutcome.succeeded, names)

abbrev names_at : (H : Host) → H.State → String → KeysOutcome.Result × List String
names_at H s name =
    let r = located H s "keyid" (H.to_latin1 name) in names_of H name r (fingerprints_of H s r)

-- What a call that lists answers, where librnp's state is `s`.
abbrev pub answer : (H : Host) → H.State → Listing → Reply
answer H s list_collections = of_names (KeysOutcome.succeeded, keyids_at H s ++ "import" ∷ [])
answer H s (list_secrets name) =
    of_names (if str_eq name "import" then (KeysOutcome.succeeded, []) else names_at H s name)
answer H s (list_found name filter op) =
    of_secret_identifiers (KeysOutcome.succeeded, found_in H s op filter (searched_at H s name))
answer H s (list_stored name identifiers) =
    of_key_identifiers (FfiOutcome.succeeded, identifiers ++ identified H s (listed_for H s name))

listed_key :
    (H : Host) (name : String) (s : H.State) (p q : Ptr H.KeyRef)
    → let k : Key H = record { m_key = p; m_primary = q } in
      names_listed H s name k ≡ names_of H name (deref p) (fingerprints_at H s k)
listed_key H name s none q = refl
listed_key H name s (some h) q = refl

module _ {H : Host} where
  names_listed_lem :
      (name : String) (w : World H)
      → names_listed H w.ffi name (load "keyid" name w).0 ≡ names_at H w.ffi name
  names_listed_lem name w =
      let k = (load "keyid" name w).0 in
      listed_key H name w.ffi k.m_key k.m_primary ∙ load_names (names_of H name) name w

  secret_names_import :
      (name : String) (w : World H)
      → str_eq name "import" ≡ true
      → secret_names name w ≡ ((KeysOutcome.succeeded, []), w)
  unfolding secret_names
  secret_names_import name w e = rw e refl

  collection_names-Leaves :
      (kr : Keyring) (w : World H)
      → w.rnp.public_keyring ≡ some kr
      → kr.valid ≡ true
      → Leaves w (KeysOutcome.succeeded, keyids_at H w.ffi ++ "import" ∷ []) (collection_names w)
  collection_names-Leaves kr w stored valid =
      let (n, e) = collection_names_lem kr w stored valid in
      record { left = []; next = n; run = e; of_keys = refl }

  secret_names-Leaves :
      (kr : Keyring) (name : String) (w : World H)
      → w.rnp.public_keyring ≡ some kr
      → kr.valid ≡ true
      → Leaves w
          (if str_eq name "import" then (KeysOutcome.succeeded, []) else names_at H w.ffi name)
          (secret_names name w)
  secret_names-Leaves kr name w stored valid = elim (Bool-cases (str_eq name "import")) [
    | inl same ↦
        rw same (record {
          left = [];
          next = w.next;
          run = secret_names_import name w same;
          of_keys = refl;
        })
    | inr other ↦
        let k = (load "keyid" name w).0 in
        let (n, e) = secret_names_lem kr name w stored valid other in
        rw other (record {
          left = leaked k;
          next = n;
          run =
              e
              ∙ ap (λ v. (v, record w { next = n; live = leaked k ++ w.live }))
                  (names_listed_lem name w);
          of_keys = all-leaked k;
        })
  ]

  -- The reply is made of what the method gives.
  replied-Leaves :
      {A : Type 0} (f : A → Reply) (v : A) (m : M H A) (w : World H)
      → Leaves w v (m w)
      → Leaves w (f v) (replied f m w)
  replied-Leaves f v m w l = record {
    left = l.left;
    next = l.next;
    run = ap (λ o. (f o.0, o.1)) l.run;
    of_keys = l.of_keys;
  }

  run_listing-Leaves :
      (kr : Keyring) (l : Listing) (w : World H)
      → w.rnp.public_keyring ≡ some kr
      → kr.valid ≡ true
      → Leaves w (answer H w.ffi l) (run_call (call_of l) w)
  unfolding run_call run_keys run_ffi
  run_listing-Leaves kr list_collections w stored valid =
      replied-Leaves of_names _ collection_names w (collection_names-Leaves kr w stored valid)
  run_listing-Leaves kr (list_secrets name) w stored valid =
      replied-Leaves of_names _ (secret_names name) w (secret_names-Leaves kr name w stored valid)
  run_listing-Leaves kr (list_found name filter op) w stored valid =
      replied-Leaves of_secret_identifiers _ (find_secrets op filter name) w
        (find_secrets-Leaves op filter kr name w stored valid)
  run_listing-Leaves kr (list_stored name identifiers) w stored valid =
      replied-Leaves of_key_identifiers _ (stored_key_identifiers name identifiers) w
        (stored_key_identifiers-Leaves kr name identifiers w stored)

  -- With an open, valid public key ring, any calls that list, of both interfaces and in any order,
  -- give each the answer that librnp's keys give it, whatever was listed before: they change neither
  -- the plugin nor librnp's state, and leave only handles of keys and user ids open.
  pub run_calls-Leaves :
      (kr : Keyring) (ls : List Listing) (w : World H)
      → w.rnp.public_keyring ≡ some kr
      → kr.valid ≡ true
      → Leaves w (map (answer H w.ffi) ls) (run_calls (map call_of ls) w)
  unfolding run_calls
  run_calls-Leaves kr [] w stored valid = record {
    left = [];
    next = w.next;
    run = refl;
    of_keys = refl;
  }
  run_calls-Leaves kr (l ∷ ls) w stored valid =
      let one = run_listing-Leaves kr l w stored valid in
      let later =
        run_calls-Leaves kr ls (record w { next = one.next; live = one.left ++ w.live }) stored
          valid in
      record {
        left = later.left ++ one.left;
        next = later.next;
        of_keys = all-append is_of_key later.left one.left later.of_keys one.of_keys;
        run =
            ap
              (λ (o : Reply × World H).
                let (rs, w') = run_calls (map call_of ls) o.1 in (o.0 ∷ rs, w'))
              one.run
            ∙ (ap (λ (o : List Reply × World H). (answer H w.ffi l ∷ o.0, o.1)) later.run
                ∙ (rw (append_assoc later.left one.left w.live) refl));
      }
