-- ===== src/Keys/Search/Found.antt =====
-- secrets/rnp/rnpkeys.cpp: which identifiers `RnpKeys::findSecrets` finds.
use sailfish_crypto_plugins.Common.{
  ℕ, String, ◌≡◌, refl, ap, ◌∙◌, true, Option, some, List, [], ◌∷◌, ◌++◌, all, all-append,
  append-nil, append_assoc, str_eq, Bool-cases, inl, inr, if◌then◌else◌,
}
use sailfish_crypto_plugins.Host.{Host}
use sailfish_crypto_plugins.Machine.{World, Keyring, Resource}
use sailfish_crypto_plugins.Machine.Ledger.{Quiet, is_of_key}
use sailfish_crypto_plugins.Rnp.Key.Fingerprints.{fingerprints_at, fingerprints_lem}
use sailfish_crypto_plugins.Rnp.Key.Handles.{
  own, leaked, all-leaked, located, primary_of, load-Loads,
}
use sailfish_crypto_plugins.Rnp.Key.Names.{fingerprints_of, loaded_names}
use sailfish_crypto_plugins.Rnp.KeyAccess.{key_of_keyid}
use sailfish_crypto_plugins.Rnp.KeyAccess.Listing.{keyids_at, keyids_lem}
use sailfish_crypto_plugins.Rnp.Export.UserIds.{uids, all-uids}
use sailfish_crypto_plugins.Rnp.Ring.Laws.{public_keyring_cached}
use sailfish_crypto_plugins.Keys.Outcome.{Identifier, succeeded}
use sailfish_crypto_plugins.Keys.Matching.{FilterOperator}
use sailfish_crypto_plugins.Keys.Search.{search_collections, searched, search_in, find_secrets}
use sailfish_crypto_plugins.Keys.Search.Names.{names_found, search_names-Searches, destroy_behind}

-- What is found in a collection: among the subkeys of the key that has its name for a key id, for
-- each of the key's fingerprints.
abbrev key_found :
    (H : Host)
    → H.State
    → FilterOperator
    → List (String × String)
    → Option H.KeyRef
    → List Identifier
key_found H s op filter r = names_found H s op filter r (primary_of H s r) (fingerprints_of H s r)

abbrev pub found_in :
    (H : Host) → H.State → FilterOperator → List (String × String) → List String → List Identifier
found_in H s op filter [] = []
found_in H s op filter (id ∷ ids) =
    key_found H s op filter (located H s "keyid" (H.to_latin1 id)) ++ found_in H s op filter ids

-- The collections that are searched.
abbrev pub searched_at : (H : Host) → H.State → String → List String
searched_at H s collection_name =
    if str_eq collection_name "import" then collection_name ∷ [] else keyids_at H s

module _ {H : Host} where
  -- What an action on `w` gave is `v`; it has given nothing back that was open before, and what it
  -- leaves open are handles of keys and user ids.
  pub record Leaves {A : Type 0} (w : World H) (v : A) (out : A × World H) : Type 0 where
    pub left : List Resource
    pub next : ℕ
    pub run : out ≡ (v, record w { next = next; live = left ++ w.live })
    pub of_keys : all is_of_key left ≡ true

  module _ (op : FilterOperator) (filter : List (String × String)) (kr : Keyring) where
    search_collections-Leaves :
        (ids : List String) (identifiers : List Identifier) (w : World H)
        → w.rnp.public_keyring ≡ some kr
        → Leaves w
            (identifiers ++ found_in H w.ffi op filter ids)
            (search_collections op filter ids identifiers w)
    unfolding search_collections key_of_keyid
    search_collections-Leaves [] identifiers w e = record {
      left = [];
      next = w.next;
      run = rw (append-nil identifiers) refl;
      of_keys = refl;
    }
    search_collections-Leaves (id ∷ ids) identifiers w e =
        let l = load-Loads "keyid" id w in
        let w1 = record w { next = l.next; live = leaked l.key ++ (own l.key.m_key ++ w.live) } in
        let (n, f) = fingerprints_lem l.key w1 in
        let g =
          search_names-Searches op filter l.key (fingerprints_at H w.ffi l.key) identifiers
            (record w1 { next = n }) in
        let r = located H w.ffi "keyid" (H.to_latin1 id) in
        let w2 = record w { next = g.next; live = uids g.addrs ++ (leaked l.key ++ w.live) } in
        let later =
          search_collections-Leaves ids (identifiers ++ key_found H w.ffi op filter r) w2 e in
        record {
          left = later.left ++ (uids g.addrs ++ leaked l.key);
          next = later.next;
          of_keys = all-append is_of_key later.left (uids g.addrs ++ leaked l.key) later.of_keys (
              all-append is_of_key (uids g.addrs) (leaked l.key) (all-uids g.addrs)
                (all-leaked l.key));
          run = rw (public_keyring_cached kr w e) (
              rw l.run (
                rw f (
                  rw g.run (
                    rw (destroy_behind l.key g.addrs w g.next) (
                      ap (λ v. search_collections op filter ids (identifiers ++ v) w2)
                        (loaded_names (names_found H w.ffi op filter) w.ffi l.key r l.refers
                          l.refers_primary l.owns)
                      ∙ (rw later.run (
                          rw
                            (append_assoc identifiers (key_found H w.ffi op filter r)
                              (found_in H w.ffi op filter ids))
                            (rw (append_assoc later.left (uids g.addrs ++ leaked l.key) w.live)
                              (rw (append_assoc (uids g.addrs) (leaked l.key) w.live) refl)))))))));
        }

    searched-Quiet :
        (collection_name : String) (w : World H)
        → w.rnp.public_keyring ≡ some kr
        → Quiet (searched {H = H} op filter collection_name) w (searched_at H w.ffi collection_name)
    unfolding searched
    searched-Quiet collection_name w e = elim (Bool-cases (str_eq collection_name "import")) [
      | inl same ↦ rw same (w.next, refl)
      | inr other ↦ (let (n, f) = keyids_lem w in rw other (n, rw (public_keyring_cached kr w e) f))
    ]

    pub search_in-Leaves :
        (collection_name : String) (w : World H)
        → w.rnp.public_keyring ≡ some kr
        → kr.valid ≡ true
        → Leaves w
            (succeeded, found_in H w.ffi op filter (searched_at H w.ffi collection_name))
            (search_in op filter collection_name kr w)
    unfolding search_in
    search_in-Leaves collection_name w e valid =
        let (n, f) = searched-Quiet collection_name w e in
        let s =
          search_collections-Leaves (searched_at H w.ffi collection_name) [] (record w { next = n })
            e in
        record {
          left = s.left;
          next = s.next;
          of_keys = s.of_keys;
          run = rw valid (rw f (rw s.run refl));
        }

    -- With an open, valid public key ring, `findSecrets` succeeds. For each collection that it
    -- searches, in order, it takes each fingerprint of the key that has the collection's name for a key
    -- id, and lists the name and the collection of that key's subkey of this fingerprint if the rules
    -- of the filter decide for what `toCryptoKey` makes of it. It gives back nothing that was open
    -- before.
    pub find_secrets-Leaves :
        (collection_name : String) (w : World H)
        → w.rnp.public_keyring ≡ some kr
        → kr.valid ≡ true
        → Leaves w
            (succeeded, found_in H w.ffi op filter (searched_at H w.ffi collection_name))
            (find_secrets op filter collection_name w)
    unfolding find_secrets
    find_secrets-Leaves collection_name w e valid =
        let s = search_in-Leaves collection_name w e valid in
        record {
          left = s.left;
          next = s.next;
          of_keys = s.of_keys;
          run = rw (public_keyring_cached kr w e) s.run;
        }
