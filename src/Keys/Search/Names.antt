-- ===== src/Keys/Search/Names.antt =====
-- secrets/rnp/rnpkeys.cpp, `RnpKeys::findSecrets`: what the loop over a key's fingerprints finds.
use sailfish_crypto_plugins.Common.{
  ℕ, String, ◌≡◌, ◌⊎◌, refl, sym, ap, ◌∙◌, Option, none, some, List, [], ◌∷◌, ◌++◌, append-nil,
  append_assoc, map-append, Bool-cases, inl, inr, if◌then◌else◌,
}
use sailfish_crypto_plugins.Host.{Host, CryptoKey}
use sailfish_crypto_plugins.Machine.{
  World, Ptr, Resource, deref, give_back, release_ptr, handle, key_handle, uid_handle,
}
use sailfish_crypto_plugins.Machine.Ledger.{release_among, release-pass}
use sailfish_crypto_plugins.Rnp.Key.{Key, destroy}
use sailfish_crypto_plugins.Rnp.Key.Handles.{own, leaked, destroy-Loads}
use sailfish_crypto_plugins.Rnp.Key.Subkeys.{subkey_at, subkey-Gives, subkey-HasPrimary}
use sailfish_crypto_plugins.Rnp.Export.UserIds.{uids}
use sailfish_crypto_plugins.Rnp.Export.Described.{exported_of}
use sailfish_crypto_plugins.Rnp.Export.Exported.{to_crypto_key-Exports}
use sailfish_crypto_plugins.Keys.Outcome.{Identifier, plugin_name}
use sailfish_crypto_plugins.Keys.Matching.{FilterOperator}
use sailfish_crypto_plugins.Keys.Matching.Laws.{decided, matches_lem}
use sailfish_crypto_plugins.Keys.Search.{append_match, search_names}

-- The identifier of a key that the filter's rules are for.
abbrev pub matched :
    (H : Host) → FilterOperator → List (String × String) → CryptoKey → List Identifier
matched H op filter key =
    if decided H op key filter
    then record {
      name = key.name;
      collection_name = key.collection_name;
      storage_plugin_name = plugin_name;
    }
      ∷ []
    else []

-- Those of the subkeys of `r` with the fingerprints; `p` is the primary.
abbrev pub names_found :
    (H : Host)
    → H.State
    → FilterOperator
    → List (String × String)
    → Option H.KeyRef
    → Option H.KeyRef
    → List String
    → List Identifier
names_found H s op filter r p [] = []
names_found H s op filter r p (fp ∷ fps) =
    matched H op filter (exported_of H s plugin_name (subkey_at H s r p fp) p)
    ++ names_found H s op filter r p fps

append_match_lem :
    (H : Host) (op : FilterOperator) (filter : List (String × String)) (key : CryptoKey)
    (identifiers : List Identifier)
    → append_match H op filter key identifiers ≡ identifiers ++ matched H op filter key
unfolding append_match
append_match_lem H op filter key identifiers =
    rw (matches_lem H op key filter) (elim (Bool-cases (decided H op key filter)) [
      | inl e ↦ rw e refl
      | inr e ↦ rw e (sym (append-nil identifiers))
    ])

-- A key's handle is not among those of user ids.
no_uid : (a : ℕ) (addrs : List ℕ) → give_back (handle key_handle a) (uids addrs) ≡ none
unfolding give_back
no_uid a [] = refl
no_uid a (x ∷ addrs) = rw (no_uid a addrs) refl

-- What `toCryptoKey` gives of a null key does not depend on the primary.
exported_shared :
    (H : Host) (s : H.State) (name : String) (r p q : Option H.KeyRef)
    → (r ≡ none) ⊎ (q ≡ p)
    → exported_of H s name r q ≡ exported_of H s name r p
exported_shared H s name r p q (inl e) = rw e refl
exported_shared H s name r p q (inr e) = rw e refl

module _ {H : Host} where
  own_behind :
      (k : Ptr H.KeyRef) (addrs : List ℕ) (w : World H) (n : ℕ)
      → release_ptr key_handle k (record w { next = n; live = uids addrs ++ (own k ++ w.live) })
        ≡ (tt, record w { next = n; live = uids addrs ++ w.live })
  unfolding release_ptr
  own_behind none addrs w n = refl
  own_behind (some h) addrs w n =
      release_among (handle key_handle h.addr) (uids addrs) (record w { next = n })
        (no_uid h.addr addrs)

  -- What an action on `w` gave is the list; it left handles of user ids open, and nothing else.
  pub record Searches (w : World H) (v : List Identifier) (out : List Identifier × World H)
      : Type 0 where
    pub addrs : List ℕ
    pub next : ℕ
    pub run : out ≡ (v, record w { next = next; live = uids addrs ++ w.live })

  module _ (op : FilterOperator) (filter : List (String × String)) where
    pub search_names-Searches :
        (k : Key H) (fps : List String) (identifiers : List Identifier) (w : World H)
        → Searches w
            (identifiers ++ names_found H w.ffi op filter (deref k.m_key) (deref k.m_primary) fps)
            (search_names op filter k fps identifiers w)
    unfolding search_names destroy
    search_names-Searches k [] identifiers w = record {
      addrs = [];
      next = w.next;
      run = rw (append-nil identifiers) refl;
    }
    search_names-Searches k (fp ∷ fps) identifiers w =
        let g = subkey-Gives k fp w in
        let w1 = record w { next = g.next; live = own g.key.m_key ++ w.live } in
        let x = to_crypto_key-Exports plugin_name g.key w1 in
        let w3 = record w { next = x.next; live = uids x.addrs ++ w.live } in
        let r = subkey_at H w.ffi (deref k.m_key) (deref k.m_primary) fp in
        let p = deref k.m_primary in
        let key = exported_of H w.ffi plugin_name r p in
        let same =
          exported_shared H w.ffi plugin_name (deref g.key.m_key) p (deref g.key.m_primary)
            (rw (ap (λ o. o.0) g.run) at (subkey-HasPrimary k fp w))
          ∙ ap (λ q. exported_of H w.ffi plugin_name q p) g.refers in
        let later = search_names-Searches k fps (identifiers ++ matched H op filter key) w3 in
        record {
          addrs = later.addrs ++ x.addrs;
          next = later.next;
          run = rw g.run (
              rw x.run (
                rw (own_behind g.key.m_key x.addrs w x.next) (
                  rw same (
                    rw (append_match_lem H op filter key identifiers) (
                      rw later.run (
                        rw
                          (append_assoc identifiers (matched H op filter key)
                            (names_found H w.ffi op filter (deref k.m_key) p fps))
                          (rw (map-append (handle uid_handle) later.addrs x.addrs) (
                            rw (append_assoc (uids later.addrs) (uids x.addrs) w.live) refl))))))));
        }

  -- What was taken before the user ids is given back as without them.
  released_behind :
      (k : Ptr H.KeyRef) (addrs : List ℕ) (xs ys : List Resource) (w : World H)
      → release_ptr key_handle k (record w { live = xs }) ≡ (tt, record w { live = ys })
      → release_ptr key_handle k (record w { live = uids addrs ++ xs })
        ≡ (tt, record w { live = uids addrs ++ ys })
  unfolding release_ptr
  released_behind none addrs xs ys w e =
      ap (λ zs. (tt, record w { live = uids addrs ++ zs }))
        (ap (λ (o : Unit × World H). o.1.live) e)
  released_behind (some h) addrs xs ys w e =
      release-pass (handle key_handle h.addr) (uids addrs) xs ys w (no_uid h.addr addrs) e

  pub destroy_behind :
      (k : Key H) (addrs : List ℕ) (w : World H) (n : ℕ)
      → destroy k
          (record w { next = n; live = uids addrs ++ (leaked k ++ (own k.m_key ++ w.live)) })
        ≡ (tt, record w { next = n; live = uids addrs ++ (leaked k ++ w.live) })
  unfolding destroy
  destroy_behind k addrs w n =
      released_behind k.m_key addrs (leaked k ++ (own k.m_key ++ w.live)) (leaked k ++ w.live)
        (record w { next = n }) (destroy-Loads k w n)
