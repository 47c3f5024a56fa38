-- ===== src/Ffi/Operations/Identifiers.antt =====
-- secrets/rnp/rnpffi.cpp: what `RnpFfi::storedKeyIdentifiers` lists.
use sailfish_crypto_plugins.Common.{
  ℕ, String, ◌≡◌, ◌∙◌, false, some, List, [], ◌∷◌, ◌++◌, map, append-nil, append_assoc, str_eq,
  refl, ap, all-append, Bool-cases, inl, inr, if◌then◌else◌,
}
use sailfish_crypto_plugins.Host.{Host}
use sailfish_crypto_plugins.Machine.{World, Keyring}
use sailfish_crypto_plugins.Rnp.Key.{load}
use sailfish_crypto_plugins.Rnp.Key.Fingerprints.{fingerprints_at, fingerprints_lem}
use sailfish_crypto_plugins.Rnp.Key.Handles.{
  own, leaked, all-leaked, located, load-Loads, destroy-Loads,
}
use sailfish_crypto_plugins.Rnp.Key.Names.{fingerprints_of, load_names}
use sailfish_crypto_plugins.Rnp.KeyAccess.Listing.{keyids_at, keyids_lem}
use sailfish_crypto_plugins.Keys.Search.Found.{Leaves}
use sailfish_crypto_plugins.Machine.Ledger.{is_of_key}
use sailfish_crypto_plugins.Rnp.KeyAccess.{key_of_keyid}
use sailfish_crypto_plugins.Rnp.Ring.Laws.{public_keyring_cached}
use sailfish_crypto_plugins.Keys.Outcome.{Identifier, plugin_name}
use sailfish_crypto_plugins.Ffi.Outcome.{succeeded}
use sailfish_crypto_plugins.Ffi.Operations.{
  append_identifiers, identify_collections, collections_named, stored_key_identifiers,
}

abbrev pub identifier : String → String → Identifier
identifier id fp = record { name = fp; collection_name = id; storage_plugin_name = plugin_name }

append_identifiers_lem :
    (id : String) (fps : List String) (identifiers : List Identifier)
    → append_identifiers id fps identifiers ≡ identifiers ++ map (identifier id) fps
unfolding append_identifiers
append_identifiers_lem id [] identifiers = rw (append-nil identifiers)
append_identifiers_lem id (fp ∷ fps) identifiers =
    append_identifiers_lem id fps (identifiers ++ identifier id fp ∷ [])
    ∙ append_assoc identifiers (identifier id fp ∷ []) (map (identifier id) fps)

module _ {H : Host} where
  pub identify_one :
      (kr : Keyring) (id : String) (identifiers : List Identifier) (w : World H)
      → w.rnp.public_keyring ≡ some kr
      → let k = (load "keyid" id w).0 in
        (m : ℕ) × (identify_collections (id ∷ []) identifiers w ≡ (
          identifiers ++ map (identifier id) (fingerprints_at H w.ffi k),
          record w { next = m; live = leaked k ++ w.live },
        ))
  unfolding identify_collections key_of_keyid
  identify_one kr id identifiers w e =
      let l = load-Loads "keyid" id w in
      let w1 = record w { next = l.next; live = leaked l.key ++ (own l.key.m_key ++ w.live) } in
      let (m, f) = fingerprints_lem l.key w1 in
      (
        m,
        rw (public_keyring_cached kr w e) (
            rw l.run (
              rw f (
                rw (destroy-Loads l.key w m)
                  (rw (append_identifiers_lem id (fingerprints_at H w.ffi l.key) identifiers))))),
      )

  -- With an open public key ring and a collection that is named and is not "import",
  -- `storedKeyIdentifiers` succeeds and appends an identifier for each fingerprint of the key that the
  -- collection's name locates; where there is no such key, it still appends one, with an empty name.
  -- It leaves the handle of the key's primary open if that is another key, and changes nothing else.
  stored_key_identifiers_lem :
      (kr : Keyring) (collection_name : String) (identifiers : List Identifier) (w : World H)
      → w.rnp.public_keyring ≡ some kr
      → str_eq collection_name "import" ≡ false
      → str_eq collection_name "" ≡ false
      → let k = (load "keyid" collection_name w).0 in
        (m : ℕ) × (stored_key_identifiers collection_name identifiers w ≡ (
          (succeeded, identifiers ++ map (identifier collection_name) (fingerprints_at H w.ffi k)),
          record w { next = m; live = leaked k ++ w.live },
        ))
  unfolding stored_key_identifiers collections_named
  stored_key_identifiers_lem kr collection_name identifiers w e other named =
      let (m, run) = identify_one kr collection_name identifiers w e in
      (m, rw other (rw named (rw run)))

-- The identifiers for the collections.
abbrev pub identified : (H : Host) → H.State → List String → List Identifier
identified H s [] = []
identified H s (id ∷ ids) =
    map (identifier id) (fingerprints_of H s (located H s "keyid" (H.to_latin1 id)))
    ++ identified H s ids

-- The collections that are listed: none for "import", and all of librnp's where none is named.
abbrev pub listed_for : (H : Host) → H.State → String → List String
listed_for H s name =
    if str_eq name "import" then [] else (if str_eq name "" then keyids_at H s else name ∷ [])

module _ {H : Host} (kr : Keyring) where
  identify_one-Leaves :
      (id : String) (identifiers : List Identifier) (w : World H)
      → w.rnp.public_keyring ≡ some kr
      → Leaves w
          (identifiers
            ++ map
                (identifier id)
                (fingerprints_of H w.ffi (located H w.ffi "keyid" (H.to_latin1 id))))
          (identify_collections (id ∷ []) identifiers w)
  identify_one-Leaves id identifiers w e =
      let (n, run) = identify_one kr id identifiers w e in
      let k = (load "keyid" id w).0 in
      record {
        left = leaked k;
        next = n;
        of_keys = all-leaked k;
        run =
            run
            ∙ ap (λ v. (v, record w { next = n; live = leaked k ++ w.live }))
                (load_names (λ r names. identifiers ++ map (identifier id) names) id w);
      }

  identify_collections-Leaves :
      (ids : List String) (identifiers : List Identifier) (w : World H)
      → w.rnp.public_keyring ≡ some kr
      → Leaves w (identifiers ++ identified H w.ffi ids) (identify_collections ids identifiers w)
  unfolding identify_collections
  identify_collections-Leaves [] identifiers w e = record {
    left = [];
    next = w.next;
    of_keys = refl;
    run = rw (append-nil identifiers) refl;
  }
  identify_collections-Leaves (id ∷ ids) identifiers w e =
      let one = identify_one-Leaves id identifiers w e in
      let names =
        map (identifier id) (fingerprints_of H w.ffi (located H w.ffi "keyid" (H.to_latin1 id))) in
      let later =
        identify_collections-Leaves ids (identifiers ++ names)
          (record w { next = one.next; live = one.left ++ w.live }) e in
      record {
        left = later.left ++ one.left;
        next = later.next;
        of_keys = all-append is_of_key later.left one.left later.of_keys one.of_keys;
        run =
            ap (λ (o : List Identifier × World H). identify_collections ids o.0 o.1) one.run
            ∙ (later.run
                ∙ (rw (append_assoc identifiers names (identified H w.ffi ids))
                    (rw (append_assoc later.left one.left w.live) refl)));
      }

  -- With an open public key ring, `storedKeyIdentifiers` succeeds and appends to the list, for each
  -- collection that it lists, an identifier for each fingerprint of the key that has the collection's
  -- name for a key id, and one with an empty name where there is none. What it leaves
  -- open are handles of keys and user ids, and it changes nothing else.
  pub stored_key_identifiers-Leaves :
      (name : String) (identifiers : List Identifier) (w : World H)
      → w.rnp.public_keyring ≡ some kr
      → Leaves w
          (succeeded, identifiers ++ identified H w.ffi (listed_for H w.ffi name))
          (stored_key_identifiers name identifiers w)
  unfolding stored_key_identifiers collections_named
  stored_key_identifiers-Leaves name identifiers w e = elim (Bool-cases (str_eq name "import")) [
    | inl same ↦ rw same (record {
      left = [];
      next = w.next;
      of_keys = refl;
      run = rw (append-nil identifiers) refl;
    })
    | inr other ↦ rw other (elim (Bool-cases (str_eq name "")) [
      | inl all_of_them ↦
          let (n, run) = keyids_lem w in
          let ids =
            identify_collections-Leaves (keyids_at H w.ffi) identifiers (record w { next = n }) e in
          rw all_of_them (record {
            left = ids.left;
            next = ids.next;
            of_keys = ids.of_keys;
            run = rw (public_keyring_cached kr w e) (rw run (rw ids.run refl));
          })
      | inr named ↦
          let ids = identify_collections-Leaves (name ∷ []) identifiers w e in
          rw named (record {
            left = ids.left;
            next = ids.next;
            of_keys = ids.of_keys;
            run = rw ids.run refl;
          })
    ])
  ]
