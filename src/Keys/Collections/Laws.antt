-- ===== src/Keys/Collections/Laws.antt =====
-- secrets/rnp/rnpkeys.cpp: what `RnpKeys::collectionNames` and `RnpKeys::secretNames` list.
use sailfish_crypto_plugins.Common.{
  ℕ, String, ◌≡◌, true, false, List, [], ◌∷◌, ◌++◌, none, some, str_eq, refl, Bool-cases, inl, inr,
  if◌then◌else◌,
}
use sailfish_crypto_plugins.Host.{Host}
use sailfish_crypto_plugins.Machine.{World, Keyring, Ptr}
use sailfish_crypto_plugins.Machine.Ledger.{Quiet}
use sailfish_crypto_plugins.Rnp.Key.{Key, is_valid, load}
use sailfish_crypto_plugins.Rnp.Key.Fingerprints.{fingerprints_at, fingerprints_lem}
use sailfish_crypto_plugins.Rnp.Key.Handles.{own, leaked, destroy-Loads, load-Loads}
use sailfish_crypto_plugins.Rnp.KeyAccess.{key_of_keyid}
use sailfish_crypto_plugins.Rnp.KeyAccess.Listing.{keyids_at, keyids_lem}
use sailfish_crypto_plugins.Rnp.Ring.{public_keyring}
use sailfish_crypto_plugins.Rnp.Ring.Laws.{public_keyring_cached}
use sailfish_crypto_plugins.Keys.Outcome.{
  Result, succeeded, no_collection, not_opened_lem, unopened,
}
use sailfish_crypto_plugins.Keys.Collections.{
  collection_names, listed_collections, names_of_key, names_in, secret_names,
}

module _ {H : Host} where
  pub listed_collections_lem :
      (kr opened : Keyring) (w : World H)
      → w.rnp.public_keyring ≡ some opened
      → kr.valid ≡ true
      → Quiet (listed_collections kr) w (succeeded, keyids_at H w.ffi ++ "import" ∷ [])
  unfolding listed_collections
  listed_collections_lem kr opened w e valid =
      let (n, run) = keyids_lem w in (n, rw valid (rw (public_keyring_cached opened w e) (rw run)))

  -- With an open, valid public key ring, `collectionNames` lists the key id of each primary key that
  -- librnp names, in its order, and then "import"; it leaves nothing open and changes nothing.
  pub collection_names_lem :
      (kr : Keyring) (w : World H)
      → w.rnp.public_keyring ≡ some kr
      → kr.valid ≡ true
      → Quiet collection_names w (succeeded, keyids_at H w.ffi ++ "import" ∷ [])
  unfolding collection_names
  collection_names_lem kr w e valid =
      rw (public_keyring_cached kr w e) (listed_collections_lem kr kr w e valid)

abbrev pub names_listed : (H : Host) → H.State → String → Key H → Result × List String
names_listed H s collection_name k =
    if is_valid k then (succeeded, fingerprints_at H s k) else (no_collection H collection_name, [])

module _ {H : Host} where
  abbrev key_of : Ptr H.KeyRef → Ptr H.KeyRef → Key H
  key_of p q = record { m_key = p; m_primary = q }

  names_of_key_lem :
      (collection_name : String) (p q : Ptr H.KeyRef) (w : World H) (n : ℕ)
      → let k = key_of p q in
        (m : ℕ) × (names_of_key collection_name k
            (record w { next = n; live = leaked k ++ (own p ++ w.live) })
          ≡ (
            names_listed H w.ffi collection_name k,
            record w { next = m; live = leaked k ++ w.live },
          ))
  unfolding names_of_key
  names_of_key_lem collection_name none q w n = (n, rw (destroy-Loads (key_of none q) w n))
  names_of_key_lem collection_name (some h) q w n =
      let k = key_of (some h) q in
      let (m, e) =
        fingerprints_lem k (record w { next = n; live = leaked k ++ (own (some h) ++ w.live) }) in
      (m, rw e (rw (destroy-Loads k w m)))

  pub names_loaded_lem :
      (collection_name : String) (w : World H)
      → let k = (load "keyid" collection_name w).0 in
        (m : ℕ) × ((let (key, w') = key_of_keyid collection_name w in
            names_of_key collection_name key w')
          ≡ (
            names_listed H w.ffi collection_name k,
            record w { next = m; live = leaked k ++ w.live },
          ))
  unfolding key_of_keyid
  names_loaded_lem collection_name w =
      let l = load-Loads "keyid" collection_name w in
      rw l.run (names_of_key_lem collection_name l.key.m_key l.key.m_primary w l.next)

  pub names_in_lem :
      (collection_name : String) (kr : Keyring) (w : World H)
      → kr.valid ≡ true
      → names_in collection_name kr w ≡ (
          let (key, w') = key_of_keyid collection_name (public_keyring w).1 in
          names_of_key collection_name key w')
  unfolding names_in
  names_in_lem collection_name kr w valid = rw valid

  -- With an open, valid public key ring and a collection that is not "import", `secretNames` lists the
  -- fingerprints of the key that the collection's name locates, and reports where there is no such
  -- key. It leaves the handle of the key's primary open if that is another key, and changes nothing
  -- else.
  pub secret_names_lem :
      (kr : Keyring) (collection_name : String) (w : World H)
      → w.rnp.public_keyring ≡ some kr
      → kr.valid ≡ true
      → str_eq collection_name "import" ≡ false
      → let k = (load "keyid" collection_name w).0 in
        (m : ℕ) × (secret_names collection_name w ≡ (
          names_listed H w.ffi collection_name k,
          record w { next = m; live = leaked k ++ w.live },
        ))
  unfolding secret_names
  secret_names_lem kr collection_name w e valid other =
      let cached = public_keyring_cached kr w e in
      rw other (
        rw cached (
          rw (names_in_lem collection_name kr w valid)
            (rw cached (names_loaded_lem collection_name w))))

module _ {H : Host} (kr : Keyring) (w : World H) (stored : w.rnp.public_keyring ≡ some kr)
    (invalid : kr.valid ≡ false) where
  pub collection_names-unopened : collection_names w ≡ ((unopened H w.rnp, []), w)
  unfolding collection_names listed_collections
  collection_names-unopened =
      rw (public_keyring_cached kr w stored) (rw invalid (rw (not_opened_lem kr w stored) refl))

  names_in-unopened :
      (collection_name : String) → names_in collection_name kr w ≡ ((unopened H w.rnp, []), w)
  unfolding names_in
  names_in-unopened collection_name = rw invalid (rw (not_opened_lem kr w stored) refl)

  pub secret_names-unopened :
      (collection_name : String)
      → secret_names collection_name w
        ≡ ((if str_eq collection_name "import" then succeeded else unopened H w.rnp, []), w)
  unfolding secret_names
  secret_names-unopened collection_name = elim (Bool-cases (str_eq collection_name "import")) [
    | inl same ↦ rw same refl
    | inr other ↦
        rw other (rw (public_keyring_cached kr w stored) (names_in-unopened collection_name))
  ]
