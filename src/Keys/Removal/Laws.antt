-- ===== src/Keys/Removal/Laws.antt =====
-- secrets/rnp/rnpkeys.cpp: what `RnpKeys::removeSecret` removes, and what it reports.
use sailfish_crypto_plugins.Common.{
  ℕ, String, ◌≡◌, refl, ap, Bool, true, false, Option, none, some, ◌++◌, ◌||◌, str_eq, Bool-cases,
  inl, inr, if◌then◌else◌,
}
use sailfish_crypto_plugins.Host.{Host}
use sailfish_crypto_plugins.Machine.{World, Handle, Ptr, deref, Keyring}
use sailfish_crypto_plugins.Rnp.Key.{Key}
use sailfish_crypto_plugins.Rnp.Key.Fingerprints.{fingerprint_at, fingerprint_lem}
use sailfish_crypto_plugins.Rnp.Key.Subkeys.{subkey_at}
use sailfish_crypto_plugins.Rnp.Key.Removal.{removal}
use sailfish_crypto_plugins.Rnp.Key.Handles.{
  own, leaked, located, primary_of, load-Loads, destroy-Loads,
}
use sailfish_crypto_plugins.Rnp.KeyAccess.{key_of_keyid}
use sailfish_crypto_plugins.Rnp.Ring.{public_keyring}
use sailfish_crypto_plugins.Rnp.Ring.Laws.{public_keyring_cached}
use sailfish_crypto_plugins.Keys.Outcome.{
  Result, succeeded, no_collection, not_opened_lem, unopened,
}
use sailfish_crypto_plugins.Keys.Removal.{remove_secret, remove_of_key, remove_in}
use sailfish_crypto_plugins.Keys.Removal.Steps.{
  is_gone, marked, report_whole, report_subkey, remove_whole_lem, remove_subkey_lem,
}

-- Which key `removeSecret` takes from the key `r` of the collection: the key itself for its own
-- fingerprint or no name at all, and else its subkey of that name.
abbrev pub target :
    (H : Host) → H.State → Option H.KeyRef → String → Option H.KeyRef → Option H.KeyRef
target H s r name p =
    if str_eq (fingerprint_at H s r) name || str_eq name "" then r else subkey_at H s r p name

-- What it reports.
abbrev pub report : Host → Bool → String → Bool → Result
report H whole name removed =
    if whole then report_whole H name removed else report_subkey H name removed

module _ {H : Host} (kr : Keyring) where
  abbrev pub Removes : World H → Option H.KeyRef → String → Bool → Result × World H → Type 0
  Removes w t name whole out =
      let removed = is_gone (removal H w.ffi t).0 t in
      (out.0 ≡ report H whole name removed)
      × (out.1.rnp ≡ marked w.rnp kr removed)
      × (out.1.ffi ≡ (removal H w.ffi t).1)

  abbrev pub key_of : Ptr H.KeyRef → Ptr H.KeyRef → Key H
  key_of p q = record { m_key = p; m_primary = q }

  remove_of_key_lem :
      (collection_name name : String) (h : Handle H.KeyRef) (q : Ptr H.KeyRef) (w : World H) (n : ℕ)
      → w.rnp.public_keyring ≡ some kr
      → let whole = str_eq (fingerprint_at H w.ffi (some h.obj)) name || str_eq name "" in
        Removes w (target H w.ffi (some h.obj) name (deref q)) name whole (
          remove_of_key collection_name name
            (key_of (some h) q)
            (record w { next = n; live = leaked (key_of (some h) q) ++ (own (some h) ++ w.live) }))
  unfolding remove_of_key
  remove_of_key_lem collection_name name h q w n e =
      let k = key_of (some h) q in
      rw (fingerprint_lem k (record w { next = n; live = leaked k ++ (own k.m_key ++ w.live) }))
        (elim (Bool-cases (str_eq (fingerprint_at H w.ffi (some h.obj)) name || str_eq name "")) [
          | inl whole ↦ rw whole (rw (remove_whole_lem kr name k w n e) (refl, refl, refl))
          | inr sub ↦
              let (m, run) = remove_subkey_lem kr name k w n e in rw sub (rw run (refl, refl, refl))
        ])

  -- What `removeSecret` does for the key that the collection's name locates.
  abbrev pub RemovesFrom : World H → String → String → Option H.KeyRef → Result × World H → Type 0
  RemovesFrom w collection_name name none out =
      (out.0 ≡ no_collection H collection_name) × (out.1.rnp ≡ w.rnp) × (out.1.ffi ≡ w.ffi)
  RemovesFrom w collection_name name (some r) out =
      Removes w (target H w.ffi (some r) name (primary_of H w.ffi (some r))) name
        (str_eq (fingerprint_at H w.ffi (some r)) name || str_eq name "") out

  pub no_key_lem :
      (collection_name name : String) (q : Ptr H.KeyRef) (w : World H) (n : ℕ)
      → let k = key_of none q in
        remove_of_key collection_name name k
          (record w { next = n; live = leaked k ++ (own k.m_key ++ w.live) })
        ≡ (no_collection H collection_name, record w { next = n; live = leaked k ++ w.live })
  unfolding remove_of_key
  no_key_lem collection_name name q w n = rw (destroy-Loads (key_of none q) w n)

  remove_of_key-RemovesFrom :
      (collection_name name : String) (p q : Ptr H.KeyRef) (w : World H) (n : ℕ)
      → w.rnp.public_keyring ≡ some kr
      → deref q ≡ primary_of H w.ffi (deref p)
      → RemovesFrom w collection_name name (deref p) (
          remove_of_key collection_name name
            (key_of p q)
            (record w { next = n; live = leaked (key_of p q) ++ (own p ++ w.live) }))
  remove_of_key-RemovesFrom collection_name name (some h) q w n e f =
      rw (← f) (remove_of_key_lem collection_name name h q w n e)
  remove_of_key-RemovesFrom collection_name name none q w n e f =
      let gone = no_key_lem collection_name name q w n in
      (ap (λ x. x.0) gone, ap (λ x. x.1.rnp) gone, ap (λ x. x.1.ffi) gone)

  loaded-RemovesFrom :
      (collection_name name : String) (w : World H)
      → w.rnp.public_keyring ≡ some kr
      → RemovesFrom w collection_name name
          (located H w.ffi "keyid" (H.to_latin1 collection_name))
          (let (k, w') = key_of_keyid collection_name w in remove_of_key collection_name name k w')
  unfolding key_of_keyid
  loaded-RemovesFrom collection_name name w e =
      let l = load-Loads "keyid" collection_name w in
      rw (← l.refers) (
        rw l.run (
          remove_of_key-RemovesFrom collection_name name l.key.m_key l.key.m_primary w l.next e
            (rw l.refers l.refers_primary)))

module _ {H : Host} where
  pub remove_in_lem :
      (collection_name name : String) (kr : Keyring) (w : World H)
      → kr.valid ≡ true
      → remove_in collection_name name kr w ≡ (
          let (k, w') = key_of_keyid collection_name (public_keyring w).1 in
          remove_of_key collection_name name k w')
  unfolding remove_in
  remove_in_lem collection_name name kr w valid = rw valid

  -- With an open, valid public key ring and a collection that is not "import", `removeSecret` asks
  -- librnp to remove the key that the collection names if the secret name is its fingerprint or
  -- empty, and else its subkey of that name; it reports success exactly if nothing of that is left,
  -- marks the public ring modified then and leaves the rest of the plugin alone. A collection that
  -- no key has is reported, and nothing changes.
  pub remove_secret-RemovesFrom :
      (kr : Keyring) (collection_name name : String) (w : World H)
      → w.rnp.public_keyring ≡ some kr
      → kr.valid ≡ true
      → str_eq collection_name "import" ≡ false
      → RemovesFrom kr w collection_name name
          (located H w.ffi "keyid" (H.to_latin1 collection_name))
          (remove_secret collection_name name w)
  unfolding remove_secret
  remove_secret-RemovesFrom kr collection_name name w e valid other =
      let cached = public_keyring_cached kr w e in
      rw other (
        rw cached (
          rw (remove_in_lem collection_name name kr w valid)
            (rw cached (loaded-RemovesFrom kr collection_name name w e))))

module _ {H : Host} (kr : Keyring) (w : World H) (stored : w.rnp.public_keyring ≡ some kr)
    (invalid : kr.valid ≡ false) where
  remove_in-unopened :
      (collection_name name : String) → remove_in collection_name name kr w ≡ (unopened H w.rnp, w)
  unfolding remove_in
  remove_in-unopened collection_name name = rw invalid (rw (not_opened_lem kr w stored) refl)

  -- Where the public key ring could not be loaded, nothing is removed.
  pub remove_secret-unopened :
      (collection_name name : String)
      → remove_secret collection_name name w
        ≡ (if str_eq collection_name "import" then succeeded else unopened H w.rnp, w)
  unfolding remove_secret
  remove_secret-unopened collection_name name =
      elim (Bool-cases (str_eq collection_name "import")) [
        | inl same ↦ rw same refl
        | inr other ↦
            rw other
              (rw (public_keyring_cached kr w stored) (remove_in-unopened collection_name name))
      ]
