-- ===== src/Keys/Removal/Sound.antt =====
-- secrets/rnp/rnpkeys.cpp: the methods of `RnpKeys` that remove keep the plugin sound.
use sailfish_crypto_plugins.Common.{
  ℕ, String, ◌≡◌, refl, Bool, true, ◌||◌, Option, none, some, ◌++◌, inl, inr, Bool-cases, str_eq,
}
use sailfish_crypto_plugins.Host.{Host}
use sailfish_crypto_plugins.Machine.{World, Keyring, Rnp, Ptr, Handle, deref}
use sailfish_crypto_plugins.Rnp.Key.{Key}
use sailfish_crypto_plugins.Rnp.Key.Fingerprints.{fingerprint_at, fingerprint_lem}
use sailfish_crypto_plugins.Rnp.Key.Handles.{own, leaked, all-leaked, load-Loads}
use sailfish_crypto_plugins.Rnp.Key.Removal.{removal}
use sailfish_crypto_plugins.Rnp.Key.Subkeys.{subkey_at}
use sailfish_crypto_plugins.Rnp.KeyAccess.{key_of_keyid}
use sailfish_crypto_plugins.Rnp.Ring.{public_keyring}
use sailfish_crypto_plugins.Rnp.Ring.Laws.{public_keyring_cached, public_keyring-stored}
use sailfish_crypto_plugins.Keys.Outcome.{not_opened_lem}
use sailfish_crypto_plugins.Keys.Removal.{
  remove_secret, remove_collection, remove_standalone_secret, remove_of_key, remove_in,
}
use sailfish_crypto_plugins.Keys.Removal.Steps.{
  marked, is_gone, after, remove_whole_lem, remove_subkey_lem,
}
use sailfish_crypto_plugins.Keys.Removal.Laws.{key_of, no_key_lem}
use sailfish_crypto_plugins.Rnp.Ring.Sound.{
  HasRings, IsSound, settled-IsSound, public_keyring-IsSound,
}

marked-HasRings :
    {H : Host} (r : Rnp) (kr : Keyring) (removed : Bool)
    → r.public_keyring ≡ some kr
    → HasRings H true r
    → HasRings H true (marked r kr removed)
marked-HasRings r kr removed stored h = record {
  members = h.members;
  public_ring = ((rw stored at h.public_ring).0, inr refl);
  secret_ring = h.secret_ring;
}

module _ {H : Host} where
  removed-IsSound :
      {A : Type 0} (v : A) (kr : Keyring) (t : Option H.KeyRef) (n : ℕ) (k : Key H) (w : World H)
      {out : A × World H}
      → w.rnp.public_keyring ≡ some kr
      → out ≡ (v, record (after kr w t n) { live = leaked k ++ w.live })
      → IsSound true w
      → IsSound true out.1
  removed-IsSound v kr t n k w stored e sound =
      settled-IsSound v (after kr w t n).rnp (after kr w t n).ffi n (leaked k) w e
        (marked-HasRings w.rnp kr (is_gone (removal H w.ffi t).0 t) stored sound.rings)
        (all-leaked k) sound

  some_key-IsSound :
      (collection_name name : String) (kr : Keyring) (h : Handle H.KeyRef) (q : Ptr H.KeyRef)
      (w : World H) (n : ℕ)
      → w.rnp.public_keyring ≡ some kr
      → IsSound true w
      → IsSound true
          (remove_of_key collection_name name (key_of {H = H} kr (some h) q) (record w {
            next = n;
            live = leaked (key_of {H = H} kr (some h) q) ++ (own (some h) ++ w.live);
          })).1
  unfolding remove_of_key
  some_key-IsSound collection_name name kr h q w n stored sound =
      let k = key_of {H = H} kr (some h) q in
      rw (fingerprint_lem k (record w { next = n; live = leaked k ++ (own k.m_key ++ w.live) }))
        (elim (Bool-cases (str_eq (fingerprint_at H w.ffi (some h.obj)) name || str_eq name "")) [
          | inl whole ↦ rw whole (
              removed-IsSound _ kr (some h.obj) n k w stored (remove_whole_lem kr name k w n stored)
                sound)
          | inr sub ↦
              let (m, run) = remove_subkey_lem kr name k w n stored in
              rw sub (
                removed-IsSound _ kr (subkey_at H w.ffi (some h.obj) (deref q) name) m k w stored
                  run sound)
        ])

  remove_of_key-IsSound :
      (collection_name name : String) (kr : Keyring) (p q : Ptr H.KeyRef) (w : World H) (n : ℕ)
      → w.rnp.public_keyring ≡ some kr
      → IsSound true w
      → IsSound true
          (remove_of_key collection_name name
            (key_of {H = H} kr p q)
            (record w { next = n; live = leaked (key_of {H = H} kr p q) ++ (own p ++ w.live) })).1
  remove_of_key-IsSound collection_name name kr (some h) q w n stored sound =
      some_key-IsSound collection_name name kr h q w n stored sound
  remove_of_key-IsSound collection_name name kr none q w n stored sound =
      settled-IsSound _ w.rnp w.ffi n (leaked (key_of {H = H} kr none q)) w
        (no_key_lem kr collection_name name q w n) sound.rings
        (all-leaked (key_of {H = H} kr none q)) sound

  loaded-IsSound :
      (collection_name name : String) (kr : Keyring) (w : World H)
      → w.rnp.public_keyring ≡ some kr
      → IsSound true w
      → IsSound true
          (let (k, w') = key_of_keyid collection_name w in
            remove_of_key collection_name name k w').1
  unfolding key_of_keyid
  loaded-IsSound collection_name name kr w stored sound =
      let l = load-Loads "keyid" collection_name w in
      rw l.run (
        remove_of_key-IsSound collection_name name kr l.key.m_key l.key.m_primary w l.next stored
          sound)

  remove_in-IsSound :
      (collection_name name : String) (kr : Keyring) (w : World H)
      → w.rnp.public_keyring ≡ some kr
      → IsSound true w
      → IsSound true (remove_in collection_name name kr w).1
  unfolding remove_in
  remove_in-IsSound collection_name name kr w stored sound = elim (Bool-cases kr.valid) [
    | inl valid ↦ rw valid (
        rw (public_keyring_cached kr w stored)
          (loaded-IsSound collection_name name kr w stored sound))
    | inr invalid ↦ rw invalid (rw (not_opened_lem kr w stored) sound)
  ]

  pub remove_secret-IsSound :
      (collection_name name : String) (w : World H)
      → IsSound true w
      → IsSound true (remove_secret collection_name name w).1
  unfolding remove_secret
  remove_secret-IsSound collection_name name w sound =
      elim (Bool-cases (str_eq collection_name "import")) [
        | inl same ↦ rw same sound
        | inr other ↦ rw other (
            remove_in-IsSound collection_name name (public_keyring w).0 (public_keyring w).1
              (public_keyring-stored w) (public_keyring-IsSound w sound))
      ]

  pub remove_collection-IsSound :
      (collection_name : String) (w : World H)
      → IsSound true w
      → IsSound true (remove_collection collection_name w).1
  unfolding remove_collection
  remove_collection-IsSound collection_name w sound =
      remove_secret-IsSound collection_name "" w sound

  pub remove_standalone_secret-IsSound :
      (secret_name : String) (w : World H)
      → IsSound true w
      → IsSound true (remove_standalone_secret secret_name w).1
  unfolding remove_standalone_secret
  remove_standalone_secret-IsSound secret_name w sound =
      remove_secret-IsSound "" secret_name w sound
