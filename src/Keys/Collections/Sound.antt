-- ===== src/Keys/Collections/Sound.antt =====
-- secrets/rnp/rnpkeys.cpp: the methods of `RnpKeys` that list keep the plugin sound.
use sailfish_crypto_plugins.Common.{
  String, ◌≡◌, ◌∙◌, refl, Bool, some, [], inl, inr, Bool-cases, str_eq,
}
use sailfish_crypto_plugins.Host.{Host}
use sailfish_crypto_plugins.Machine.{World, Keyring}
use sailfish_crypto_plugins.Rnp.Key.{load}
use sailfish_crypto_plugins.Rnp.Key.Handles.{leaked, all-leaked}
use sailfish_crypto_plugins.Rnp.Ring.{public_keyring}
use sailfish_crypto_plugins.Rnp.Ring.Laws.{public_keyring_cached, public_keyring-stored}
use sailfish_crypto_plugins.Keys.Outcome.{not_opened_lem}
use sailfish_crypto_plugins.Keys.Collections.{
  collection_names, listed_collections, names_in, secret_names,
}
use sailfish_crypto_plugins.Keys.Collections.Laws.{
  names_listed, listed_collections_lem, names_loaded_lem, names_in_lem,
}
use sailfish_crypto_plugins.Rnp.Ring.Sound.{IsSound, settled-IsSound, public_keyring-IsSound}

module _ {H : Host} {may : Bool} where
  listed_collections-IsSound :
      (kr : Keyring) (w : World H)
      → w.rnp.public_keyring ≡ some kr
      → IsSound may w
      → IsSound may (listed_collections kr w).1
  unfolding listed_collections
  listed_collections-IsSound kr w stored sound = elim (Bool-cases kr.valid) [
    | inl valid ↦
        let (n, e) = listed_collections_lem kr kr w stored valid in
        settled-IsSound _ w.rnp w.ffi n [] w e sound.rings refl sound
    | inr invalid ↦ rw invalid (rw (not_opened_lem kr w stored) sound)
  ]

  pub collection_names-IsSound : (w : World H) → IsSound may w → IsSound may (collection_names w).1
  unfolding collection_names
  collection_names-IsSound w sound =
      listed_collections-IsSound (public_keyring w).0 (public_keyring w).1 (public_keyring-stored w)
        (public_keyring-IsSound w sound)

  names_in-IsSound :
      (collection_name : String) (kr : Keyring) (w : World H)
      → w.rnp.public_keyring ≡ some kr
      → IsSound may w
      → IsSound may (names_in collection_name kr w).1
  unfolding names_in
  names_in-IsSound collection_name kr w stored sound = elim (Bool-cases kr.valid) [
    | inl valid ↦
        let (n, e) = names_loaded_lem collection_name w in
        settled-IsSound (names_listed H w.ffi collection_name (load "keyid" collection_name w).0)
          w.rnp w.ffi n (leaked (load "keyid" collection_name w).0) w
          (names_in_lem collection_name kr w valid ∙ rw (public_keyring_cached kr w stored) e)
          sound.rings (all-leaked (load "keyid" collection_name w).0) sound
    | inr invalid ↦ rw invalid (rw (not_opened_lem kr w stored) sound)
  ]

  pub secret_names-IsSound :
      (collection_name : String) (w : World H)
      → IsSound may w
      → IsSound may (secret_names collection_name w).1
  unfolding secret_names
  secret_names-IsSound collection_name w sound =
      elim (Bool-cases (str_eq collection_name "import")) [
        | inl same ↦ rw same sound
        | inr other ↦ rw other (
            names_in-IsSound collection_name (public_keyring w).0 (public_keyring w).1
              (public_keyring-stored w) (public_keyring-IsSound w sound))
      ]
