-- ===== src/Keys/Search/Sound.antt =====
-- secrets/rnp/rnpkeys.cpp: `RnpKeys::findSecrets` keeps the plugin sound.
use sailfish_crypto_plugins.Common.{String, ◌≡◌, Bool, some, List, inl, inr, Bool-cases}
use sailfish_crypto_plugins.Host.{Host}
use sailfish_crypto_plugins.Machine.{World, Keyring}
use sailfish_crypto_plugins.Rnp.Ring.{public_keyring}
use sailfish_crypto_plugins.Rnp.Ring.Laws.{public_keyring-stored}
use sailfish_crypto_plugins.Keys.Outcome.{not_opened_lem}
use sailfish_crypto_plugins.Keys.Matching.{FilterOperator}
use sailfish_crypto_plugins.Keys.Search.{search_in, find_secrets}
use sailfish_crypto_plugins.Keys.Search.Found.{search_in-Leaves}
use sailfish_crypto_plugins.Rnp.Ring.Sound.{IsSound, settled-IsSound, public_keyring-IsSound}

module _ {H : Host} {may : Bool} where
  search_in-IsSound :
      (op : FilterOperator) (filter : List (String × String)) (collection_name : String)
      (kr : Keyring) (w : World H)
      → w.rnp.public_keyring ≡ some kr
      → IsSound may w
      → IsSound may (search_in op filter collection_name kr w).1
  unfolding search_in
  search_in-IsSound op filter collection_name kr w stored sound = elim (Bool-cases kr.valid) [
    | inl valid ↦
        let l = search_in-Leaves op filter kr collection_name w stored valid in
        settled-IsSound _ w.rnp w.ffi l.next l.left w l.run sound.rings l.of_keys sound
    | inr invalid ↦ rw invalid (rw (not_opened_lem kr w stored) sound)
  ]

  pub find_secrets-IsSound :
      (op : FilterOperator) (filter : List (String × String)) (collection_name : String)
      (w : World H)
      → IsSound may w
      → IsSound may (find_secrets op filter collection_name w).1
  unfolding find_secrets
  find_secrets-IsSound op filter collection_name w sound =
      search_in-IsSound op filter collection_name (public_keyring w).0 (public_keyring w).1
        (public_keyring-stored w) (public_keyring-IsSound w sound)
