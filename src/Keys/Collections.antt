-- ===== src/Keys/Collections.antt =====
-- secrets/rnp/rnpkeys.cpp, the methods of `RnpKeys` that list: `collectionNames` and `secretNames`.
pub mod Laws
pub mod Sound
use sailfish_crypto_plugins.Common.{String, List, [], ◌∷◌, ◌++◌, str_eq, if◌then◌else◌}
use sailfish_crypto_plugins.Host.{Host}
use sailfish_crypto_plugins.Machine.{M, pure, ◌>>=◌, ◌>>◌, Keyring}
use sailfish_crypto_plugins.Rnp.Key.{Key, is_valid, fingerprints, destroy}
use sailfish_crypto_plugins.Rnp.KeyAccess.{keyids, key_of_keyid}
use sailfish_crypto_plugins.Rnp.Ring.{public_keyring}
use sailfish_crypto_plugins.Keys.Outcome.{Result, succeeded, not_opened, no_collection}

module _ {H : Host} where
  pub listed_collections : Keyring → M H (Result × List String)
  listed_collections kr =
      if kr.valid
      then (do public_keyring; ids ← keyids; pure (succeeded, ids ++ "import" ∷ []))
      else (do result ← not_opened; pure (result, []))

  -- RnpKeys::collectionNames
  unfoldable pub collection_names : M H (Result × List String)
  collection_names = do kr ← public_keyring; listed_collections kr

  pub names_of_key : String → Key H → M H (Result × List String)
  unfolding no_collection
  names_of_key collection_name key =
      if is_valid key
      then (do names ← fingerprints key; destroy key; pure (succeeded, names))
      else (do destroy key; pure (no_collection H collection_name, []))

  pub names_in : String → Keyring → M H (Result × List String)
  names_in collection_name kr =
      if kr.valid
      then (do public_keyring; key ← key_of_keyid collection_name; names_of_key collection_name key)
      else (do result ← not_opened; pure (result, []))

  -- RnpKeys::secretNames
  unfoldable pub secret_names : String → M H (Result × List String)
  secret_names collection_name =
      if str_eq collection_name "import"
      then pure (succeeded, [])
      else (public_keyring >>= names_in collection_name)
