-- ===== src/Keys/Removal.antt =====
-- secrets/rnp/rnpkeys.cpp, the methods of `RnpKeys` that remove.
pub mod Steps
pub mod Laws
pub mod Sound
use sailfish_crypto_plugins.Common.{
  ℕ, String, Bool, true, false, Option, none, some, List, [], ◌∷◌, ◌++◌, ◌||◌, str_eq, lookup,
  if◌then◌else◌,
}
use sailfish_crypto_plugins.Host.{Host, Bytes, Algorithm, algorithm_unknown, CryptoKey}
use sailfish_crypto_plugins.Machine.{World, M, pure, get_rnp, set_rnp, ◌>>=◌, ◌>>◌, Keyring}
use sailfish_crypto_plugins.Rnp.Key.{Key, is_valid, fingerprint, fingerprints, subkey, destroy}
use sailfish_crypto_plugins.Rnp.KeyAccess.{keyids, key_of_keyid, remove_key}
use sailfish_crypto_plugins.Rnp.Ring.{public_keyring}
use sailfish_crypto_plugins.Keys.Outcome.{
  Result, succeeded, failed, database_error, not_opened, no_collection,
}

module _ {H : Host} where
  store_public : Keyring → M H Unit
  store_public kr = do r ← get_rnp; set_rnp (record r { public_keyring = some kr })

  -- `publicKeyring().remove(key)`, with the key that it leaves.
  pub remove_from_public : Key H → M H (Bool × Key H)
  unfolding store_public
  remove_from_public key = do
    kr ← public_keyring
    removed ← remove_key kr key
    store_public removed.2
    pure (removed.0, removed.1)

  pub remove_whole : String → Key H → M H Result
  remove_whole secret_name key = do
    removed ← remove_from_public key
    destroy removed.1
    pure (
        if removed.0
        then succeeded
        else failed database_error (H.string_arg "cannot delete key %1." secret_name))

  pub remove_subkey : String → Key H → M H Result
  remove_subkey secret_name key = do
    sub ← subkey key secret_name
    removed ← remove_from_public sub
    destroy removed.1
    destroy key
    pure (
        if removed.0
        then succeeded
        else failed database_error (H.string_arg "cannot delete subkey %1." secret_name))

  pub remove_of_key : String → String → Key H → M H Result
  remove_of_key collection_name secret_name key =
      if is_valid key
      then (do
        fp ← fingerprint key
        if str_eq fp secret_name || str_eq secret_name ""
            then remove_whole secret_name key
            else remove_subkey secret_name key)
      else (do destroy key; pure (no_collection H collection_name))

  pub remove_in : String → String → Keyring → M H Result
  remove_in collection_name secret_name kr =
      if kr.valid
      then (do
        public_keyring
        key ← key_of_keyid collection_name
        remove_of_key collection_name secret_name key)
      else not_opened

  -- RnpKeys::removeSecret(const QString &collectionName, const QString &secretName)
  unfoldable pub remove_secret : String → String → M H Result
  remove_secret collection_name secret_name =
      if str_eq collection_name "import"
      then pure succeeded
      else (public_keyring >>= remove_in collection_name secret_name)

  -- RnpKeys::removeCollection
  unfoldable pub remove_collection : String → M H Result
  unfolding remove_secret
  remove_collection collection_name = remove_secret collection_name ""

  -- RnpKeys::removeSecret(const QString &secretName)
  unfoldable pub remove_standalone_secret : String → M H Result
  unfolding remove_secret
  remove_standalone_secret secret_name = remove_secret "" secret_name
