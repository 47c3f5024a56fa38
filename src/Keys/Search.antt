-- ===== src/Keys/Search.antt =====
-- secrets/rnp/rnpkeys.cpp, `RnpKeys::findSecrets`.
pub mod Laws
pub mod Names
pub mod Found
pub mod Sound
use sailfish_crypto_plugins.Common.{
  ℕ, String, Bool, true, false, Option, none, some, List, [], ◌∷◌, ◌++◌, ◌||◌, str_eq, lookup,
  if◌then◌else◌,
}
use sailfish_crypto_plugins.Host.{Host, Bytes, Algorithm, algorithm_unknown, CryptoKey}
use sailfish_crypto_plugins.Machine.{World, M, pure, get_rnp, set_rnp, ◌>>=◌, ◌>>◌, Keyring}
use sailfish_crypto_plugins.Rnp.Key.{Key, is_valid, fingerprint, fingerprints, subkey, destroy}
use sailfish_crypto_plugins.Rnp.KeyAccess.{keyids, key_of_keyid, remove_key}
use sailfish_crypto_plugins.Rnp.Ring.{public_keyring}
use sailfish_crypto_plugins.Rnp.Export.{to_crypto_key}
use sailfish_crypto_plugins.Keys.Outcome.{
  Result, Identifier, plugin_name, succeeded, failed, database_error, not_opened, no_collection,
}
use sailfish_crypto_plugins.Keys.Matching.{FilterOperator, matches}

-- One key: its identifier is appended if it matches.
append_match :
    Host → FilterOperator → List (String × String) → CryptoKey → List Identifier → List Identifier
append_match H operator filter key identifiers =
    if matches H operator key filter
    then identifiers
      ++ record {
        name = key.name;
        collection_name = key.collection_name;
        storage_plugin_name = plugin_name;
      }
        ∷ []
    else identifiers

module _ {H : Host} (operator : FilterOperator) (filter : List (String × String)) where
  -- The inner loop, over the fingerprints of a key.
  pub search_names : Key H → List String → List Identifier → M H (List Identifier)
  unfolding append_match
  search_names primary [] identifiers = pure identifiers
  search_names primary (fp ∷ fps) identifiers = do
    k ← subkey primary fp
    key ← to_crypto_key plugin_name k
    destroy k
    search_names primary fps (append_match H operator filter key identifiers)

  -- The outer loop, over the collections.
  pub search_collections : List String → List Identifier → M H (List Identifier)
  unfolding search_names
  search_collections [] identifiers = pure identifiers
  search_collections (id ∷ ids) identifiers = do
    public_keyring
    primary ← key_of_keyid id
    fps ← fingerprints primary
    identifiers' ← search_names primary fps identifiers
    destroy primary
    search_collections ids identifiers'

  -- `collectionName.compare("import") ? keyids() : (QStringList() << collectionName)`: `compare` is
  -- zero, and so false, where the texts are equal.
  pub searched : String → M H (List String)
  searched collection_name =
      if str_eq collection_name "import"
      then pure (collection_name ∷ [])
      else (public_keyring >> keyids)

  pub search_in : String → Keyring → M H (Result × List Identifier)
  unfolding searched search_collections
  search_in collection_name kr =
      if kr.valid
      then (do
        ids ← searched collection_name
        identifiers ← search_collections ids []
        pure (succeeded, identifiers))
      else (do result ← not_opened; pure (result, []))

  -- RnpKeys::findSecrets
  unfoldable pub find_secrets : String → M H (Result × List Identifier)
  unfolding search_in
  find_secrets collection_name = do kr ← public_keyring; search_in collection_name kr
