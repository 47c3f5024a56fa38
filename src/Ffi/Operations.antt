-- ===== src/Ffi/Operations.antt =====
-- secrets/rnp/rnpffi.cpp, `RnpFfi::operation`, which signs and encrypts, and `storedKeyIdentifiers`.
pub mod Identifiers
pub mod Signing
pub mod Reached
pub mod Exported
pub mod Sound
use sailfish_crypto_plugins.Common.{
  String, Option, none, some, List, [], ◌∷◌, ◌++◌, str_eq, is_empty, if◌then◌else◌,
}
use sailfish_crypto_plugins.Host.{Host, Bytes, CryptoKey}
use sailfish_crypto_plugins.Machine.{M, pure, ◌>>=◌, ◌>>◌}
use sailfish_crypto_plugins.Rnp.Key.{null_key, destroy, fingerprints}
use sailfish_crypto_plugins.Rnp.KeyAccess.{keyids, key_of_crypto, key_of_keyid}
use sailfish_crypto_plugins.Rnp.Ring.{public_keyring, secret_keyring}
use sailfish_crypto_plugins.Rnp.Sign
use sailfish_crypto_plugins.Rnp.Encrypt
use sailfish_crypto_plugins.Keys.Outcome.{Identifier, plugin_name}
use sailfish_crypto_plugins.Ffi.Outcome.{
  Result, succeeded, failed, Parameters, with_armor, ErrorCode, operation_not_supported_error,
  signing_error, encryption_error,
}

-- Sailfish::Crypto::CryptoManager::Operation, as far as the source names it.
pub data Operation : Type 0 where
  operation_sign operation_encrypt operation_other : Operation

-- What `output` points to, `none` if it is null.
abbrev pub OutBytes : Type 0
OutBytes = Option Bytes

-- `output->isEmpty()` makes the operation fail.
checked : ErrorCode → String → Bytes → Result × OutBytes
checked code message bytes = (if is_empty bytes then failed code message else succeeded, some bytes)

-- An identifier for each fingerprint.
append_identifiers : String → List String → List Identifier → List Identifier
append_identifiers id [] identifiers = identifiers
append_identifiers id (fp ∷ fps) identifiers = append_identifiers id fps (
    identifiers
    ++ record { name = fp; collection_name = id; storage_plugin_name = plugin_name } ∷ [])

module _ {H : Host} where
  run_signing : CryptoKey → Bytes → Parameters → M H (Result × OutBytes)
  unfolding checked
  run_signing key message parameters = do
    secret_keyring
    k ← key_of_crypto key.collection_name key.name
    bytes ← Sign.sign message (k ∷ null_key ∷ []) (with_armor (parameters "With-Armor"))
    destroy k
    pure (checked signing_error "cannot sign data." bytes)

  run_encryption : CryptoKey → Bytes → Parameters → M H (Result × OutBytes)
  unfolding checked
  run_encryption key message parameters = do
    public_keyring
    k ← key_of_crypto key.collection_name key.name
    bytes ←
        Encrypt.encrypt message (k ∷ null_key ∷ []) (null_key ∷ [])
          (with_armor (parameters "With-Armor"))
    destroy k
    pure (checked encryption_error "cannot encrypt data." bytes)

  -- The tests before the operation: the output must be given, and the key be one of the plugin's.
  guarded : ErrorCode → CryptoKey → OutBytes → M H (Result × OutBytes) → M H (Result × OutBytes)
  guarded code key none run = pure (failed code "missing output argument.", none)
  guarded code key (some output) run =
      if str_eq key.storage_plugin_name plugin_name
      then run
      else pure (failed code "cannot use a non RNP key.", some [])

  -- RnpFfi::operation
  unfoldable pub operation :
      Operation → CryptoKey → Bytes → Parameters → OutBytes → M H (Result × OutBytes)
  unfolding guarded run_signing run_encryption
  operation operation_sign key message parameters output =
      guarded signing_error key output (run_signing key message parameters)
  operation operation_encrypt key message parameters output =
      guarded encryption_error key output (run_encryption key message parameters)
  operation operation_other key message parameters output =
      pure (failed operation_not_supported_error "Operation not supported by RNP plugin.", output)

  -- RnpFfi::sign
  unfoldable pub sign : Bytes → CryptoKey → Parameters → OutBytes → M H (Result × OutBytes)
  unfolding operation
  sign message key parameters signature = operation operation_sign key message parameters signature

  -- RnpFfi::encrypt
  unfoldable pub encrypt : Bytes → CryptoKey → Parameters → OutBytes → M H (Result × OutBytes)
  unfolding operation
  encrypt message key parameters encrypted =
      operation operation_encrypt key message parameters encrypted

  pub identify_collections : List String → List Identifier → M H (List Identifier)
  unfolding append_identifiers
  identify_collections [] identifiers = pure identifiers
  identify_collections (id ∷ ids) identifiers = do
    public_keyring
    primary ← key_of_keyid id
    fps ← fingerprints primary
    destroy primary
    identify_collections ids (append_identifiers id fps identifiers)

  pub collections_named : String → M H (List String)
  collections_named collection_name =
      if str_eq collection_name "" then (public_keyring >> keyids) else pure (collection_name ∷ [])

  -- RnpFfi::storedKeyIdentifiers, which appends to the list that it is given.
  unfoldable pub stored_key_identifiers : String → List Identifier → M H (Result × List Identifier)
  stored_key_identifiers collection_name identifiers =
      if str_eq collection_name "import" then pure (succeeded, identifiers) else (do
        ids ← collections_named collection_name
        identifiers' ← identify_collections ids identifiers
        pure (succeeded, identifiers'))
