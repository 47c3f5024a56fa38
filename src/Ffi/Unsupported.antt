-- ===== src/Ffi/Unsupported.antt =====
-- secrets/rnp/rnpffi.cpp: the methods of `RnpFfi` that it does not support, and those whose work is
-- commented out. The source's unused parameters are left out.
use sailfish_crypto_plugins.Common.{
  String, Bool, true, false, Option, none, some, ◌&&◌, str_eq, if◌then◌else◌, lookup,
}
use sailfish_crypto_plugins.Host.{Host, CryptoKey}
use sailfish_crypto_plugins.Ffi.Outcome.{
  Result, succeeded, failed, operation_not_supported_error, key_generation_error, key_import_error,
}

unfoldable pub generate_random_data : Result
generate_random_data =
    failed operation_not_supported_error "The RNP plugin doesn't support generation of random data."

unfoldable pub seed_random_data_generator : Result
seed_random_data_generator =
    failed operation_not_supported_error "The RNP plugin doesn't support generation of random data."

unfoldable pub generate_initialization_vector : Result
generate_initialization_vector =
    failed operation_not_supported_error
      "The RNP plugin doesn't support generation of initialisation vector."

unfoldable pub calculate_digest : Result
calculate_digest = failed operation_not_supported_error "The RNP plugin doesn't support diggest."

unfoldable pub initialize_cipher_session : Result
initialize_cipher_session =
    failed operation_not_supported_error "The RNP plugin doesn't support cipher."

unfoldable pub update_cipher_session_authentication : Result
update_cipher_session_authentication =
    failed operation_not_supported_error "The RNP plugin doesn't support cipher."

unfoldable pub update_cipher_session : Result
update_cipher_session =
    failed operation_not_supported_error "The RNP plugin doesn't support cipher."

unfoldable pub finalize_cipher_session : Result
finalize_cipher_session =
    failed operation_not_supported_error "The RNP plugin doesn't support cipher."

-- KeyPairGenerationParameters::KeyPairType, as far as the source names it.
pub data KeyPairType : Type 0 where
  key_pair_dsa key_pair_rsa key_pair_custom key_pair_other : KeyPairType

abbrev is_supported : KeyPairType → Bool
is_supported key_pair_other = false
is_supported _ = true

abbrev is_dsa : KeyPairType → Bool
is_dsa key_pair_dsa = true
is_dsa _ = false

-- operationIsValid: `valid` is kpgParams.isValid(), `encrypts` whether OperationEncrypt is asked for.
unfoldable pub operation_is_valid : Bool → Bool → KeyPairType → Result
operation_is_valid encrypts valid type =
    if valid
    then (if is_supported type
        then (if is_dsa type && encrypts
            then failed key_generation_error "unsupported algorithm for operation."
            else succeeded)
        else failed key_generation_error "unsupported key pair algorithm.")
    else failed key_generation_error "invalid key generation parameters."

-- A QTemporaryDir: usable, or not with an error.
pub data TemporaryDir : Type 0 where
  created : TemporaryDir
  not_created : String → TemporaryDir

abbrev text_of : Option String → String
text_of none = ""
text_of (some text) = text

-- Sailfish::Crypto::Key::filterData(field)
abbrev filter_data_of : String → CryptoKey → String
filter_data_of field key = text_of (lookup field key.filter_data)

-- RnpFfi::generateKey, with the key that it leaves in `*key`.
unfoldable pub generate_key : Host → TemporaryDir → CryptoKey → CryptoKey → Result × CryptoKey
generate_key H tmp template key =
    if str_eq template.collection_name ""
    then (elim tmp [
      | not_created error ↦ (
        failed key_generation_error (H.string_arg "cannot create temporary directory: %1." error),
        key,
      )
      | created ↦ (succeeded, key)
    ])
    else if str_eq (filter_data_of "Ephemeral-Home" template) ""
    then (
      failed key_generation_error (
          H.string_arg "cannot create subkey for %1: no home in template."
            template.collection_name),
      key,
    )
    else (succeeded, key)

-- RnpFfi::generateAndStoreKey
unfoldable pub generate_and_store_key : CryptoKey → Result × CryptoKey
generate_and_store_key key = (succeeded, key)

-- RnpFfi::importKey
unfoldable pub import_key : Host → TemporaryDir → CryptoKey → Result × CryptoKey
import_key H (not_created error) key =
    (failed key_import_error (H.string_arg "cannot create temporary directory: %1." error), key)
import_key H created key = (succeeded, key)

-- RnpFfi::importAndStoreKey
unfoldable pub import_and_store_key : CryptoKey → Result × CryptoKey
import_and_store_key key = (succeeded, key)

-- RnpFfi::storedKey
unfoldable pub stored_key : CryptoKey → Result × CryptoKey
stored_key key = (succeeded, key)
