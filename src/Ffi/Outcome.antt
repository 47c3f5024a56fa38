-- ===== src/Ffi/Outcome.antt =====
-- secrets/rnp/rnpffi.cpp: the results of the crypto plugin, and its parameters.
use sailfish_crypto_plugins.Common.{String, Bool, true, Option, none, some}

-- Sailfish::Crypto::Result::ErrorCode, as far as the source names it.
pub data ErrorCode : Type 0 where
  operation_not_supported_error key_generation_error key_import_error signing_error : ErrorCode
  encryption_error decryption_error verification_error : ErrorCode

-- Sailfish::Crypto::Result
pub data Result : Type 0 where
  succeeded : Result
  failed : ErrorCode → String → Result

-- A QVariantMap of custom parameters: each value as a bool.
abbrev pub Parameters : Type 0
Parameters = String → Option Bool

-- customParameters.value("With-Armor", QVariant(true)).toBool()
abbrev pub with_armor : Option Bool → Bool
with_armor none = true
with_armor (some b) = b
