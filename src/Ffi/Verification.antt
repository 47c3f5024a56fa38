-- ===== src/Ffi/Verification.antt =====
-- secrets/rnp/rnpffi.cpp, `RnpFfi::verify` and `RnpFfi::decrypt`.
pub mod Laws
pub mod Subkeys
pub mod Sound
pub mod Reached
use sailfish_crypto_plugins.Common.{
  String, Bool, true, false, Option, none, some, List, [], ◌∷◌, ◌&&◌, str_eq, is_empty,
  if◌then◌else◌,
}
use sailfish_crypto_plugins.Host.{Host, Bytes, CryptoKey}
use sailfish_crypto_plugins.Machine.{World, M, pure, ◌>>=◌, ◌>>◌}
use sailfish_crypto_plugins.Rnp.Verify.{
  Signature, Status, valid, expired, missing_key, invalid, unknown,
}
use sailfish_crypto_plugins.Rnp.Verify
use sailfish_crypto_plugins.Rnp.Decrypt
use sailfish_crypto_plugins.Keys.Outcome.{plugin_name}
use sailfish_crypto_plugins.Ffi.Outcome.{
  Result, succeeded, failed, verification_error, decryption_error,
}

-- Sailfish::Crypto::CryptoManager::VerificationStatus
pub data VerificationStatus : Type 0 where
  verification_unknown verification_succeeded verification_key_expired : VerificationStatus
  verification_key_invalid verification_failed : VerificationStatus

abbrev pub verdict : Status → VerificationStatus
verdict valid = verification_succeeded
verdict expired = verification_key_expired
verdict missing_key = verification_key_invalid
verdict invalid = verification_failed
verdict unknown = verification_unknown

-- `key.collectionName() == sig.keyid && key.name() == sig.fingerprint`
abbrev pub signed_by : CryptoKey → Signature → Bool
signed_by key s = str_eq key.collection_name s.keyid && str_eq key.name s.fingerprint

-- The loop over the signatures: the first that the key made decides.
unfoldable pub first_verdict : CryptoKey → List Signature → VerificationStatus
first_verdict key [] = verification_unknown
first_verdict key (s ∷ rest) = if signed_by key s then verdict s.status else first_verdict key rest

-- What `verificationStatus` points to, `none` if it is null.
abbrev pub OutStatus : Type 0
OutStatus = Option VerificationStatus

abbrev pub signers_of : Option (List Signature) → List Signature
signers_of none = []
signers_of (some signers) = signers

module _ {H : Host} where
  verify_with : Bytes → Bytes → CryptoKey → M H (Result × OutStatus)
  verify_with signature message key = do
    signers ← Verify.verify message signature
    pure (succeeded, some (first_verdict key signers))

  -- RnpFfi::verify
  unfoldable pub verify : Bytes → Bytes → CryptoKey → OutStatus → M H (Result × OutStatus)
  unfolding verify_with
  verify signature message key none =
      pure (failed verification_error "missing verificationStatus argument.", none)
  verify signature message key (some status) =
      if str_eq key.storage_plugin_name plugin_name
      then verify_with signature message key
      else pure
          (failed verification_error "cannot verify with a non RNP key.", some verification_unknown)

  decrypt_with : Bytes → CryptoKey → M H (Result × Bytes × OutStatus)
  decrypt_with message key = do
    r ← Decrypt.decrypt message (some [])
    pure (
        if is_empty r.0
        then (failed decryption_error "cannot decrypt data.", r.0, some verification_unknown)
        else (succeeded, r.0, some (first_verdict key (signers_of r.1))))

  -- RnpFfi::decrypt, with what `decrypted` points to.
  unfoldable pub decrypt : Bytes → CryptoKey → Bytes → OutStatus → M H (Result × Bytes × OutStatus)
  unfolding decrypt_with
  decrypt message key decrypted none =
      pure (failed decryption_error "missing verificationStatus argument.", decrypted, none)
  decrypt message key decrypted (some status) =
      if str_eq key.storage_plugin_name plugin_name
      then decrypt_with message key
      else pure (
        failed decryption_error "cannot decrypt with a non RNP key.",
        decrypted,
        some verification_unknown,
      )
