-- ===== src/Qmf/Summary.antt =====
-- qmf/rnp/plugin.cpp, `toSignatureResult` and the loop of `verifySignature` over the signatures.
pub mod Laws
use sailfish_crypto_plugins.Common.{
  String, ◌≡◌, ◌≢◌, ◌↔◌, refl, Bool, true, false, List, [], ◌∷◌, ◌++◌, str_eq, if◌then◌else◌, arith,
  All,
}
use sailfish_crypto_plugins.Rnp.Verify.{
  Signature, Status, valid, expired, missing_key, invalid, unknown,
}

-- QMailCrypto::SignatureResult, as far as the source names it.
pub data SignatureResult : Type 0 where
  signature_valid signature_expired key_missing bad_signature : SignatureResult
  missing_signature unknown_error : SignatureResult

-- toSignatureResult
unfoldable pub to_signature_result : Status → SignatureResult
to_signature_result valid = signature_valid
to_signature_result expired = signature_expired
to_signature_result missing_key = key_missing
to_signature_result invalid = bad_signature
to_signature_result unknown = unknown_error

-- QMailCrypto::KeyResult, without its details, which are empty.
pub record KeyResult : Type 0 where
  pub key : String
  pub status : SignatureResult

-- QMailCrypto::VerificationResult
pub record VerificationResult : Type 0 where
  pub engine : String
  pub summary : SignatureResult
  pub key_results : List KeyResult

abbrev pub signer_of : Signature → String
signer_of s = if str_eq s.fingerprint "" then s.keyid else s.fingerprint

abbrev pub is_valid : Status → Bool
is_valid valid = true
is_valid _ = false

-- The loop: each signature is listed, and one that is not valid takes over the summary.
unfoldable pub add_signatures : List Signature → VerificationResult → VerificationResult
unfolding to_signature_result
add_signatures [] r = r
add_signatures (s ∷ rest) r = add_signatures rest (record r {
  summary = if is_valid s.status then r.summary else to_signature_result s.status;
  key_results =
      r.key_results ++ record { key = signer_of s; status = to_signature_result s.status } ∷ [];
})

abbrev initial_summary : List Signature → SignatureResult
initial_summary [] = bad_signature
initial_summary (s ∷ rest) = signature_valid

-- What `verifySignature` returns for the signatures that librnp reports.
unfoldable pub summarize : List Signature → VerificationResult
unfolding add_signatures
summarize sigs =
    add_signatures sigs
      (record { engine = "librnp.so"; summary = initial_summary sigs; key_results = [] })
