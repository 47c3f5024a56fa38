-- ===== src/Qmf/Signing.antt =====
-- qmf/rnp/plugin.cpp: `partHasSignature`, `verifySignature` and `sign` of `QMailCryptoRNP`.
pub mod Enveloping
pub mod Signers
pub mod Copies
pub mod Outcome
pub mod Verification
pub mod RoundTrip
pub mod Result
use sailfish_crypto_plugins.Common.{
  ℕ, zero, suc, ◌+◌, String, Bool, true, false, Option, none, some, List, [], ◌∷◌, ◌++◌, ◌&&◌, ◌==◌,
  not, is_empty, if◌then◌else◌,
}
use sailfish_crypto_plugins.Host.{Host, Bytes}
use sailfish_crypto_plugins.Machine.{World, M, pure, gpg_compat, ◌>>=◌, ◌>>◌}
use sailfish_crypto_plugins.Rnp.Key.{Key, null_key, is_valid, destroy}
use sailfish_crypto_plugins.Rnp.KeyAccess.{from_fingerprint}
use sailfish_crypto_plugins.Rnp.Ring.{construct, destruct, secret_keyring}
use sailfish_crypto_plugins.Rnp.Sign
use sailfish_crypto_plugins.Rnp.Verify
use sailfish_crypto_plugins.Qmf.Canonical.{canonicalize}
use sailfish_crypto_plugins.Qmf.Mail.{Mail, MultipartType, multipart_none, multipart_signed}
use sailfish_crypto_plugins.Qmf.Summary.{
  SignatureResult, signature_valid, key_missing, missing_signature, unknown_error,
  VerificationResult, summarize,
}

abbrev pub is_none : MultipartType → Bool
is_none multipart_none = true
is_none _ = false

abbrev pub is_signed : MultipartType → Bool
is_signed multipart_signed = true
is_signed _ = false

abbrev pub signature_parameters : List (String × String)
signature_parameters = ("micalg", "pgp-sha256") ∷ ("protocol", "application/pgp-signature") ∷ []

module _ (m : Mail) where
  -- QMailCryptoRNP::partHasSignature
  unfoldable pub part_has_signature : m.Part → Bool
  part_has_signature part =
      (is_signed (m.multipart_type part) && m.part_count part == 2)
      && m.matches "application" "pgp-signature" (m.part_at 1 part)

  -- The loop over the parts from the `i`-th on, with the rounds that are left.
  unfoldable pub append_parts : ℕ → ℕ → m.Part → m.Part → m.Part
  append_parts zero i source target = target
  append_parts (suc rounds) i source target =
      append_parts rounds (i + 1) source (m.append_part (m.part_at i source) target)

  -- The part to sign: a copy, or the first part of what is signed already.
  pub part_to_sign : m.Part → m.Part
  unfolding part_has_signature append_parts
  part_to_sign part =
      let typed = m.set_multipart_type (m.multipart_type part) [] m.new_part in
      if part_has_signature part
      then m.part_at 0 part
      else if is_none (m.multipart_type part)
      then m.set_body (m.body part) typed
      else append_parts (m.part_count part) 0 part typed

  -- The object with its two parts, if it has them not already.
  pub two_parts : m.Part → m.Part → m.Part
  two_parts signed part =
      if part_has_signature part
      then part
      else (let emptied = if is_none (m.multipart_type part) then part else m.clear_parts part in
          m.append_part m.new_part (m.append_part signed emptied))

  -- The signature's part, once the data is signed.
  pub signature_part : Bytes → m.Part → m.Part
  signature_part signed_bytes signature =
      m.set_content_description "OpenPGP digital signature"
        (m.set_body (m.body_of_data signed_bytes "application/pgp-signature") signature)

  unfoldable pub with_signature : m.Part → Bytes → m.Part → m.Part
  unfolding two_parts signature_part
  with_signature signed signed_bytes part =
      let typed =
        m.set_multipart_type multipart_signed signature_parameters (two_parts signed part) in
      m.replace_part 1 (signature_part signed_bytes (m.part_at 1 typed)) typed

  -- What is returned of the signed data.
  pub signed_part : m.Part → m.Part → Bytes → SignatureResult × m.Part
  unfolding with_signature
  signed_part signed part signed_bytes =
      if is_empty signed_bytes
      then (unknown_error, part)
      else (signature_valid, with_signature signed signed_bytes part)

module _ (H : Host) (m : Mail) where
  -- QMailCryptoRNP::verifySignature; librnp's state holds the user's files.
  unfoldable pub verify_signature : m.Part → H.State → VerificationResult × H.State
  verify_signature part s =
      if part_has_signature m part
      then (let content = m.part_at 0 part in
          let signature = m.part_at 1 part in
          if m.content_available content && m.content_available signature
          then (let w = construct H gpg_compat s in
              let (sigs, w') =
                Verify.verify (canonicalize (m.undecoded_data content))
                  (m.decoded (m.body signature)) w in
              (summarize sigs, destruct w'))
          else (m.new_verification, s))
      else (m.verification_of missing_signature, s)

module _ {H : Host} where
  -- The keys of the fingerprints, up to the first that is not there, and whether all are.
  pub load_signers : List String → List (Key H) → M H (List (Key H) × Bool)
  load_signers [] signers = pure (signers, true)
  load_signers (fp ∷ fps) signers = do
    secret_keyring
    k ← from_fingerprint fp
    let rest = load_signers fps (signers ++ k ∷ [])
    if is_valid k then rest else pure (signers ++ k ∷ [], false)

  -- The array's keys, from the last to the first.
  pub destroy_signers : List (Key H) → M H Unit
  destroy_signers [] = pure tt
  destroy_signers (k ∷ keys) = destroy_signers keys >> destroy k

  module _ (m : Mail) where
    pub sign_with : m.Part → List (Key H) → M H (SignatureResult × m.Part)
    unfolding signed_part
    sign_with part signers = do
      let prepared = part_to_sign m part
      let message = m.to_rfc2822 prepared
      let signed = m.set_undecoded_data message prepared
      signed_bytes ← Sign.sign (canonicalize message) (signers ++ null_key ∷ []) true
      pure (signed_part m signed part signed_bytes)

    pub sign_loaded : m.Part → List (Key H) × Bool → M H (SignatureResult × m.Part)
    unfolding sign_with
    sign_loaded part (signers, false) = do destroy_signers signers; pure (key_missing, part)
    sign_loaded part (signers, true) = do
      r ← sign_with part signers
      destroy_signers signers
      pure r

module _ (H : Host) (m : Mail) where
  -- QMailCryptoRNP::sign, with the part that it leaves; a null pointer is `none`.
  unfoldable pub sign :
      Option m.Part → List String → H.State → (SignatureResult × Option m.Part) × H.State
  unfolding sign_loaded load_signers
  sign none keys s = ((unknown_error, none), s)
  sign (some part) keys s =
      let (r, w) = (load_signers keys [] >>= sign_loaded m part) (construct H gpg_compat s) in
      ((r.0, some r.1), destruct w)
