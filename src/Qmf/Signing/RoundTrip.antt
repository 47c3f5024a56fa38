-- ===== src/Qmf/Signing/RoundTrip.antt =====
-- qmf/rnp/plugin.cpp: that `QMailCryptoRNP::verifySignature` checks what `QMailCryptoRNP::sign` signed.
use mathlib.Core.Bool.{true≢false}
use sailfish_crypto_plugins.Common.{
  String, ◌≡◌, ◌⊎◌, refl, sym, ap, ◌∙◌, true, false, some, Option, List, [], ◌∷◌, ◌++◌, map,
  is_empty, inl, inr, if◌then◌else◌,
}
use sailfish_crypto_plugins.Host.{Host, Bytes}
use sailfish_crypto_plugins.Rnp.Key.{Key, null_key}
use sailfish_crypto_plugins.Rnp.Sign.Cleanup.{SignRun}
use sailfish_crypto_plugins.Qmf.Canonical.{canonicalize}
use sailfish_crypto_plugins.Qmf.Signing.Signers.{all_there}
use sailfish_crypto_plugins.Qmf.Mail.{Mail}
use sailfish_crypto_plugins.Qmf.Mail.Laws.{MailLaws, IsWhole}
use sailfish_crypto_plugins.Qmf.Summary.{
  VerificationResult, SignatureResult, signature_valid, summarize,
}
use sailfish_crypto_plugins.Qmf.Signing.{
  part_has_signature, part_to_sign, with_signature, sign, verify_signature,
}
use sailfish_crypto_plugins.Qmf.Signing.Enveloping.{
  with_signature-part_has_signature, with_signature_decoded, with_signature_first,
}
use sailfish_crypto_plugins.Qmf.Signing.Outcome.{
  looked_up_in, message_of, signed_of, ending, SignsPart, sign_outcome,
}
use sailfish_crypto_plugins.Qmf.Signing.Signers.{refs_of, signer_at}
use sailfish_crypto_plugins.Qmf.Signing.Verification.{
  found_in, both_available, verify_signature_reported,
}

module _ (H : Host) (m : Mail) (l : MailLaws m) where
  module _ (part : m.Part) (unsigned : part_has_signature m part ≡ false) (whole : IsWhole m part)
      (bytes : Bytes) where
    abbrev made : m.Part
    made = with_signature m (signed_of m part) bytes part

    made_first : m.part_at 0 made ≡ signed_of m part
    made_first = rw unsigned at (with_signature_first m l (signed_of m part) bytes part whole)

    made_data : m.undecoded_data (m.part_at 0 made) ≡ message_of m part
    made_data =
        ap m.undecoded_data made_first ∙ l.undecoded_set (message_of m part) (part_to_sign m part)

    -- A verification of a text and a signature, if the contents are there.
    abbrev verified_as : H.State → Bytes → Bytes → VerificationResult
    verified_as s text signature =
        if both_available m made
        then summarize (found_in H s (canonicalize text) signature).0
        else m.new_verification

    -- What the new part says of itself is the text and the signature.
    made_verified :
        (s : H.State) → (verify_signature H m made s).0 ≡ verified_as s (message_of m part) bytes
    made_verified s =
        verify_signature_reported H m made s
          (with_signature-part_has_signature m l _ bytes part whole)
        ∙ (ap (λ text. verified_as s text (m.decoded (m.body (m.part_at 1 made)))) made_data
            ∙ ap (verified_as s (message_of m part))
                (with_signature_decoded m l (signed_of m part) bytes part whole))

  -- What `sign` signed, and with which keys, and that `verifySignature` looks at that.
  pub record SignVerify (part p : m.Part) (keys : List String) (s : H.State) : Type 0 where
    pub signers : List (Key H)
    pub bytes : Bytes
    pub left : H.State
    pub there : all_there H (looked_up_in H keys s) keys ≡ true
    pub listed : refs_of signers ≡ map (signer_at H (looked_up_in H keys s)) keys
    pub signs :
        SignRun
          (canonicalize (message_of m part))
          (signers ++ null_key ∷ [])
          true
          (looked_up_in H keys s)
          bytes
          left
    pub has_signature : part_has_signature m p ≡ true
    pub verifies :
        (t : H.State)
        → (verify_signature H m p t).0 ≡ (
            if both_available m p
            then summarize (found_in H t (canonicalize (message_of m part)) bytes).0
            else m.new_verification)

  ends_valid :
      (part p : m.Part) (bytes : Bytes)
      → ending m part bytes ≡ (signature_valid, some p)
      → (is_empty bytes ≡ false) × (p ≡ with_signature m (signed_of m part) bytes part)
  ends_valid part p [] e = cc
  ends_valid part p (b ∷ bytes) e = (refl, cc)

  not_empty : {A : Type 0} (bytes : Bytes) → is_empty bytes ≡ false → (bytes ≡ []) ⊎ A → A
  not_empty [] e x = absurd (true≢false e)
  not_empty (b ∷ bytes) e (inl f) = cc
  not_empty (b ∷ bytes) e (inr a) = a

  signs_and_verifies :
      (part p : m.Part) (keys : List String) (s : H.State) (out : SignatureResult × Option m.Part)
      → IsWhole m part
      → part_has_signature m part ≡ false
      → out ≡ (signature_valid, some p)
      → all_there H (looked_up_in H keys s) keys ≡ true
      → SignsPart H m part keys (looked_up_in H keys s) out
      → SignVerify part p keys s
  signs_and_verifies part p keys s out whole unsigned valid there r =
      let (full, e) = ends_valid part p r.bytes (sym r.result ∙ valid) in
      record {
        signers = r.signers;
        bytes = r.bytes;
        left = r.left;
        there = there;
        listed = r.listed;
        signs = not_empty r.bytes full r.signs;
        has_signature =
            rw e (with_signature-part_has_signature m l (signed_of m part) r.bytes part whole);
        verifies = λ t. rw e (made_verified part unsigned whole r.bytes t);
      }

  -- If a part had no signature, nor any part within it unless it is multipart, and `sign` returned
  -- SignatureValid, then librnp had the keys of all the fingerprints, and it has signed the canonical
  -- text of the part to sign with just those keys, in the order of the fingerprints. The part that is
  -- left has a signature. Whenever and in whatever state of the user's files `verifySignature` is then
  -- called on it, it summarizes what librnp finds for just that text and just the bytes that librnp's
  -- signature operation gave, if the contents of the part's two parts are available, and gives a new
  -- result if they are not.
  pub sign-verify :
      (part p : m.Part) (keys : List String) (s : H.State)
      → IsWhole m part
      → part_has_signature m part ≡ false
      → (sign H m (some part) keys s).0 ≡ (signature_valid, some p)
      → SignVerify part p keys s
  sign-verify part p keys s whole unsigned valid = elim (sign_outcome H m part keys s) [
    | inl (missing, e) ↦ cc
    | inr (there, r) ↦ signs_and_verifies part p keys s _ whole unsigned valid there r
  ]
