-- ===== src/Qmf/Signing/Verification.antt =====
-- qmf/rnp/plugin.cpp: what `QMailCryptoRNP::verifySignature` reports and leaves.
use sailfish_crypto_plugins.Common.{
  ◌≡◌, ◌≢◌, ◌↔◌, refl, sym, ap, ◌∙◌, if◌then◌else◌, Bool, true, false, [], ◌&&◌, map, Bool-cases,
  inl, inr,
}
use sailfish_crypto_plugins.Host.{Host, Bytes}
use sailfish_crypto_plugins.Machine.{gpg_compat}
use sailfish_crypto_plugins.Rnp.Ring.{construct}
use sailfish_crypto_plugins.Rnp.Ring.Laws.{closed, destruct_lem}
use sailfish_crypto_plugins.Rnp.Verify.Operation.{Verified, verified, verify-Does}
use sailfish_crypto_plugins.Qmf.Canonical.{canonicalize}
use sailfish_crypto_plugins.Qmf.Mail.{Mail}
use sailfish_crypto_plugins.Qmf.Summary.{
  VerificationResult, signature_valid, missing_signature, summarize,
}
use sailfish_crypto_plugins.Qmf.Summary.Laws.{AllValid, entry, summarize_lem}
use sailfish_crypto_plugins.Qmf.Signing.{part_has_signature, verify_signature}

-- The signatures that a new plugin's `Rnp::verify` finds in the user's files.
abbrev pub found_in : (H : Host) → H.State → Bytes → Bytes → Verified H
found_in H s message signature =
    let w = construct H gpg_compat s in verified H w.rnp w.ffi message signature

-- The same for a part: its first part's data, and its second part's body.
abbrev pub found_of : (H : Host) (m : Mail) → m.Part → H.State → Verified H
found_of H m part s =
    found_in H s (canonicalize (m.undecoded_data (m.part_at 0 part)))
      (m.decoded (m.body (m.part_at 1 part)))

-- The files, once the plugin is gone.
abbrev pub left_by : (H : Host) → Verified H → H.State
left_by H (sigs, r, s) = H.ffi_destroy (closed H r r.secret_keyring (closed H r r.public_keyring s))

abbrev pub both_available : (m : Mail) → m.Part → Bool
both_available m part =
    m.content_available (m.part_at 0 part) && m.content_available (m.part_at 1 part)

module _ (H : Host) (m : Mail) where
  -- What librnp found, and the result and the state for it.
  abbrev Checked : Verified H → VerificationResult × H.State → Type 0
  Checked (sigs, rnp, t) (result, s') =
      ((result.summary ≡ signature_valid) ↔ ((sigs ≢ []) × AllValid sigs))
      × ((result.key_results ≡ map entry sigs) × (s' ≡ left_by H (sigs, rnp, t)))

  -- How `verifySignature` ends.
  pub data Verifies (part : m.Part) (s : H.State) (out : VerificationResult × H.State)
      : Type 0 where
    unsigned :
        part_has_signature m part ≡ false
        → out ≡ (m.verification_of missing_signature, s)
        → Verifies part s out
    unavailable :
        part_has_signature m part ≡ true
        → both_available m part ≡ false
        → out ≡ (m.new_verification, s)
        → Verifies part s out
    checked :
        part_has_signature m part ≡ true
        → both_available m part ≡ true
        → Checked (found_of H m part s) out
        → Verifies part s out

  pub verify_signature_run :
      (part : m.Part) (s : H.State)
      → part_has_signature m part ≡ true
      → both_available m part ≡ true
      → verify_signature H m part s
        ≡ (summarize (found_of H m part s).0, left_by H (found_of H m part s))
  unfolding verify_signature
  verify_signature_run part s has here =
      let w = construct H gpg_compat s in
      let (n, e) =
        verify-Does (canonicalize (m.undecoded_data (m.part_at 0 part)))
          (m.decoded (m.body (m.part_at 1 part))) w in
      rw has (
        rw here (
          rw e (
            ap (λ s'. (summarize (found_of H m part s).0, s'))
              (destruct_lem (record w {
                rnp = (found_of H m part s).1;
                ffi = (found_of H m part s).2;
                next = n;
              })))))

  -- What a part that has a signature is reported as.
  pub verify_signature_reported :
      (part : m.Part) (s : H.State)
      → part_has_signature m part ≡ true
      → (verify_signature H m part s).0
        ≡ (if both_available m part then summarize (found_of H m part s).0 else m.new_verification)
  unfolding verify_signature
  verify_signature_reported part s has = elim (Bool-cases (both_available m part)) [
    | inl here ↦
        ap (λ p. p.0) (verify_signature_run part s has here)
        ∙ ap (λ b. if b then summarize (found_of H m part s).0 else m.new_verification) (sym here)
    | inr absent ↦ rw has (rw absent refl)
  ]

  verify_signature_verdict :
      (part : m.Part) (s : H.State)
      → part_has_signature m part ≡ true
      → both_available m part ≡ true
      → Checked (found_of H m part s) (verify_signature H m part s)
  verify_signature_verdict part s has here =
      rw (verify_signature_run part s has here)
        (let (iff, each) = summarize_lem (found_of H m part s).0 in (iff, (each, refl)))

  -- A part that has no signature is reported as such, and one whose two contents are not there gives
  -- a new result; librnp's state is as it was. For any other the summary is SignatureValid if and only
  -- if librnp finds a signature of the canonical text of the first part in the second, and finds all
  -- of them valid; each one is listed, in librnp's order; and the plugin's rings are closed.
  pub verify_signature_lem :
      (part : m.Part) (s : H.State) → Verifies part s (verify_signature H m part s)
  unfolding verify_signature
  verify_signature_lem part s = elim (Bool-cases (part_has_signature m part)) [
    | inr lacks ↦ unsigned lacks (rw lacks refl)
    | inl has ↦ elim (Bool-cases (both_available m part)) [
      | inl here ↦ checked has here (verify_signature_verdict part s has here)
      | inr absent ↦ unavailable has absent (rw has (rw absent refl))
    ]
  ]
