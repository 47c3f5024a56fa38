-- ===== src/Qmf/Calls.antt =====
-- qmf/rnp/plugin.h: the interface through which the mail framework calls the plugin, and the user's
-- files over any calls of it.
use sailfish_crypto_plugins.Common.{
  String, ◌≡◌, refl, ap, ◌∙◌, true, false, Option, none, some, List, [], ◌∷◌, map, Bool-cases, inl,
  inr, if◌then◌else◌,
}
use sailfish_crypto_plugins.Host.{Host}
use sailfish_crypto_plugins.Machine.{Rnp, gpg_compat}
use sailfish_crypto_plugins.Rnp.Ring.{construct}
use sailfish_crypto_plugins.Rnp.Ring.Laws.{closed}
use sailfish_crypto_plugins.Rnp.Ring.Sound.{
  HasRings, only_unloaded, closed-HasRings, construct-IsSound, secret_opened-HasRings,
  MayOpenPublic-HasRings, MayOpenSecret-HasRings,
}
use sailfish_crypto_plugins.Rnp.Verify.Operation.{verified-MayOpenPublic}
use sailfish_crypto_plugins.Rnp.Decrypt.Operation.{decrypted, decrypted-MayOpenSecret}
use sailfish_crypto_plugins.Rnp.Sign.Operation.{signed}
use sailfish_crypto_plugins.Qmf.Canonical.{canonicalize}
use sailfish_crypto_plugins.Qmf.Mail.{Mail}
use sailfish_crypto_plugins.Qmf.Signing.{part_has_signature, verify_signature, sign}
use sailfish_crypto_plugins.Qmf.Signing.Outcome.{looked_up, message_of}
use sailfish_crypto_plugins.Qmf.Signing.Signers.{all_there, signer_at}
use sailfish_crypto_plugins.Qmf.Signing.Result.{present, signed_by_all, sign_result}
use sailfish_crypto_plugins.Qmf.Signing.Verification.{
  found_of, both_available, verify_signature_run,
}
use sailfish_crypto_plugins.Qmf.Decryption.{can_decrypt, decrypt_part, decrypt}
use sailfish_crypto_plugins.Qmf.Decryption.Outcome.{encrypted_of, decrypt_body_run}

-- A call of one of QMailCryptoRNP's methods that work on a mail.
pub data MailCall (m : Mail) : Type 0 where
  call_part_has_signature : m.Part → MailCall m
  call_verify_signature : m.Part → MailCall m
  call_sign : Option m.Part → List String → MailCall m
  call_can_decrypt : m.Part → MailCall m
  call_decrypt : Option m.Part → MailCall m

module _ (H : Host) (m : Mail) where
  -- The user's files after a call.
  pub run_mail_call : MailCall m → H.State → H.State
  run_mail_call (call_part_has_signature part) s = s
  run_mail_call (call_verify_signature part) s = (verify_signature H m part s).1
  run_mail_call (call_sign part keys) s = (sign H m part keys s).1
  run_mail_call (call_can_decrypt part) s = s
  run_mail_call (call_decrypt part) s = (decrypt H m part s).1

  -- The calls one after the other.
  unfoldable pub run_mail_calls : List (MailCall m) → H.State → H.State
  unfolding run_mail_call
  run_mail_calls [] s = s
  run_mail_calls (c ∷ cs) s = run_mail_calls cs (run_mail_call c s)

-- The end of a call's `Rnp` object without any save.
abbrev pub unsaved : (H : Host) → Rnp → H.State → H.State
unsaved H r s =
    H.ffi_destroy (only_unloaded H r.secret_keyring (only_unloaded H r.public_keyring s))

module _ (H : Host) (m : Mail) where
  abbrev signed_state : m.Part → List String → Rnp × H.State → H.State
  signed_state part keys (r, t) = unsaved H r (
      if all_there H t keys
      then (signed H t (canonicalize (message_of m part)) (present (map (signer_at H t) keys))
          true).1
      else t)

  -- What a call does to librnp's state: nothing, or the work of its operation on a new `Rnp` object,
  -- whose rings are then unloaded.
  abbrev pub state_after : MailCall m → H.State → H.State
  state_after (call_part_has_signature part) s = s
  state_after (call_verify_signature part) s =
      if part_has_signature m part
      then (if both_available m part
          then unsaved H (found_of H m part s).1 (found_of H m part s).2
          else s)
      else s
  state_after (call_sign none keys) s = s
  state_after (call_sign (some part) keys) s = signed_state part keys (looked_up H keys s)
  state_after (call_can_decrypt part) s = s
  state_after (call_decrypt none) s = s
  state_after (call_decrypt (some part)) s =
      let w = construct H gpg_compat s in
      let v = decrypted H w.rnp w.ffi (encrypted_of H m part) none in
      if can_decrypt m part
      then (if m.content_available (m.part_at 1 part) then unsaved H v.1 v.2 else s)
      else s

  abbrev pub states_after : List (MailCall m) → H.State → H.State
  states_after [] s = s
  states_after (c ∷ cs) s = states_after cs (state_after c s)

  ended_unsaved :
      (r : Rnp) (s : H.State)
      → HasRings H false r
      → H.ffi_destroy (closed H r r.secret_keyring (closed H r r.public_keyring s)) ≡ unsaved H r s
  ended_unsaved r s h = ap H.ffi_destroy (closed-HasRings H r s h)

  found-HasRings : (part : m.Part) (s : H.State) → HasRings H false (found_of H m part s).1
  found-HasRings part s =
      let w = construct H gpg_compat s in
      MayOpenPublic-HasRings w.rnp _ (verified-MayOpenPublic H w.rnp w.ffi _ _)
        (construct-IsSound H s).rings

  verify_state :
      (part : m.Part) (s : H.State)
      → (verify_signature H m part s).1 ≡ state_after (call_verify_signature part) s
  unfolding verify_signature
  verify_state part s = elim (Bool-cases (part_has_signature m part)) [
    | inr lacks ↦ rw lacks refl
    | inl has ↦ elim (Bool-cases (both_available m part)) [
      | inr absent ↦ rw has (rw absent refl)
      | inl here ↦
          ap (λ o. o.1) (verify_signature_run H m part s has here)
          ∙ (ended_unsaved (found_of H m part s).1 (found_of H m part s).2 (found-HasRings part s)
              ∙ rw has (rw here refl))
    ]
  ]

  looked_up-HasRings : (keys : List String) (s : H.State) → HasRings H false (looked_up H keys s).0
  looked_up-HasRings [] s = (construct-IsSound H s).rings
  looked_up-HasRings (fp ∷ fps) s =
      let w = construct H gpg_compat s in
      secret_opened-HasRings w.rnp w.ffi (construct-IsSound H s).rings

  signed_state_lem :
      (part : m.Part) (keys : List String) (r : Rnp) (t : H.State)
      → HasRings H false r
      → (signed_by_all H m part keys (r, t)).1 ≡ signed_state part keys (r, t)
  signed_state_lem part keys r t h = elim (Bool-cases (all_there H t keys)) [
    | inl there ↦ rw there (ended_unsaved r _ h)
    | inr missing ↦ rw missing (ended_unsaved r t h)
  ]

  sign_state :
      (part : m.Part) (keys : List String) (s : H.State)
      → (sign H m (some part) keys s).1 ≡ state_after (call_sign (some part) keys) s
  sign_state part keys s =
      ap (λ o. o.1) (sign_result H m part keys s)
      ∙ signed_state_lem part keys (looked_up H keys s).0 (looked_up H keys s).1
          (looked_up-HasRings keys s)

  decrypted-HasRings :
      (part : m.Part) (s : H.State)
      → let w = construct H gpg_compat s in
        HasRings H false (decrypted H w.rnp w.ffi (encrypted_of H m part) none).1
  decrypted-HasRings part s =
      let w = construct H gpg_compat s in
      MayOpenSecret-HasRings w.rnp _
        (decrypted-MayOpenSecret H w.rnp w.ffi (encrypted_of H m part) none)
        (construct-IsSound H s).rings

  decrypt_state :
      (part : m.Part) (s : H.State)
      → (decrypt H m (some part) s).1 ≡ state_after (call_decrypt (some part)) s
  unfolding decrypt decrypt_part
  decrypt_state part s = elim (Bool-cases (can_decrypt m part)) [
    | inr cannot ↦ rw cannot refl
    | inl can ↦ elim (Bool-cases (m.content_available (m.part_at 1 part))) [
      | inr absent ↦ rw can (rw absent refl)
      | inl here ↦
          let w = construct H gpg_compat s in
          let v = decrypted H w.rnp w.ffi (encrypted_of H m part) none in
          rw can (
            rw here (
              ap (λ o. o.1) (decrypt_body_run H m part s)
              ∙ ended_unsaved v.1 v.2 (decrypted-HasRings part s)))
    ]
  ]

  run_mail_call_lem : (c : MailCall m) (s : H.State) → run_mail_call H m c s ≡ state_after c s
  unfolding run_mail_call sign decrypt
  run_mail_call_lem (call_part_has_signature part) s = refl
  run_mail_call_lem (call_verify_signature part) s = verify_state part s
  run_mail_call_lem (call_sign none keys) s = refl
  run_mail_call_lem (call_sign (some part) keys) s = sign_state part keys s
  run_mail_call_lem (call_can_decrypt part) s = refl
  run_mail_call_lem (call_decrypt none) s = refl
  run_mail_call_lem (call_decrypt (some part)) s = decrypt_state part s

  -- The mail plugin never saves a key ring: each of its calls, whichever they are and in any order,
  -- leaves librnp's state, which holds the user's files, as it was, or does the work of its one
  -- operation on a new `Rnp` object, unloads the rings that this has loaded and ends librnp. A call
  -- on no part, or on a part without a signature, not encrypted, or whose contents are not there, is
  -- of the first kind where it would verify or decrypt.
  pub run_mail_calls_lem :
      (cs : List (MailCall m)) (s : H.State) → run_mail_calls H m cs s ≡ states_after cs s
  unfolding run_mail_calls
  run_mail_calls_lem [] s = refl
  run_mail_calls_lem (c ∷ cs) s =
      run_mail_calls_lem cs (run_mail_call H m c s) ∙ ap (states_after cs) (run_mail_call_lem c s)
