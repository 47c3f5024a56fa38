-- ===== src/Qmf/Decryption/Outcome.antt =====
-- qmf/rnp/plugin.cpp: how `QMailCryptoRNP::decrypt` ends, on every path.
use sailfish_crypto_plugins.Common.{
  ℕ, zero, suc, ◌<◌, ltb, ◌≡◌, ◌⊎◌, arith, refl, ap, ◌∙◌, true, false, Option, none, some, [], ◌++◌,
  Bool-cases, is_empty, inl, inr,
}
use sailfish_crypto_plugins.Host.{Host, Bytes}
use sailfish_crypto_plugins.Machine.{gpg_compat}
use sailfish_crypto_plugins.Rnp.Ring.{construct}
use sailfish_crypto_plugins.Rnp.Ring.Laws.{closed, destruct_lem}
use sailfish_crypto_plugins.Rnp.Decrypt.Operation.{decrypted as plain_of, decrypt-Ends}
use sailfish_crypto_plugins.Qmf.Mail.{
  Mail, DecryptionResult, decrypted, unsupported_protocol, unknown_crypt_error,
}
use sailfish_crypto_plugins.Qmf.Mail.Laws.{MailLaws}
use sailfish_crypto_plugins.Qmf.Mail.Parts.{parts, parts_set, parts_clear}
use sailfish_crypto_plugins.Qmf.Signing.{append_parts}
use sailfish_crypto_plugins.Qmf.Signing.Copies.{parts-append_parts, type-append_parts}
use sailfish_crypto_plugins.Qmf.Decryption.{
  can_decrypt, take_over, decrypted_part, decrypt_body, decrypt_part, decrypt,
}

-- What librnp makes of a message, in a plugin that is new, and the files that it leaves.
abbrev pub opened_in : (H : Host) → H.State → Bytes → Bytes × H.State
opened_in H s message =
    let w = construct H gpg_compat s in
    let (v, r, t) = plain_of H w.rnp w.ffi message none in
    (v.0, H.ffi_destroy (closed H r r.secret_keyring (closed H r r.public_keyring t)))

module _ (H : Host) (m : Mail) where
  -- The body that is decrypted: the second part's.
  abbrev pub encrypted_of : m.Part → Bytes
  encrypted_of part = m.decoded (m.body (m.part_at 1 part))

  pub decrypt_body_run :
      (part : m.Part) (s : H.State)
      → let (bytes, s') = opened_in H s (encrypted_of part) in
        decrypt_body H m part s ≡ (decrypted_part m part bytes, s')
  unfolding decrypt_body
  decrypt_body_run part s =
      let w = construct H gpg_compat s in
      let (xs, leak, n, e) = decrypt-Ends (encrypted_of part) none w in
      let (v, r, t) = plain_of H w.rnp w.ffi (encrypted_of part) none in
      rw e (
        ap (λ s'. (decrypted_part m part v.0, s'))
          (destruct_lem (record w { rnp = r; ffi = t; next = n; live = xs ++ w.live })))

count_cases : (n : ℕ) → ((0 < n) × (ltb 0 n ≡ true)) ⊎ ((n ≡ 0) × (ltb 0 n ≡ false))
count_cases zero = inr (refl, refl)
count_cases (suc n) = inl (omega arith, ground arith)

module _ (m : Mail) (l : MailLaws m) where
  -- A part that holds what a mail held: its parts and its type, or its body.
  pub data Holds (mail : m.Part) (p : m.Part) : Type 0 where
    holds_parts :
        0 < m.part_count mail
        → m.multipart_type p ≡ m.multipart_type mail
        → parts m p ≡ parts m mail
        → Holds mail p
    holds_body : m.part_count mail ≡ 0 → m.body p ≡ m.body mail → Holds mail p

  -- The parts of the mail are appended to a part that has none left.
  typed_of : m.Part → m.Part → m.Part
  typed_of mail part =
      m.set_multipart_type (m.multipart_type mail) (m.parameters mail) (m.clear_parts part)

  no_parts : (mail part : m.Part) → parts m (typed_of mail part) ≡ []
  unfolding typed_of
  no_parts mail part =
      parts_set m l (m.multipart_type mail) (m.parameters mail) (m.clear_parts part)
      ∙ parts_clear m l part

  taken_parts :
      (mail part : m.Part)
      → parts m (append_parts m (m.part_count mail) 0 mail (typed_of mail part)) ≡ parts m mail
  taken_parts mail part =
      parts-append_parts m l (m.part_count mail) 0 mail (typed_of mail part)
      ∙ (rw (no_parts mail part) refl)

  taken_type :
      (mail part : m.Part)
      → m.multipart_type (append_parts m (m.part_count mail) 0 mail (typed_of mail part))
        ≡ m.multipart_type mail
  unfolding typed_of
  taken_type mail part =
      type-append_parts m l (m.part_count mail) 0 mail (typed_of mail part)
      ∙ l.type_set (m.multipart_type mail) (m.parameters mail) (m.clear_parts part)

  take_over-Holds : (mail part : m.Part) → Holds mail (take_over m mail part)
  unfolding take_over typed_of
  take_over-Holds mail part = elim (count_cases (m.part_count mail)) [
    | inl (some_parts, e) ↦
        rw e (holds_parts some_parts (taken_type mail part) (taken_parts mail part))
    | inr (no_part, e) ↦ rw e (holds_body no_part (l.body_set (m.body mail) (m.clear_parts part)))
  ]

  module _ (H : Host) where
    abbrev opened_of : m.Part → H.State → Bytes × H.State
    opened_of part s = opened_in H s (m.decoded (m.body (m.part_at 1 part)))

    -- How `decrypt` ends for a part.
    pub data Decrypts (part : m.Part) (s : H.State)
        (out : (DecryptionResult × Option m.Part) × H.State) : Type 0 where
      unsupported :
          can_decrypt m part ≡ false
          → out ≡ ((m.decryption_of unsupported_protocol, some part), s)
          → Decrypts part s out
      unavailable :
          can_decrypt m part ≡ true
          → m.content_available (m.part_at 1 part) ≡ false
          → out ≡ ((m.new_decryption, some part), s)
          → Decrypts part s out
      not_opened :
          can_decrypt m part ≡ true
          → m.content_available (m.part_at 1 part) ≡ true
          → is_empty (opened_of part s).0 ≡ true
          → out ≡ (
            (record { engine = "librnp.so"; status = unknown_crypt_error }, some part),
            (opened_of part s).1,
          )
          → Decrypts part s out
      opened :
          (p : m.Part)
          → can_decrypt m part ≡ true
          → m.content_available (m.part_at 1 part) ≡ true
          → is_empty (opened_of part s).0 ≡ false
          → Holds (m.from_rfc2822 (opened_of part s).0) p
          → out
            ≡ ((record { engine = "librnp.so"; status = decrypted }, some p), (opened_of part s).1)
          → Decrypts part s out

    body_ends :
        (part : m.Part) (s : H.State)
        → can_decrypt m part ≡ true
        → m.content_available (m.part_at 1 part) ≡ true
        → let (r, s') = decrypt_body H m part s in Decrypts part s ((r.0, some r.1), s')
    unfolding decrypted_part
    body_ends part s can here =
        rw (decrypt_body_run H m part s) (elim (Bool-cases (is_empty (opened_of part s).0)) [
          | inl e ↦ not_opened can here e (rw e refl)
          | inr e ↦
              opened _ can here e (take_over-Holds (m.from_rfc2822 (opened_of part s).0) part)
                (rw e refl)
        ])

    -- `decrypt` changes a part only if librnp has opened its second part's body: the part then holds
    -- the type and the parts, in their order, of the mail that was inside, or its body if it has no
    -- parts. A part that is not encrypted in the way that the plugin supports is reported so, and one
    -- whose data is not there gives a new result; neither has librnp read the user's files.
    pub decrypt-Decrypts :
        (part : m.Part) (s : H.State) → Decrypts part s (decrypt H m (some part) s)
    unfolding decrypt decrypt_part
    decrypt-Decrypts part s = elim (Bool-cases (can_decrypt m part)) [
      | inr cannot ↦ unsupported cannot (rw cannot refl)
      | inl can ↦ elim (Bool-cases (m.content_available (m.part_at 1 part))) [
        | inr absent ↦ unavailable can absent (rw can (rw absent refl))
        | inl here ↦ rw can (rw here (body_ends part s can here))
      ]
    ]
