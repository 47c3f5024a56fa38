-- ===== src/Qmf/Signing/Enveloping.antt =====
-- qmf/rnp/plugin.cpp: what `QMailCryptoRNP::sign` makes of a part, with the laws of the mail framework.
use sailfish_crypto_plugins.Common.{
  ℕ, ◌≡◌, ◌≢◌, ◌⊎◌, refl, ap, ◌∙◌, Bool, true, ◌&&◌, ◌==◌, Bool-cases, inl, inr, if◌then◌else◌,
  arith,
}
use sailfish_crypto_plugins.Host.{Bytes}
use sailfish_crypto_plugins.Qmf.Mail.{
  Mail, MultipartType, multipart_none, multipart_signed, multipart_other,
}
use sailfish_crypto_plugins.Qmf.Mail.Laws.{MailLaws, IsWhole}
use sailfish_crypto_plugins.Qmf.Signing.{
  is_none, is_signed, part_has_signature, two_parts, signature_part, signature_parameters,
  with_signature,
}

signature_type_count :
    (t : MultipartType) (n : ℕ) (b : Bool) → ((is_signed t && n == 2) && b) ≡ true → n ≡ 2
signature_type_count t n b h = ground arith

module _ (m : Mail) (l : MailLaws m) where
  -- What the new parts are appended to holds no part.
  emptied_count :
      (t : MultipartType) (part : m.Part)
      → (t ≢ multipart_none) ⊎ (m.part_count part ≡ 0)
      → m.part_count (if is_none t then part else m.clear_parts part) ≡ 0
  emptied_count multipart_none part (inl multi) = absurd (multi refl)
  emptied_count multipart_none part (inr no_part) = no_part
  emptied_count multipart_signed part whole = l.count_clear part
  emptied_count (multipart_other n) part whole = l.count_clear part

  appended_count :
      (x y p : m.Part) → m.part_count p ≡ 0 → m.part_count (m.append_part y (m.append_part x p)) ≡ 2
  appended_count x y p e = omega (arith, l.count_append y (m.append_part x p), l.count_append x p)

  appended_first :
      (x y p : m.Part) → m.part_count p ≡ 0 → m.part_at 0 (m.append_part y (m.append_part x p)) ≡ x
  appended_first x y p e =
      l.at_append_below 0 y (m.append_part x p) (omega (arith, l.count_append x p))
      ∙ (rw e at (l.at_append x p))

  two_parts_count :
      (signed part : m.Part) → IsWhole m part → m.part_count (two_parts m signed part) ≡ 2
  unfolding two_parts part_has_signature
  two_parts_count signed part whole = elim (Bool-cases (part_has_signature m part)) [
    | inl e ↦ rw e (signature_type_count _ _ _ e)
    | inr e ↦
        rw e (appended_count signed m.new_part _ (emptied_count (m.multipart_type part) part whole))
  ]

  pub two_parts_first :
      (signed part : m.Part)
      → IsWhole m part
      → m.part_at 0 (two_parts m signed part)
        ≡ (if part_has_signature m part then m.part_at 0 part else signed)
  unfolding two_parts
  two_parts_first signed part whole = elim (Bool-cases (part_has_signature m part)) [
    | inl e ↦ rw e refl
    | inr e ↦
        rw e (appended_first signed m.new_part _ (emptied_count (m.multipart_type part) part whole))
  ]

  has_signature_of :
      (p : m.Part)
      → m.multipart_type p ≡ multipart_signed
      → m.part_count p ≡ 2
      → m.matches "application" "pgp-signature" (m.part_at 1 p) ≡ true
      → part_has_signature m p ≡ true
  unfolding part_has_signature
  has_signature_of p e f g = rw e (rw f (rw g))

  module _ (signed : m.Part) (bytes : Bytes) (part : m.Part) (whole : IsWhole m part) where
    abbrev typed : m.Part
    typed = m.set_multipart_type multipart_signed signature_parameters (two_parts m signed part)

    typed_count : m.part_count typed ≡ 2
    typed_count =
        l.count_set multipart_signed signature_parameters _ ∙ two_parts_count signed part whole

    second :
        m.part_at 1 (with_signature m signed bytes part)
        ≡ signature_part m bytes (m.part_at 1 typed)
    unfolding with_signature
    second = l.at_replace 1 _ typed (omega (arith, typed_count))

    -- A part that `sign` has dealt with has a signature: it is multipart/signed, holds two parts, and
    -- the second has the signature's content type.
    pub with_signature-part_has_signature :
        part_has_signature m (with_signature m signed bytes part) ≡ true
    unfolding with_signature part_has_signature signature_part
    with_signature-part_has_signature =
        has_signature_of (with_signature m signed bytes part)
          (l.type_replace 1 _ typed ∙ l.type_set multipart_signed signature_parameters _)
          (l.count_replace 1 _ typed ∙ typed_count)
          (ap (m.matches "application" "pgp-signature") second
            ∙ (l.matches_described "application" "pgp-signature" _ _ ∙ l.matches_signature bytes _))

    pub with_signature_decoded :
        m.decoded (m.body (m.part_at 1 (with_signature m signed bytes part))) ≡ bytes
    unfolding signature_part
    with_signature_decoded = rw second (rw l.body_described (rw l.body_set (l.decoded_data bytes)))

    pub with_signature_first :
        m.part_at 0 (with_signature m signed bytes part)
        ≡ (if part_has_signature m part then m.part_at 0 part else signed)
    unfolding with_signature
    with_signature_first =
        l.at_replace_other 0 1 _ typed (ground arith)
        ∙ (l.at_set 0 multipart_signed signature_parameters _ ∙ two_parts_first signed part whole)
