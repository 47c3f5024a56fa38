-- ===== src/Qmf/Signing/Copies.antt =====
-- qmf/rnp/plugin.cpp: that the loops over the parts copy them all, and what `QMailCryptoRNP::sign` signs.
use sailfish_crypto_plugins.Common.{
  ℕ, zero, suc, ◌+◌, ◌≡◌, ◌≢◌, ◌⊎◌, refl, sym, ◌∙◌, false, [], ◌++◌, append_assoc, append-nil, inl,
  inr,
}
use sailfish_crypto_plugins.Qmf.Mail.{
  Mail, MultipartType, multipart_none, multipart_signed, multipart_other,
}
use sailfish_crypto_plugins.Qmf.Mail.Laws.{MailLaws}
use sailfish_crypto_plugins.Qmf.Mail.Parts.{parts, parts_from, parts_append, parts_set, parts_new}
use sailfish_crypto_plugins.Qmf.Signing.{is_none, append_parts, part_has_signature, part_to_sign}

module _ (m : Mail) (l : MailLaws m) where
  -- The loop appends the parts in their order.
  pub parts-append_parts :
      (n i : ℕ) (source target : m.Part)
      → parts m (append_parts m n i source target) ≡ parts m target ++ parts_from m source i n
  unfolding append_parts
  parts-append_parts zero i source target = sym (append-nil (parts m target))
  parts-append_parts (suc n) i source target =
      parts-append_parts n (i + 1) source (m.append_part (m.part_at i source) target)
      ∙ (rw (parts_append m l (m.part_at i source) target) (append_assoc (parts m target) _ _))

  pub type-append_parts :
      (n i : ℕ) (source target : m.Part)
      → m.multipart_type (append_parts m n i source target) ≡ m.multipart_type target
  unfolding append_parts
  type-append_parts zero i source target = refl
  type-append_parts (suc n) i source target =
      type-append_parts n (i + 1) source (m.append_part (m.part_at i source) target)
      ∙ l.type_append (m.part_at i source) target

  -- What is signed of a part that has no signature yet: its body, or its type and its parts.
  pub data Copied (part : m.Part) : m.Part → Type 0 where
    body_copied :
        {p : m.Part}
        → m.multipart_type part ≡ multipart_none
        → m.body p ≡ m.body part
        → Copied part p
    parts_copied :
        {p : m.Part}
        → m.multipart_type part ≢ multipart_none
        → m.multipart_type p ≡ m.multipart_type part
        → parts m p ≡ parts m part
        → Copied part p

  type_typed :
      (part : m.Part)
      → m.multipart_type (
          append_parts m
            (m.part_count part)
            0
            part
            (m.set_multipart_type (m.multipart_type part) [] m.new_part))
        ≡ m.multipart_type part
  type_typed part =
      type-append_parts (m.part_count part) 0 part _
      ∙ l.type_set (m.multipart_type part) [] m.new_part

  parts_typed :
      (part : m.Part)
      → parts m (
          append_parts m
            (m.part_count part)
            0
            part
            (m.set_multipart_type (m.multipart_type part) [] m.new_part))
        ≡ parts m part
  parts_typed part =
      parts-append_parts (m.part_count part) 0 part _
      ∙ (rw (parts_set m l (m.multipart_type part) [] m.new_part) (rw (parts_new m l) refl))

  none_cases :
      (t : MultipartType) → (t ≡ multipart_none) ⊎ ((t ≢ multipart_none) × (is_none t ≡ false))
  none_cases multipart_none = inl refl
  none_cases multipart_signed = inr ((λ e. cc), refl)
  none_cases (multipart_other n) = inr ((λ e. cc), refl)

  -- Of a part that has no signature yet, `sign` signs a copy: a part with the same body if it is not
  -- multipart, and else one of the same type that holds the same parts in the same order.
  pub part_to_sign-Copied :
      (part : m.Part) → part_has_signature m part ≡ false → Copied part (part_to_sign m part)
  unfolding part_to_sign
  part_to_sign-Copied part unsigned = elim (none_cases (m.multipart_type part)) [
    | inl e ↦ rw unsigned (rw e (body_copied e (l.body_set (m.body part) _)))
    | inr (multi, e) ↦ rw unsigned (rw e (parts_copied multi (type_typed part) (parts_typed part)))
  ]
