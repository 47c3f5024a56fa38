-- ===== src/Qmf/Mail/Parts.antt =====
-- qmf/rnp/plugin.cpp: a mail part's parts as a list, and what the framework's changes do to it.
use sailfish_crypto_plugins.Common.{
  ℕ, zero, suc, ◌+◌, String, ◌≡◌, refl, ap, ◌∙◌, List, [], ◌∷◌, ◌++◌, arith,
}
use sailfish_crypto_plugins.Qmf.Mail.{Mail, MultipartType}
use sailfish_crypto_plugins.Qmf.Mail.Laws.{MailLaws}

-- The `n` parts from the `i`-th on.
abbrev pub parts_from : (m : Mail) → m.Part → ℕ → ℕ → List m.Part
parts_from m p i zero = []
parts_from m p i (suc n) = m.part_at i p ∷ parts_from m p (i + 1) n

abbrev pub parts : (m : Mail) → m.Part → List m.Part
parts m p = parts_from m p 0 (m.part_count p)

module _ (m : Mail) (l : MailLaws m) where
  parts_from_append :
      (n i : ℕ) (x p : m.Part)
      → i + n ≡ m.part_count p
      → parts_from m (m.append_part x p) i (suc n) ≡ parts_from m p i n ++ x ∷ []
  parts_from_append zero i x p e =
      ap (λ y. y ∷ []) (ap (λ j. m.part_at j (m.append_part x p)) (omega arith) ∙ l.at_append x p)
  parts_from_append (suc n) i x p e =
      rw (l.at_append_below i x p (omega arith))
        (ap (λ ys. m.part_at i p ∷ ys) (parts_from_append n (i + 1) x p (omega arith)))

  pub parts_append : (x p : m.Part) → parts m (m.append_part x p) ≡ parts m p ++ x ∷ []
  parts_append x p =
      rw (l.count_append x p) (parts_from_append (m.part_count p) 0 x p (omega arith))

  parts_from_set :
      (n i : ℕ) (t : MultipartType) (ps : List (String × String)) (p : m.Part)
      → parts_from m (m.set_multipart_type t ps p) i n ≡ parts_from m p i n
  parts_from_set zero i t ps p = refl
  parts_from_set (suc n) i t ps p =
      rw (l.at_set i t ps p) (ap (λ ys. m.part_at i p ∷ ys) (parts_from_set n (i + 1) t ps p))

  pub parts_set :
      (t : MultipartType) (ps : List (String × String)) (p : m.Part)
      → parts m (m.set_multipart_type t ps p) ≡ parts m p
  parts_set t ps p = rw (l.count_set t ps p) (parts_from_set (m.part_count p) 0 t ps p)

  pub parts_clear : (p : m.Part) → parts m (m.clear_parts p) ≡ []
  parts_clear p = rw (l.count_clear p) refl

  pub parts_new : parts m m.new_part ≡ []
  parts_new = rw l.new_count refl
