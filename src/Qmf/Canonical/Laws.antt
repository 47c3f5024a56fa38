-- ===== src/Qmf/Canonical/Laws.antt =====
-- qmf/rnp/plugin.cpp: what `canonicalizeStr` makes of a text.
use sailfish_crypto_plugins.Common.{◌≡◌, refl, ap, [], ◌∷◌, ◌==◌, arith, Bool-cases, inl, inr}
use sailfish_crypto_plugins.Host.{Bytes}
use sailfish_crypto_plugins.Qmf.Canonical.{
  canonicalize, IsCanonical, empty, line_end, plain, lines_of, lf, cr,
}

-- Whatever the text, its canonical form has CR LF line ends and no other CR, LF or NUL.
pub canonicalize-IsCanonical : (text : Bytes) → IsCanonical (canonicalize text)
unfolding canonicalize
canonicalize-IsCanonical [] = empty
canonicalize-IsCanonical (c ∷ rest) = elim (Bool-cases (c == 0)) [
  | inl e ↦ rw e empty
  | inr e ↦ elim (Bool-cases (c == cr)) [
    | inl f ↦ rw e (rw f (canonicalize-IsCanonical rest))
    | inr f ↦ elim (Bool-cases (c == lf)) [
      | inl g ↦ rw e (rw f (rw g (line_end (canonicalize-IsCanonical rest))))
      | inr g ↦ rw e (rw f (rw g (plain e f g (canonicalize-IsCanonical rest))))
    ]
  ]
]

-- A canonical text is left as it is.
pub canonicalize_of_canonical : {text : Bytes} → IsCanonical text → canonicalize text ≡ text
unfolding canonicalize
canonicalize_of_canonical empty = refl
canonicalize_of_canonical (line_end rest) = rw (canonicalize_of_canonical rest)
canonicalize_of_canonical (plain {c = c} e f g rest) =
    rw e (rw f (rw g (ap (◌∷◌ c) (canonicalize_of_canonical rest))))

-- To canonicalise twice is to do so once.
pub canonicalize_idem : (text : Bytes) → canonicalize (canonicalize text) ≡ canonicalize text
canonicalize_idem text = canonicalize_of_canonical (canonicalize-IsCanonical text)

-- The lines themselves are kept.
pub lines_of-canonicalize : (text : Bytes) → lines_of (canonicalize text) ≡ lines_of text
unfolding canonicalize lines_of
lines_of-canonicalize [] = refl
lines_of-canonicalize (c ∷ rest) = ground (arith, lines_of-canonicalize rest)

canonicalize-lines_of : (text : Bytes) → canonicalize (lines_of text) ≡ canonicalize text
unfolding canonicalize lines_of
canonicalize-lines_of [] = refl
canonicalize-lines_of (c ∷ rest) = ground (arith, canonicalize-lines_of rest)

-- Two texts have one canonical form exactly when they have the same lines, whatever carriage
-- returns they hold.
pub canonicalize_iff :
    (a b : Bytes)
    → ((canonicalize a ≡ canonicalize b) → (lines_of a ≡ lines_of b))
      × ((lines_of a ≡ lines_of b) → (canonicalize a ≡ canonicalize b))
canonicalize_iff a b = (
  λ e. cc (lines_of-canonicalize a, lines_of-canonicalize b, ap lines_of e),
  λ e. cc (canonicalize-lines_of a, canonicalize-lines_of b, ap canonicalize e),
)
