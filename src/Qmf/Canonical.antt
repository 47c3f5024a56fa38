-- ===== src/Qmf/Canonical.antt =====
-- qmf/rnp/plugin.cpp, `canonicalizeStr`: the line ends of a text that is signed or verified.
pub mod Laws
use sailfish_crypto_plugins.Common.{
  ℕ, zero, suc, ◌≡◌, refl, ap, Bool, true, false, List, [], ◌∷◌, ◌++◌, ◌==◌, if◌then◌else◌, arith,
  ==_iff,
}
use sailfish_crypto_plugins.Host.{Bytes}

abbrev pub lf : ℕ
lf = 10

abbrev pub cr : ℕ
cr = 13

-- The loop, which ends at the first NUL; a QByteArray has one behind its last byte.
unfoldable pub canonicalize : Bytes → Bytes
canonicalize [] = []
canonicalize (c ∷ rest) =
    let out = canonicalize rest in
    if c == 0 then [] else if c == cr then out else if c == lf then cr ∷ lf ∷ out else c ∷ out

-- A text whose line ends are CR LF: no CR and no LF stands elsewhere.
pub data IsCanonical : Bytes → Type 0 where
  empty : IsCanonical []
  line_end : {rest : Bytes} → IsCanonical rest → IsCanonical (cr ∷ lf ∷ rest)
  plain :
      {c : ℕ} {rest : Bytes}
      → (c == 0) ≡ false
      → (c == cr) ≡ false
      → (c == lf) ≡ false
      → IsCanonical rest
      → IsCanonical (c ∷ rest)

-- The text of the lines: up to the first NUL, with no CR.
pub lines_of : Bytes → Bytes
lines_of [] = []
lines_of (c ∷ rest) =
    let out = lines_of rest in if c == 0 then [] else if c == cr then out else c ∷ out
