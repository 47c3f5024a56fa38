-- ===== src/Common/Texts.antt =====
-- Texts that differ, by the Boolean test on them.
use Prim.Native.String.{String}
use mathlib.Core.Path.{◌≡◌, sym, ◌∙◌}
use mathlib.Core.Logic.{◌≢◌, inl, inr}
use mathlib.Core.Bool.{false, true≢false}
use text.Mathlib.Text.{◌==◌ as str_eq}
use text.Mathlib.TextEquality.{eq_iff}
use sailfish_crypto_plugins.Common.Tests.{Bool-cases}

pub str_eq_apart : (a b : String) → str_eq a b ≡ false → a ≢ b
str_eq_apart a b e same = true≢false (sym ((eq_iff a b).1 same) ∙ e)

pub str_eq_differ : (a b : String) → a ≢ b → str_eq a b ≡ false
str_eq_differ a b differ = elim (Bool-cases (str_eq a b)) [
  | inl e ↦ absurd (differ ((eq_iff a b).0 e))
  | inr e ↦ e
]
