-- ===== src/Common/Maps.antt =====
-- A QMap with texts as keys, as an association list in which the last entry made stands first.
use Prim.Native.String.{String}
use mathlib.Core.Option.{Option, none, some}
use mathlib.Core.List.{List, [], ◌∷◌}
use text.Mathlib.Text.{◌==◌ as str_eq}
use sailfish_crypto_plugins.Common.Tests.{if◌then◌else◌}

module _ {ℓ} {V : Type ℓ} where
  unfoldable pub lookup : String → List (String × V) → Option V
  lookup field [] = none
  lookup field (entry ∷ map) = if str_eq entry.0 field then some entry.1 else lookup field map

  erase : String → List (String × V) → List (String × V)
  erase field [] = []
  erase field (entry ∷ map) =
      let kept = erase field map in if str_eq entry.0 field then kept else entry ∷ kept

  -- QMap::insert
  unfoldable pub insert : String → V → List (String × V) → List (String × V)
  unfolding erase
  insert field value map = (field, value) ∷ erase field map
