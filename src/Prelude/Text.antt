-- ===== src/Prelude/Text.antt =====
-- Text that the program takes apart, as its code points.
pub mod Decimal
pub mod Separator
use Prim.Native.Nat.{ℕ, zero, suc}
use Prim.Native.Char.{code}
use Prim.Native.String.{String}
use mathlib.Core.List.{List, [], ◌∷◌}
use mathlib.Core.Bool.{Bool, true, false, ◌&&◌, ◌||◌}
use mathlib.Core.Option.{Option, none, some}
use arush_adabala_tax_liabil.Prelude.Tests.{if◌then◌else◌}
use arush_adabala_tax_liabil.Prelude.Equality.{◌==◌, nat_eq}

abbrev pub Text : Type 0
Text = List ℕ

abbrev pub codes : String → Text
codes String.[] = []
codes (String.◌∷◌ c s) = code c ∷ codes s

-- `t in q`
abbrev pub starts_with : Text → Text → Bool
starts_with [] q = true
starts_with (c ∷ t) [] = false
starts_with (c ∷ t) (d ∷ q) = c == d && starts_with t q

unfoldable pub occurs : Text → Text → Bool
occurs t [] = starts_with t []
occurs t (c ∷ q) = starts_with t (c ∷ q) || occurs t q

-- `q.removeprefix(t)`, where `t` is a prefix
abbrev pub drop_prefix : Text → Text → Text
drop_prefix [] q = q
drop_prefix (c ∷ t) [] = []
drop_prefix (c ∷ t) (d ∷ q) = drop_prefix t q

-- `q.rsplit(t, 1)[0]`, where `t` occurs in `q`; `none` where it does not
unfoldable pub before_last : Text → Text → Option Text
before_last t [] = none
before_last t (c ∷ q) = elim (before_last t q) [
  | some head ↦ some (c ∷ head)
  | none ↦ if starts_with t (c ∷ q) then some [] else none
]
