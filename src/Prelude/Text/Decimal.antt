-- ===== src/Prelude/Text/Decimal.antt =====
-- The decimal print of a number, as `str` and f-strings write it.
use Prim.Native.Nat.{ℕ, zero, suc, ◌+◌, ◌-◌, ◌*◌, ◌/◌, ◌%◌, ◌≤◌, ◌<◌}
use mathlib.Core.Path.{◌≡◌, refl, ap, sym, ◌∙◌}
use mathlib.Core.List.{List, [], ◌∷◌, ◌++◌}
use native.Mathlib.Omega.{arith}
use arush_adabala_tax_liabil.Prelude.Tests.{ltb, if◌then◌else◌, Bool-cases}
use arush_adabala_tax_liabil.Prelude.Lists.{All, All-append}
use mathlib.Core.Logic.{◌≢◌, inl, inr}

spell : ℕ → ℕ → List ℕ
spell zero n = []
spell (suc f) n =
    let more = spell f (n / 10) in if ltb n 10 then (48 + n) ∷ [] else more ++ (48 + n % 10) ∷ []

unfoldable pub decimal : ℕ → List ℕ
unfolding spell
decimal n = spell (suc n) n

-- the number that digits spell behind `n`
read_from : ℕ → List ℕ → ℕ
read_from n [] = n
read_from n (c ∷ s) = read_from (n * 10 + (c - 48)) s

read-append : (n : ℕ) (s t : List ℕ) → read_from n (s ++ t) ≡ read_from (read_from n s) t
unfolding read_from
read-append n [] t = refl
read-append n (c ∷ s) t = read-append (n * 10 + (c - 48)) s t

read-spell : (f n : ℕ) → n < f → read_from 0 (spell f n) ≡ n
unfolding spell read_from
read-spell zero n h = absurd (omega arith)
read-spell (suc f) n h = elim (Bool-cases (ltb n 10)) [
  | inl small ↦ rw small (omega arith)
  | inr large ↦
      rw (large, read-append 0 (spell f (n / 10)) ((48 + n % 10) ∷ []))
        (rw (read-spell f (n / 10) (ground arith)) (omega arith))
]

abbrev pub IsDigit : ℕ → Type 0
IsDigit c = (48 ≤ c) × (c ≤ 57)

spell-IsDigit : (f n : ℕ) → All IsDigit (spell f n)
unfolding spell
spell-IsDigit zero n = tt
spell-IsDigit (suc f) n = elim (Bool-cases (ltb n 10)) [
  | inl small ↦ rw small (ground arith)
  | inr large ↦
      rw large (All-append IsDigit (spell f (n / 10)) _ (spell-IsDigit f (n / 10)) (omega arith))
]

pub decimal-IsDigit : (n : ℕ) → All IsDigit (decimal n)
unfolding decimal
decimal-IsDigit n = spell-IsDigit (suc n) n

-- Two numbers with one print are one number.
pub decimal_injective : (m n : ℕ) → decimal m ≡ decimal n → m ≡ n
unfolding decimal
decimal_injective m n h =
    sym (read-spell (suc m) m (omega arith))
    ∙ ap (read_from 0) h
    ∙ read-spell (suc n) n (omega arith)

-- the number that a text of digits spells
pub int : List ℕ → ℕ
int s = read_from 0 s

pub int-decimal : (n : ℕ) → int (decimal n) ≡ n
unfolding int decimal
int-decimal n = read-spell (suc n) n (omega arith)

append-ne-nil : (s : List ℕ) (c : ℕ) → s ++ c ∷ [] ≢ []
append-ne-nil [] c h = cc
append-ne-nil (d ∷ s) c h = cc

pub decimal-ne-nil : (n : ℕ) → decimal n ≢ []
unfolding decimal spell
decimal-ne-nil n = elim (Bool-cases (ltb n 10)) [
  | inl small ↦ rw small (λ h. cc)
  | inr large ↦ rw large (append-ne-nil (spell n (n / 10)) (48 + n % 10))
]
