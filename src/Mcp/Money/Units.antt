-- ===== src/Mcp/Money/Units.antt =====
-- numeric.py: what `as_minor_units` makes of a cost header.
use arush_adabala_tax_liabil.Prelude.{
  ℕ, suc, ◌+◌, ◌-◌, ◌*◌, ◌/◌, ◌≤◌, ◌<◌, ◌≡◌, refl, false, Option, some, ◌∷◌, arith, length,
  string_eq, nat_eq, list_eq,
}
use Prim.Native.Nat.{◌^◌}
use native.Mathlib.Nat.{div-mul-le_self, lt-div-mul-add, div-one}
use arush_adabala_tax_liabil.Prelude.Int.{pos, negsuc}
use arush_adabala_tax_liabil.Prelude.Text.{Text}
use arush_adabala_tax_liabil.Prelude.Text.Decimal.{decimal}
use arush_adabala_tax_liabil.Mcp.Money.{
  Decimal, precision, truncate, signed, divide_half_even, excess, rounded, minor_units_per_major,
  as_minor_units,
}
use arush_adabala_tax_liabil.Mcp.Money.Scale.{pow_pos}

rounded_within : (p : ℕ) → length (decimal p) ≤ precision → rounded p ≡ p
unfolding rounded excess divide_half_even
rounded_within p h =
    let e : length (decimal p) - precision ≡ 0 = omega arith in
    let half : divide_half_even p 1 ≡ p = rw (div-one p) (ground arith) in
    rw e (rw half (omega arith))

below_next : (a q m : ℕ) → a < q * m + m → a < (q + 1) * m
below_next a q m h = grind arith

-- A cost header that is a decimal from zero, with places behind the point and few enough digits, is
-- recorded as the greatest number of cents that is not above it.
pub as_minor_units-floor :
    (of_text : Text → Option Decimal) (c : ℕ) (s : Text) (n k : ℕ)
    → of_text (c ∷ s) ≡ some (record { negative = false; coefficient = n; exponent = negsuc k })
    → length (decimal (n * minor_units_per_major)) ≤ precision
    → (cents : ℕ) × (as_minor_units of_text (some (c ∷ s)) ≡ pos cents)
      × (cents * 10 ^ suc k ≤ n * 100)
      × (n * 100 < (cents + 1) * 10 ^ suc k)
unfolding as_minor_units truncate signed
as_minor_units-floor of_text c s n k h few = (
  n * 100 / 10 ^ suc k,
  rw (h, as_minor_units) (rw (rounded_within (n * 100) few) refl),
  div-mul-le_self (n * 100) (10 ^ suc k),
  let above : n * 100 < n * 100 / 10 ^ suc k * 10 ^ suc k + 10 ^ suc k =
        lt-div-mul-add {a = n * 100} {b = 10 ^ suc k} (pow_pos (suc k)) in
      below_next (n * 100) (n * 100 / 10 ^ suc k) (10 ^ suc k) above,
)
