-- ===== src/Mcp/Money.antt =====
-- numeric.py, and the scale of an amount in tools/orders.py. A `Decimal` is a sign, a coefficient and
-- a power of ten, as the standard library has it in its default context of 28 digits. The parsers of
-- numbers are parameters: `none` stands for a text that is no finite number.
pub mod Scale
pub mod Units
pub mod Print
mod Tests
use arush_adabala_tax_liabil.Prelude.{
  ℕ, zero, suc, ◌+◌, ◌-◌, ◌*◌, ◌/◌, ◌%◌, ◌≤◌, ◌<◌, min, String, ◌≡◌, refl, sym, ap, ◌∙◌, ◌≢◌, ◌↔◌,
  ◌⊎◌, inl, inr, Bool, true, false, not, ◌&&◌, ◌||◌, Option, none, some, List, [], ◌∷◌, ◌++◌, map,
  arith, ltb, leb, if◌then◌else◌, Bool-cases, Option-cases, leb→le, lt→ltb, Eq, ◌==◌, ==_refl,
  length, take, get_elem?, length-append, length-take, length-map, any, All, All-append, All-take,
  contains, Exc, Result, ok, raised, bind, bind-eq-ok, Result-cases, ok_injective, ok_or,
  budget_exceeded, value_error, key_error, type_error, runtime_error, timeout_error,
  validation_error, dependency_unavailable, string_eq, nat_eq, list_eq, graph_recursion,
  http_timeout, http_error, cancelled, other,
}
use Prim.Native.Nat.{◌^◌}
use arush_adabala_tax_liabil.Prelude.Int.{ℤ, pos, negsuc}
use arush_adabala_tax_liabil.Prelude.Text.{Text}
use arush_adabala_tax_liabil.Prelude.Text.Decimal.{decimal}
use arush_adabala_tax_liabil.Prelude.Dict.{get_or}
use arush_adabala_tax_liabil.Mcp.Json.{Json, null, flag, whole, real, str, arr, obj}

pub record Decimal : Type 0 where
  pub negative : Bool
  pub coefficient : ℕ
  pub exponent : ℤ

-- the precision of the default context
abbrev pub precision : ℕ
precision = 28

abbrev pub money_scale : ℕ
money_scale = 2

-- The coefficient that `quantize` gives at two places, half away from zero; the second argument is
-- the number of places in excess of one.
unfoldable pub shrink : ℕ → ℕ → ℕ
shrink c zero = c * 10
shrink c (suc j) = (2 * c + 10 ^ j) / (2 * 10 ^ j)

unfoldable pub quantized : ℕ → ℤ → ℕ
quantized c (pos e) = c * 10 ^ (e + money_scale)
quantized c (negsuc k) = shrink c k

-- `value != value.quantize(...)`, on the coefficients at the finer of the two scales
unfoldable pub shrink_exact : ℕ → ℕ → Bool
shrink_exact c zero = true
shrink_exact c (suc j) = c == shrink c (suc j) * 10 ^ j

unfoldable pub scale_exact : ℕ → ℤ → Bool
scale_exact c (pos e) = true
scale_exact c (negsuc k) = shrink_exact c k

-- `quantize` raises `InvalidOperation` where its result would have more digits than the context.
unfoldable pub fits : ℕ → Bool
fits c = leb (length (decimal c)) precision

unfoldable pub enforce_money_scale : Decimal → Result Decimal
unfolding fits quantized scale_exact shrink shrink_exact
enforce_money_scale value =
    if fits (quantized value.coefficient value.exponent)
    then (if scale_exact value.coefficient value.exponent then ok value else raised value_error)
    else raised other

-- An amount as it reaches the field: the types that a caller can hand over.
pub data Raw (F : Type 0) : Type 0 where
  binary : F → Raw F
  exact : Decimal → Raw F
  integer : ℤ → Raw F
  written : Text → Raw F
  other_value : Raw F

unfoldable pub is_inexact_binary : {F : Type 0} → Raw F → Bool
is_inexact_binary (binary x) = true
is_inexact_binary (exact x) = false
is_inexact_binary (integer x) = false
is_inexact_binary (written x) = false
is_inexact_binary other_value = false

unfoldable pub reject_inexact_binary : {F : Type 0} → Raw F → Result (Raw F)
unfolding is_inexact_binary
reject_inexact_binary value = if is_inexact_binary value then raised value_error else ok value

-- `int(d)` for a coefficient and exponent: the fraction is cut off.
unfoldable pub truncate : ℕ → ℤ → ℕ
truncate c (pos e) = c * 10 ^ e
truncate c (negsuc k) = c / 10 ^ suc k

unfoldable pub signed : Bool → ℕ → ℤ
signed false n = pos n
signed true zero = pos zero
signed true (suc n) = negsuc n

unfoldable pub int_of : Decimal → ℤ
unfolding truncate signed
int_of d = signed d.negative (truncate d.coefficient d.exponent)

-- a count in a reply; the numbers are read by `Decimal(value)`
module _ {F : Type 0} (of_float : F → Option Decimal) (of_text : Text → Option Decimal) where
  unfoldable pub int_or_zero : Option Decimal → ℤ
  int_or_zero none = pos 0
  int_or_zero (some d) = int_of d

  unfoldable pub as_token_count : Json F → ℤ
  unfolding int_or_zero
  as_token_count null = pos 0
  as_token_count (flag b) = pos 0
  as_token_count (whole n) = n
  as_token_count (real x) = int_or_zero (of_float x)
  as_token_count (str t) = int_or_zero (of_text t)
  as_token_count (arr l) = pos 0
  as_token_count (obj d) = pos 0

-- A score; `float` of a whole number may overflow, and of a text that is no number it raises.
unfoldable pub to_score : {F : Type 0} → (ℤ → Result F) → (Text → Option F) → F → Json F → Result F
to_score of_whole read default null = ok default
to_score of_whole read default (flag b) = ok default
to_score of_whole read default (whole n) = of_whole n
to_score of_whole read default (real x) = ok x
to_score of_whole read default (str t) = ok (get_or (read t) default)
to_score of_whole read default (arr l) = ok default
to_score of_whole read default (obj d) = ok default

abbrev pub minor_units_per_major : ℕ
minor_units_per_major = 100

-- half to even, at `m > 0`
unfoldable pub divide_half_even : ℕ → ℕ → ℕ
divide_half_even c m =
    let q = c / m in
    let r = c % m in
    if ltb (2 * r) m then q else if ltb m (2 * r) then q + 1 else if q % 2 == 0 then q else q + 1

-- the number of digits by which a coefficient exceeds the context
unfoldable pub excess : ℕ → ℕ
excess c = length (decimal c) - precision

-- A product in the context: a coefficient of too many digits is rounded.
unfoldable pub rounded : ℕ → ℕ
unfolding excess divide_half_even
rounded c = divide_half_even c (10 ^ excess c) * 10 ^ excess c

unfoldable pub as_minor_units : (Text → Option Decimal) → Option Text → ℤ
unfolding signed rounded truncate
as_minor_units of_text none = pos 0
as_minor_units of_text (some []) = pos 0
as_minor_units of_text (some (c ∷ s)) = elim (of_text (c ∷ s)) [
  | none ↦ pos 0
  | some d ↦
      signed d.negative (truncate (rounded (d.coefficient * minor_units_per_major)) d.exponent)
]
