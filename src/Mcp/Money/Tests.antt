-- ===== src/Mcp/Money/Tests.antt =====
-- Amounts of two places and of three, and a cost header below one cent.
use arush_adabala_tax_liabil.Prelude.{
  ℕ, ◌+◌, ◌*◌, ◌≤◌, ◌<◌, ◌≡◌, refl, ◌↔◌, false, Option, some, arith, length, ok, raised,
  value_error, string_eq, nat_eq, list_eq,
}
use arush_adabala_tax_liabil.Prelude.Int.{pos, negsuc}
use arush_adabala_tax_liabil.Prelude.Text.{Text, codes}
use arush_adabala_tax_liabil.Prelude.Text.Decimal.{decimal}
use arush_adabala_tax_liabil.Mcp.Money.{
  Decimal, precision, enforce_money_scale, minor_units_per_major, as_minor_units,
}
use arush_adabala_tax_liabil.Mcp.Money.Scale.{IsCents, enforce_money_scale_iff}
use arush_adabala_tax_liabil.Mcp.Money.Units.{as_minor_units-floor}
use arush_adabala_tax_liabil.Mcp.Money.Print.{show, drop}

abbrev ten : Decimal
ten = record { negative = false; coefficient = 1000; exponent = negsuc 1 }

abbrev finer : Decimal
finer = record { negative = false; coefficient = 10001; exponent = negsuc 2 }

ten_printed : show ten ≡ codes "10.00"
unfolding show decimal drop
ten_printed = refl

finer_refused : enforce_money_scale finer ≡ raised value_error
unfolding enforce_money_scale decimal
finer_refused = refl

enforce_money_scale_iff_example :
    (enforce_money_scale ten ≡ ok ten)
    ↔ ((ten ≡ ten) × ((n : ℕ) × IsCents n 1000 (negsuc 1) × (length (decimal n) ≤ precision)))
enforce_money_scale_iff_example = enforce_money_scale_iff ten ten

abbrev header : Text
header = codes "0.0042"

abbrev reading : Text → Option Decimal
reading t = some (record { negative = false; coefficient = 42; exponent = negsuc 3 })

few : length (decimal (42 * minor_units_per_major)) ≤ precision
unfolding decimal
few = omega arith

as_minor_units-floor_example :
    (cents : ℕ) × (as_minor_units reading (some header) ≡ pos cents)
    × (cents * 10000 ≤ 4200)
    × (4200 < (cents + 1) * 10000)
as_minor_units-floor_example = as_minor_units-floor reading b'0' (codes ".0042") 42 3 refl few
