-- ===== src/Agent/Budget.antt =====
-- budgets.py of taxcalc-agent-svc: the per-request cost ceiling, in whole 1e-5 USD. Token counts
-- are numbers from zero, as the API bills them. The proofs are in the modules below.
pub mod Spend
pub mod Fanout
mod Tests
use arush_adabala_tax_liabil.Prelude.{
  ℕ, zero, suc, ◌+◌, ◌-◌, ◌*◌, ◌/◌, ◌%◌, ◌≤◌, ◌<◌, min, String, ◌≡◌, refl, sym, ap, ◌∙◌, ◌≢◌, ◌↔◌,
  ◌⊎◌, inl, inr, Bool, true, false, not, ◌&&◌, ◌||◌, Option, none, some, List, [], ◌∷◌, ◌++◌, map,
  arith, ltb, leb, if◌then◌else◌, Bool-cases, Option-cases, leb→le, lt→ltb, Eq, ◌==◌, ==_refl,
  length, take, get_elem?, length-append, length-take, length-map, any, All, All-append, All-take,
  contains, Exc, Result, ok, raised, bind, bind-eq-ok, Result-cases, ok_injective, ok_or,
  budget_exceeded, value_error, key_error, type_error, runtime_error, timeout_error,
  validation_error, dependency_unavailable, string_eq, nat_eq, list_eq, graph_recursion,
  http_timeout, http_error, cancelled, other,
}
use arush_adabala_tax_liabil.Prelude.Dict.{get_or}
use arush_adabala_tax_liabil.Prelude.Int.{ℤ, pos, negsuc}

abbrev pub price_in_e5_per_ktok : ℕ
price_in_e5_per_ktok = 300

abbrev pub price_out_e5_per_ktok : ℕ
price_out_e5_per_ktok = 1500

pub record BudgetGuard : Type 0 where
  pub ceiling : ℕ
  pub spent : ℕ

-- The constructor refuses a ceiling that is not positive.
unfoldable pub new_guard : ℤ → Result BudgetGuard
new_guard (pos zero) = raised value_error
new_guard (pos (suc n)) = ok (record { ceiling = suc n; spent = 0 })
new_guard (negsuc n) = raised value_error

unfoldable pub check_or_raise : BudgetGuard → Result (Unit {0})
check_or_raise g =
    if leb g.ceiling g.spent then raised (budget_exceeded g.spent g.ceiling) else ok tt

-- the division comes last, so one remainder is dropped per call
unfoldable pub call_cost : ℕ → ℕ → ℕ
call_cost input_tokens output_tokens =
    (input_tokens * price_in_e5_per_ktok + output_tokens * price_out_e5_per_ktok) / 1000

unfoldable pub record_usage : BudgetGuard → ℕ → ℕ → BudgetGuard
record_usage g input_tokens output_tokens = record g {
  spent = g.spent + call_cost input_tokens output_tokens;
}

-- A `usage` block; a field that is missing or `None` counts as zero.
pub record Usage : Type 0 where
  pub input_tokens : Option ℕ
  pub output_tokens : Option ℕ

unfoldable pub usage_cost : Option Usage → ℕ
usage_cost none = 0
usage_cost (some u) = call_cost (get_or u.input_tokens 0) (get_or u.output_tokens 0)

-- A response without a `usage` block adds nothing.
unfoldable pub record_call : BudgetGuard → Option Usage → BudgetGuard
record_call g none = g
record_call g (some u) = record_usage g (get_or u.input_tokens 0) (get_or u.output_tokens 0)
