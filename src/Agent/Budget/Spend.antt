-- ===== src/Agent/Budget/Spend.antt =====
-- The tally of budgets.py along sequences of calls.
use arush_adabala_tax_liabil.Prelude.{
  ℕ, ◌+◌, ◌*◌, ◌≤◌, ◌<◌, ◌≡◌, Option, none, some, List, [], ◌∷◌, arith, length, ok, string_eq,
  nat_eq, list_eq,
}
use arush_adabala_tax_liabil.Prelude.Dict.{get_or}
use arush_adabala_tax_liabil.Agent.Budget.{
  price_in_e5_per_ktok, price_out_e5_per_ktok, call_cost, BudgetGuard, Usage, check_or_raise,
  usage_cost, record_usage, record_call,
}

-- `record_call` adds the cost of its response and leaves the ceiling.
pub record_call_lem :
    (g : BudgetGuard) (u : Option Usage)
    → (record_call g u).spent ≡ g.spent + usage_cost u × ((record_call g u).ceiling ≡ g.ceiling)
unfolding record_call usage_cost record_usage
record_call_lem g none = omega arith
record_call_lem g (some u) = omega arith

-- The tally is within one call of the ceiling, `cost` being a bound on a single call.
abbrev pub Within : ℕ → BudgetGuard → Type 0
Within cost g = g.spent < g.ceiling + cost

-- A call that the guard lets through keeps the tally within one call of the ceiling.
pub checked_call-Within :
    (cost : ℕ) (g : BudgetGuard) (u : Option Usage)
    → check_or_raise g ≡ ok tt
    → usage_cost u ≤ cost
    → Within cost (record_call g u)
unfolding check_or_raise
checked_call-Within cost g u h fits = ground (arith, record_call_lem g u)

sum_costs : List Usage → ℕ
sum_costs [] = 0
sum_costs (u ∷ us) = usage_cost (some u) + sum_costs us

pub tokens_in : List Usage → ℕ
tokens_in [] = 0
tokens_in (u ∷ us) = get_or u.input_tokens 0 + tokens_in us

pub tokens_out : List Usage → ℕ
tokens_out [] = 0
tokens_out (u ∷ us) = get_or u.output_tokens 0 + tokens_out us

abbrev pub exact_millis : List Usage → ℕ
exact_millis us = tokens_in us * price_in_e5_per_ktok + tokens_out us * price_out_e5_per_ktok

pub record_all : BudgetGuard → List Usage → BudgetGuard
record_all g [] = g
record_all g (u ∷ us) = record_all (record_call g (some u)) us

truncation :
    (us : List Usage)
    → (1000 * sum_costs us ≤ exact_millis us)
      × (exact_millis us ≤ 1000 * sum_costs us + 999 * length us)
unfolding sum_costs tokens_in tokens_out usage_cost call_cost
truncation [] = omega arith
truncation (u ∷ us) = let (low, high) = truncation us in (omega arith, omega arith)

spent-record_all :
    (g : BudgetGuard) (us : List Usage) → (record_all g us).spent ≡ g.spent + sum_costs us
unfolding record_all sum_costs
spent-record_all g [] = omega arith
spent-record_all g (u ∷ us) =
    omega (arith, spent-record_all (record_call g (some u)) us, record_call_lem g (some u))

-- Over any number of calls the tally, in thousandths of a unit, never exceeds the exact price of
-- the tokens, and falls short of it by less than one unit per call.
pub tally_truncation :
    (g : BudgetGuard) (us : List Usage)
    → (1000 * (record_all g us).spent ≤ 1000 * g.spent + exact_millis us)
      × (1000 * g.spent + exact_millis us ≤ 1000 * (record_all g us).spent + 999 * length us)
tally_truncation g us =
    let (low, high) = truncation us in
    let total = spent-record_all g us in (omega arith, omega arith)
