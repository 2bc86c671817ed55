-- ===== src/Agent/Budget/Fanout.antt =====
-- The request's one guard under the parallel fan-out: `retrieval_agent` and `api_agent` share it,
-- and either may run while the other awaits a reply. Each leg notes `spent_before`, checks the
-- guard before a call, records the call's usage when the reply comes, and at its end contributes
-- `guard.spent_usd_e5 - spent_before` to the summed `cost_usd_e5` slot.
pub mod Overlap
pub mod Bounds
pub mod Reported
use arush_adabala_tax_liabil.Prelude.{
  ℕ, zero, suc, ◌+◌, ◌-◌, ◌*◌, ◌/◌, ◌%◌, ◌≤◌, ◌<◌, min, String, ◌≡◌, refl, sym, ap, ◌∙◌, ◌≢◌, ◌↔◌,
  ◌⊎◌, inl, inr, Bool, true, false, not, ◌&&◌, ◌||◌, Option, none, some, List, [], ◌∷◌, ◌++◌, map,
  arith, ltb, leb, if◌then◌else◌, Bool-cases, Option-cases, leb→le, lt→ltb, Eq, ◌==◌, ==_refl,
  length, take, get_elem?, length-append, length-take, length-map, any, All, All-append, All-take,
  contains, Exc, Result, ok, raised, bind, bind-eq-ok, Result-cases, ok_injective, ok_or,
  budget_exceeded, value_error, key_error, type_error, runtime_error, timeout_error,
  validation_error, dependency_unavailable, string_eq, nat_eq, list_eq, graph_recursion,
  http_timeout, http_error, cancelled, other,
}
use arush_adabala_tax_liabil.Agent.Budget.{
  BudgetGuard, Usage, check_or_raise, usage_cost, record_call,
}

pub data Phase : Type 0 where
  idle running calling finished : Phase

-- A leg: where it is, and the tally when it began.
pub record Leg : Type 0 where
  pub phase : Phase
  pub spent_before : ℕ

-- What one leg may do to the shared guard, and what it contributes by it. No single completion
-- costs more than `limit`.
pub data LegStep (limit : ℕ) (g : BudgetGuard) (l : Leg) (g' : BudgetGuard) (l' : Leg) (cost : ℕ)
    : Type 0 where
  begin :
      l.phase ≡ idle
      → g' ≡ g
      → l' ≡ record { phase = running; spent_before = g.spent }
      → cost ≡ 0
      → LegStep limit g l g' l' cost
  check :
      l.phase ≡ running
      → check_or_raise g ≡ ok tt
      → g' ≡ g
      → l' ≡ record l { phase = calling }
      → cost ≡ 0
      → LegStep limit g l g' l' cost
  reply :
      (u : Option Usage)
      → l.phase ≡ calling
      → usage_cost u ≤ limit
      → g' ≡ record_call g u
      → l' ≡ record l { phase = running }
      → cost ≡ 0
      → LegStep limit g l g' l' cost
  finish :
      l.phase ≡ running
      → g' ≡ g
      → l' ≡ record l { phase = finished }
      → cost ≡ g.spent - l.spent_before
      → LegStep limit g l g' l' cost

pub record Fanout : Type 0 where
  pub guard : BudgetGuard
  pub retrieval : Leg
  pub api : Leg
  pub reported : ℕ

-- The event loop runs one leg at a time, up to its next `await`.
pub data Step (limit : ℕ) (s : Fanout) : Fanout → Type 0 where
  step_retrieval :
      {g : BudgetGuard} {l : Leg} {cost : ℕ}
      → LegStep limit s.guard s.retrieval g l cost
      → Step limit s
          (record { guard = g; retrieval = l; api = s.api; reported = s.reported + cost })
  step_api :
      {g : BudgetGuard} {l : Leg} {cost : ℕ}
      → LegStep limit s.guard s.api g l cost
      → Step limit s
          (record { guard = g; retrieval = s.retrieval; api = l; reported = s.reported + cost })

pub data Reach (limit : ℕ) (s : Fanout) : Fanout → Type 0 where
  here : Reach limit s s
  next : {t u : Fanout} → Reach limit s t → Step limit t u → Reach limit s u

abbrev pub idle_leg : Leg
idle_leg = record { phase = idle; spent_before = 0 }

abbrev pub fan_out : BudgetGuard → Fanout
fan_out g = record { guard = g; retrieval = idle_leg; api = idle_leg; reported = 0 }
