-- ===== src/Agent/Budget/Fanout/Bounds.antt =====
-- How far two legs that share a guard can pass its ceiling.
use arush_adabala_tax_liabil.Prelude.{
  ℕ, ◌+◌, ◌*◌, ◌≤◌, ◌<◌, ◌≡◌, refl, ◌∙◌, Option, arith, string_eq, nat_eq, list_eq,
}
use arush_adabala_tax_liabil.Agent.Budget.{
  BudgetGuard, Usage, check_or_raise, usage_cost, record_call,
}
use arush_adabala_tax_liabil.Agent.Budget.Spend.{record_call_lem}
use arush_adabala_tax_liabil.Agent.Budget.Fanout.Overlap.{overlapped, Reach-overlapped}
use arush_adabala_tax_liabil.Agent.Budget.Fanout.{
  Phase, calling, Leg, LegStep, begin, check, reply, finish, Fanout, Step, step_retrieval, step_api,
  Reach, here, next, fan_out,
}

-- calls of a leg that were let through and have not been billed
abbrev in_flight : Phase → ℕ
in_flight calling = 1
in_flight _ = 0

abbrev Bounded : ℕ → BudgetGuard → ℕ → Type 0
Bounded limit g flights = g.spent + flights * limit < g.ceiling + 2 * limit

-- One leg's step, while the other has at most one call in flight.
leg-Bounded :
    {limit : ℕ} {g g' : BudgetGuard} {l l' : Leg} {cost : ℕ} (rest : ℕ)
    → rest ≤ 1
    → LegStep limit g l g' l' cost
    → Bounded limit g (in_flight l.phase + rest)
    → Bounded limit g' (in_flight l'.phase + rest)
unfolding check_or_raise
leg-Bounded rest r (begin i e f c) h = ground arith
leg-Bounded rest r (check i allowed e f c) h = ground arith
leg-Bounded {g} rest r (reply u i fits e f c) h = ground (arith, record_call_lem g u)
leg-Bounded rest r (finish i e f c) h = ground arith

in_flight-le : (p : Phase) → in_flight p ≤ 1
in_flight-le calling = omega arith
in_flight-le _ = omega arith

abbrev Fanout-Bounded : ℕ → Fanout → Type 0
Fanout-Bounded limit s = Bounded limit s.guard (in_flight s.retrieval.phase + in_flight s.api.phase)

Step-Bounded :
    {limit : ℕ} {s t : Fanout} → Step limit s t → Fanout-Bounded limit s → Fanout-Bounded limit t
Step-Bounded {s} (step_retrieval st) h = leg-Bounded _ (in_flight-le s.api.phase) st h
Step-Bounded {s} (step_api {l} st) h =
    omega (arith, leg-Bounded (in_flight s.retrieval.phase) (in_flight-le _) st (omega arith))

Reach-Bounded :
    {limit : ℕ} {s t : Fanout} → Fanout-Bounded limit s → Reach limit s t → Fanout-Bounded limit t
Reach-Bounded h here = h
Reach-Bounded h (next r st) = Step-Bounded st (Reach-Bounded h r)

ceiling-record : (g : BudgetGuard) (u : Option Usage) → (record_call g u).ceiling ≡ g.ceiling
ceiling-record g u = (record_call_lem g u).1

leg-ceiling :
    {limit : ℕ} {g g' : BudgetGuard} {l l' : Leg} {cost : ℕ}
    → LegStep limit g l g' l' cost
    → g'.ceiling ≡ g.ceiling
leg-ceiling (begin i e f c) = ground arith
leg-ceiling (check i allowed e f c) = ground arith
leg-ceiling {g} (reply u i fits e f c) = ground (arith, record_call_lem g u)
leg-ceiling (finish i e f c) = ground arith

Reach-ceiling : {limit : ℕ} {s t : Fanout} → Reach limit s t → t.guard.ceiling ≡ s.guard.ceiling
Reach-ceiling here = refl
Reach-ceiling (next r (step_retrieval st)) = leg-ceiling st ∙ Reach-ceiling r
Reach-ceiling (next r (step_api st)) = leg-ceiling st ∙ Reach-ceiling r

-- However the two legs interleave on the shared guard, if no single completion costs more than
-- `limit` then the tally of a request that began below its ceiling stays below the ceiling plus
-- two completions.
pub spent-lt-two_calls :
    (limit : ℕ) (g : BudgetGuard) (t : Fanout)
    → g.spent < g.ceiling
    → Reach limit (fan_out g) t
    → t.guard.spent < g.ceiling + 2 * limit
spent-lt-two_calls limit g t below r =
    let b : Fanout-Bounded limit t = Reach-Bounded (omega arith) r in omega (arith, Reach-ceiling r)

-- The bound is met: from a guard just below its ceiling two overlapping calls of the dearest price
-- are both let through, and take the tally to within one unit of the ceiling plus two completions.
pub overrun_by_two :
    (g : BudgetGuard) (u : Option Usage)
    → g.spent + 1 ≡ g.ceiling
    → (t : Fanout) × Reach (usage_cost u) (fan_out g) t
      × (t.guard.spent + 1 ≡ g.ceiling + 2 * usage_cost u)
overrun_by_two g u last = (
  overlapped g u u,
  Reach-overlapped g u u (omega arith) (omega arith) (omega arith),
  omega (arith, record_call_lem g u, record_call_lem (record_call g u) u),
)
