-- ===== src/Agent/Budget/Fanout/Reported.antt =====
-- What the summed `cost_usd_e5` slot says, against what the shared guard was charged.
use arush_adabala_tax_liabil.Prelude.{
  ℕ, ◌+◌, ◌-◌, ◌*◌, ◌≤◌, ◌<◌, ◌≡◌, ◌≢◌, Option, arith, string_eq, nat_eq, list_eq,
}
use arush_adabala_tax_liabil.Agent.Budget.{BudgetGuard, Usage, usage_cost, record_call}
use arush_adabala_tax_liabil.Agent.Budget.Spend.{record_call_lem}
use arush_adabala_tax_liabil.Agent.Budget.Fanout.Overlap.{overlapped, Reach-overlapped, charged_lem}
use arush_adabala_tax_liabil.Agent.Budget.Fanout.{
  Phase, idle, running, calling, finished, Leg, LegStep, begin, check, reply, finish, Fanout,
  step_retrieval, step_api, Reach, here, next, fan_out,
}

-- what a leg would contribute if it ended now
abbrev open_cost : Phase → ℕ → ℕ → ℕ
open_cost running spent before = spent - before
open_cost calling spent before = spent - before
open_cost _ spent before = 0

abbrev leg_open : BudgetGuard → Leg → ℕ
leg_open g l = open_cost l.phase g.spent l.spent_before

-- the tally never falls below what a leg noted at its start
abbrev Noted : BudgetGuard → Leg → Type 0
Noted g l = l.spent_before ≤ g.spent

-- A step turns what a leg has open into what it has reported, and opens what it is charged.
leg-open :
    {limit : ℕ} {g g' : BudgetGuard} {l l' : Leg} {cost : ℕ}
    → LegStep limit g l g' l' cost
    → Noted g l
    → (leg_open g' l' + cost + g.spent ≡ leg_open g l + g'.spent) × Noted g' l'
leg-open (begin i e f c) h = ground arith
leg-open (check i allowed e f c) h = ground arith
leg-open {g} (reply u i fits e f c) h = ground (arith, record_call_lem g u)
leg-open (finish i e f c) h = ground arith

record Covered (start : ℕ) (s : Fanout) : Type 0 where
  total : s.guard.spent ≤ start + s.reported + leg_open s.guard s.retrieval + leg_open s.guard s.api
  noted_retrieval : Noted s.guard s.retrieval
  noted_api : Noted s.guard s.api

record Alone (start : ℕ) (s : Fanout) : Type 0 where
  exact : s.guard.spent ≡ start + s.reported + leg_open s.guard s.retrieval
  noted : Noted s.guard s.retrieval

-- no step leads back to the phase in which a leg has not begun
begun :
    {limit : ℕ} {g g' : BudgetGuard} {l l' : Leg} {cost : ℕ}
    → LegStep limit g l g' l' cost
    → l'.phase ≢ idle
begun (begin i e f c) = ground arith
begun (check i allowed e f c) = ground arith
begun (reply u i fits e f c) = ground arith
begun (finish i e f c) = ground arith

Reach-Alone :
    {limit start : ℕ} {s t : Fanout}
    → Alone start s
    → Reach limit s t
    → t.api.phase ≡ idle
    → Alone start t
Reach-Alone h here q = h
Reach-Alone h (next r (step_retrieval st)) q =
    let a = Reach-Alone h r q in
    let (moved, noted) = leg-open st a.noted in
    record { exact = omega (arith, a.exact); noted = noted }
Reach-Alone h (next r (step_api st)) q = absurd (begun st q)

-- A request that runs the retrieval leg alone reports exactly what its guard was charged.
pub reported_alone_exact :
    (limit : ℕ) (g : BudgetGuard) (t : Fanout)
    → Reach limit (fan_out g) t
    → t.retrieval.phase ≡ finished
    → t.api.phase ≡ idle
    → g.spent + t.reported ≡ t.guard.spent
reported_alone_exact limit g t r a b =
    let c : Alone g.spent t = Reach-Alone (omega arith) r b in ground (arith, c.exact)

-- For any two completions that are allowed there is a schedule, with one call of each leg, in which the
-- cost that the legs report is twice what their guard was charged.
pub overlap_reports_double :
    (limit : ℕ) (g : BudgetGuard) (u v : Option Usage)
    → g.spent < g.ceiling
    → usage_cost u ≤ limit
    → usage_cost v ≤ limit
    → (t : Fanout) × Reach limit (fan_out g) t
      × (t.guard.spent ≡ g.spent + usage_cost u + usage_cost v)
      × (t.reported ≡ 2 * (usage_cost u + usage_cost v))
overlap_reports_double limit g u v below fu fv = (
  overlapped g u v,
  Reach-overlapped g u v below fu fv,
  omega (arith, record_call_lem g u, record_call_lem (record_call g u) v),
  omega (arith, charged_lem g u v),
)
