-- ===== src/Agent/Budget/Fanout/Overlap.antt =====
-- The schedule that a fan-out of one call each takes when both replies are awaited at once: both
-- legs begin and are let through, then both are billed, then both finish.
use arush_adabala_tax_liabil.Prelude.{
  ℕ, ◌+◌, ◌-◌, ◌≤◌, ◌<◌, ◌≡◌, refl, Option, arith, ok, string_eq, nat_eq, list_eq,
}
use arush_adabala_tax_liabil.Agent.Budget.{
  BudgetGuard, Usage, check_or_raise, usage_cost, record_call,
}
use arush_adabala_tax_liabil.Agent.Budget.Spend.{record_call_lem}
use arush_adabala_tax_liabil.Agent.Budget.Fanout.{
  Phase, running, calling, finished, Leg, begin, check, reply, finish, Fanout, step_retrieval,
  step_api, Reach, here, next, fan_out,
}

abbrev at : Phase → BudgetGuard → Leg
at p g = record { phase = p; spent_before = g.spent }

-- what both legs report at the end
abbrev pub charged : BudgetGuard → Option Usage → Option Usage → ℕ
charged g u v = (record_call (record_call g u) v).spent - g.spent

abbrev pub overlapped : BudgetGuard → Option Usage → Option Usage → Fanout
overlapped g u v = record {
  guard = record_call (record_call g u) v;
  retrieval = at finished g;
  api = at finished g;
  reported = 0 + charged g u v + charged g u v;
}

may_call : (g : BudgetGuard) → g.spent < g.ceiling → check_or_raise g ≡ ok tt
unfolding check_or_raise
may_call g h = ground arith

module _ {limit : ℕ} (g : BudgetGuard) (u v : Option Usage) where
  pub Reach-overlapped :
      g.spent < g.ceiling
      → usage_cost u ≤ limit
      → usage_cost v ≤ limit
      → Reach limit (fan_out g) (overlapped g u v)
  Reach-overlapped below fu fv =
      let g1 = record_call g u in
      let g2 = record_call g1 v in
      next
        (next
          (next
            (next
              (next
                (next
                  (next
                    (next here (
                      step_retrieval {g = g} {l = at running g} {cost = 0}
                        (begin refl refl refl refl)))
                    (step_api {g = g} {l = at running g} {cost = 0} (begin refl refl refl refl)))
                  (step_retrieval {g = g} {l = at calling g} {cost = 0}
                    (check refl (may_call g below) refl refl refl)))
                (step_api {g = g} {l = at calling g} {cost = 0}
                  (check refl (may_call g below) refl refl refl)))
              (step_retrieval {g = g1} {l = at running g} {cost = 0}
                (reply u refl fu refl refl refl)))
            (step_api {g = g2} {l = at running g} {cost = 0} (reply v refl fv refl refl refl)))
          (step_retrieval {g = g2} {l = at finished g} {cost = charged g u v}
            (finish refl refl refl refl)))
        (step_api {g = g2} {l = at finished g} {cost = charged g u v} (finish refl refl refl refl))

pub charged_lem :
    (g : BudgetGuard) (u v : Option Usage) → charged g u v ≡ usage_cost u + usage_cost v
charged_lem g u v = omega (arith, record_call_lem g u, record_call_lem (record_call g u) v)
