-- ===== src/Agent/Budget/Tests.antt =====
-- Runs of the guard of budgets.py: one leg alone, and two legs that overlap.
use arush_adabala_tax_liabil.Prelude.{
  ◌+◌, ◌*◌, ◌<◌, ◌≡◌, refl, Option, none, some, arith, ok, string_eq, nat_eq, list_eq,
}
use arush_adabala_tax_liabil.Agent.Budget.{
  BudgetGuard, Usage, call_cost, usage_cost, record_usage, record_call, check_or_raise,
}
use arush_adabala_tax_liabil.Agent.Budget.Fanout.{
  Fanout, Reach, fan_out, Phase, idle, finished, Leg,
}
use arush_adabala_tax_liabil.Agent.Budget.Fanout.Overlap.{overlapped, Reach-overlapped}
use arush_adabala_tax_liabil.Agent.Budget.Fanout.Bounds.{spent-lt-two_calls, overrun_by_two}
use arush_adabala_tax_liabil.Agent.Budget.Fanout.Reported.{overlap_reports_double}

-- one unit below the ceiling
abbrev guard : BudgetGuard
guard = record { ceiling = 1000; spent = 999 }

abbrev billed : Option Usage
billed = some (record { input_tokens = some 1000; output_tokens = none })

billed_cost : usage_cost billed ≡ 300
unfolding usage_cost call_cost
billed_cost = refl

abbrev both_called : Fanout
both_called = overlapped guard billed billed

reached : Reach 300 (fan_out guard) both_called
reached =
    Reach-overlapped guard billed billed (omega arith) (omega (arith, billed_cost))
      (omega (arith, billed_cost))

spent-lt-two_calls_example : both_called.guard.spent < 1000 + 2 * 300
spent-lt-two_calls_example = spent-lt-two_calls 300 guard both_called (omega arith) reached

overrun_by_two_example :
    (t : Fanout) × Reach (usage_cost billed) (fan_out guard) t
    × (t.guard.spent + 1 ≡ 1000 + 2 * usage_cost billed)
overrun_by_two_example = overrun_by_two guard billed refl

overlap_reports_double_example :
    (t : Fanout) × Reach 300 (fan_out guard) t
    × (t.guard.spent ≡ 999 + usage_cost billed + usage_cost billed)
    × (t.reported ≡ 2 * (usage_cost billed + usage_cost billed))
overlap_reports_double_example =
    overlap_reports_double 300 guard billed billed (omega arith) (omega (arith, billed_cost))
      (omega (arith, billed_cost))

abbrev charged_guard : BudgetGuard
charged_guard = record { ceiling = 1000; spent = 1299 }

abbrev leg_at : Phase → Leg
leg_at p = record { phase = p; spent_before = 999 }

charged : record_call guard billed ≡ charged_guard
unfolding record_call record_usage call_cost
charged = refl

allowed : check_or_raise guard ≡ ok tt
unfolding check_or_raise
allowed = refl

abbrev alone : Fanout
alone = record {
  guard = charged_guard;
  retrieval = leg_at finished;
  api = record { phase = idle; spent_before = 0 };
  reported = 300;
}

abbrev small : Usage
small = record { input_tokens = some 7; output_tokens = some 3 }
