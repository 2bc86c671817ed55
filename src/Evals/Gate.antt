-- ===== src/Evals/Gate.antt =====
-- scripts/eval.py: the verdict on a summary and the exit code of the gate. The three thresholds are
-- hundredths; ratios are compared without rounding. `is_nan` and `below_floor` are the tests of a
-- float that the verdict makes, the second against 0.85.
pub mod Verdict
mod Tests
use arush_adabala_tax_liabil.Prelude.{
  ℕ, zero, suc, ◌+◌, ◌-◌, ◌*◌, ◌/◌, ◌%◌, ◌≤◌, ◌<◌, min, String, ◌≡◌, refl, sym, ap, ◌∙◌, ◌≢◌, ◌↔◌,
  ◌⊎◌, inl, inr, Bool, true, false, not, ◌&&◌, ◌||◌, Option, none, some, List, [], ◌∷◌, ◌++◌, map,
  arith, ltb, leb, if◌then◌else◌, Bool-cases, Option-cases, leb→le, lt→ltb, Eq, ◌==◌, ==_refl,
  length, take, get_elem?, length-append, length-take, length-map, any, All, All-append, All-take,
  contains, Exc, Result, ok, raised, bind, bind-eq-ok, Result-cases, ok_injective, ok_or,
  budget_exceeded, value_error, key_error, type_error, runtime_error, timeout_error,
  validation_error, dependency_unavailable, string_eq, nat_eq, list_eq, graph_recursion,
  http_timeout, http_error, cancelled, other,
}
use arush_adabala_tax_liabil.Prelude.Int.{ℤ}
use arush_adabala_tax_liabil.Evals.Run.{Ratio, Summary, World, Row, run_eval}
use arush_adabala_tax_liabil.Evals.Suite.{Scenario}

abbrev pub trajectory_floor : ℕ
trajectory_floor = 70

abbrev pub cost_regression_limit : ℕ
cost_regression_limit = 15

-- `ratio < n / 100` and `n / 100 < ratio`
unfoldable pub below : Ratio → ℕ → Bool
below r n = ltb (100 * r.up) (n * r.over + 100 * r.down)

unfoldable pub above : Ratio → ℕ → Bool
above r n = ltb (n * r.over + 100 * r.down) (100 * r.up)

pub data GateFailure : Type 0 where
  trajectory_low not_measured unfaithful cost_regressed : GateFailure

abbrev pub fails_if : Bool → GateFailure → List GateFailure
fails_if true f = f ∷ []
fails_if false f = []

module _ {F : Type 0} (is_nan below_floor : F → Bool) where
  unfoldable pub unmeasured : Bool → List GateFailure
  unmeasured allow_unmeasured = fails_if (not allow_unmeasured) not_measured

  unfoldable pub faith_failures : Option F → Bool → List GateFailure
  faith_failures none allow_unmeasured = unmeasured allow_unmeasured
  faith_failures (some faith) allow_unmeasured =
      if is_nan faith then unmeasured allow_unmeasured else fails_if (below_floor faith) unfaithful

  unfoldable pub failures_of : Summary F → Bool → List GateFailure
  failures_of summary allow_unmeasured =
      fails_if (below summary.trajectory_match trajectory_floor) trajectory_low
      ++ (faith_failures summary.faithfulness allow_unmeasured
          ++ fails_if (above summary.cost_regression cost_regression_limit) cost_regressed)

  unfoldable pub passed : List GateFailure → Bool
  passed [] = true
  passed (f ∷ fs) = false

  unfoldable pub verdict : Summary F → Bool → Bool × List GateFailure
  verdict summary allow_unmeasured =
      (passed (failures_of summary allow_unmeasured), failures_of summary allow_unmeasured)

  unfoldable pub report : Summary F → Bool → ℕ
  report summary allow_unmeasured = if (verdict summary allow_unmeasured).0 then 0 else 1

  -- `_run` on the suite, past the building of the graph: `score` judges the rows of an online run.
  unfoldable pub exit_code : Bool → Bool → Bool → Summary F → ℕ
  exit_code offline gate allow_unmeasured summary =
      if gate then report summary (allow_unmeasured || offline) else 0

  unfoldable pub run :
      World F → (List Row → Option F) → ℤ → List Scenario → Bool → Bool → Bool → Result ℕ
  run world score baseline suite offline gate allow_unmeasured =
      bind (run_eval world (λ rows. if offline then none else score rows) baseline suite)
        λ summary. ok (exit_code offline gate allow_unmeasured summary)
