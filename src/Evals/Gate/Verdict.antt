-- ===== src/Evals/Gate/Verdict.antt =====
-- scripts/eval.py over evals/trajectory.py: what a gate that passes says of the runs.
use arush_adabala_tax_liabil.Prelude.{
  ℕ, zero, suc, ◌*◌, ◌≤◌, ◌<◌, ◌≡◌, refl, sym, ap, ◌∙◌, inl, inr, Bool, true, false, Option, none,
  some, List, [], ◌∷◌, ◌++◌, arith, if◌then◌else◌, Bool-cases, length, ok, bind-eq-ok, ok_injective,
  string_eq, nat_eq, list_eq,
}
use mathlib.Core.Path.{subst}
use arush_adabala_tax_liabil.Prelude.Int.{ℤ, pos, negsuc}
use arush_adabala_tax_liabil.Evals.Suite.{Scenario}
use arush_adabala_tax_liabil.Evals.Run.{
  Row, World, Summary, share, mean_cost, cost_regression, run_eval,
}
use arush_adabala_tax_liabil.Evals.Run.Rows.{Rows, count, costs, is_match, run_eval-Summarises}
use arush_adabala_tax_liabil.Evals.Gate.{
  trajectory_floor, cost_regression_limit, below, above, GateFailure, trajectory_low, not_measured,
  unfaithful, cost_regressed, fails_if, unmeasured, faith_failures, failures_of, passed, verdict,
  report, exit_code, run,
}

-- The mean cost is at most 1.15 times a baseline above zero.
abbrev pub Affordable : ℕ → ℤ → Type 0
Affordable cost (pos (suc n)) = 100 * cost ≤ 115 * suc n
Affordable cost (pos zero) = Unit
Affordable cost (negsuc n) = Unit

-- No failure: each of the three gates had none.
append-empty : (fs gs : List GateFailure) → fs ++ gs ≡ [] → (fs ≡ []) × (gs ≡ [])
append-empty [] gs h = (refl, h)
append-empty (f ∷ fs) gs h = cc

fails_if-empty : (b : Bool) (f : GateFailure) → fails_if b f ≡ [] → b ≡ false
fails_if-empty false f h = refl
fails_if-empty true f h = cc

module _ {F : Type 0} (is_nan below_floor : F → Bool) where
  -- A score that is a number and not below the floor.
  abbrev pub Faithful : Option F → Type 0
  Faithful none = ⊥
  Faithful (some x) = (is_nan x ≡ false) × (below_floor x ≡ false)

  faith-passes : (f : Option F) → faith_failures is_nan below_floor f false ≡ [] → Faithful f
  unfolding faith_failures unmeasured
  faith-passes none h = cc
  faith-passes (some x) h = elim (Bool-cases (is_nan x)) [
    | inl nan ↦ cc (
        ap (λ b. if b then not_measured ∷ [] else fails_if (below_floor x) unfaithful) (sym nan)
        ∙ h)
    | inr number ↦ (
      number,
      fails_if-empty (below_floor x) unfaithful (
          ap (λ b. if b then not_measured ∷ [] else fails_if (below_floor x) unfaithful)
            (sym number)
          ∙ h),
    )
  ]

  regression-passes :
      (cost : ℕ) (baseline : ℤ)
      → above (cost_regression cost baseline) cost_regression_limit ≡ false
      → Affordable cost baseline
  unfolding above cost_regression
  regression-passes cost (pos zero) h = tt
  regression-passes cost (negsuc n) h = tt
  regression-passes cost (pos (suc n)) h = ground arith

  share-passes :
      (m size : ℕ)
      → below (share m size) trajectory_floor ≡ false
      → (0 < size) × (70 * size ≤ 100 * m)
  unfolding below share
  share-passes m zero h = cc
  share-passes m (suc size) h = ground arith

  passed-empty : (fs : List GateFailure) → passed is_nan below_floor fs ≡ true → fs ≡ []
  unfolding passed
  passed-empty [] h = refl
  passed-empty (f ∷ fs) h = cc

  report-empty :
      (summary : Summary F) (allow : Bool)
      → report is_nan below_floor summary allow ≡ 0
      → failures_of is_nan below_floor summary allow ≡ []
  unfolding report verdict
  report-empty summary allow h =
      passed-empty (failures_of is_nan below_floor summary allow) (ground arith)

  -- An online gate that passes, with nothing waived, over any runs of the suite: the suite is not
  -- empty, at least seven tenths of its rows match, their faithfulness was measured, is a number and is
  -- not below the floor, and their mean cost is at most 1.15 times a baseline above zero.
  pub run-passes :
      (world : World F) (score : List Row → Option F) (baseline : ℤ) (suite : List Scenario)
      → run is_nan below_floor world score baseline suite false true false ≡ ok 0
      → (rows : List Row) × Rows world suite rows
        × (0 < length suite)
        × (70 * length suite ≤ 100 * count is_match rows)
        × Faithful (score rows)
        × Affordable (mean_cost (costs rows) (length suite)) baseline
  unfolding run exit_code failures_of
  run-passes world score baseline suite h =
      let (summary, ran, code) = bind-eq-ok (run_eval world score baseline suite) _ h in
      let none_failed : failures_of is_nan below_floor summary false ≡ [] =
        report-empty summary false (ok_injective _ _ code) in
      let (path, rest) =
        append-empty (fails_if (below summary.trajectory_match trajectory_floor) trajectory_low) _
          none_failed in
      let (faith, cost) =
        append-empty (faith_failures is_nan below_floor summary.faithfulness false) _ rest in
      let (rows, each, (same, shared, hits, mean, change), scored) =
        run_eval-Summarises world score baseline suite summary ran in
      let (some_rows, enough) =
        share-passes (count is_match rows) (length suite) (
          ap (λ r. below r trajectory_floor) (sym shared) ∙ fails_if-empty _ trajectory_low path) in
      (
        rows,
        each,
        some_rows,
        enough,
        subst Faithful scored (faith-passes summary.faithfulness faith),
        regression-passes (mean_cost (costs rows) (length suite)) baseline (
            ap (λ r. above r cost_regression_limit) (sym change)
            ∙ fails_if-empty _ cost_regressed cost),
      )
