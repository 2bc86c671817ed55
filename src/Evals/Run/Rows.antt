-- ===== src/Evals/Run/Rows.antt =====
-- evals/trajectory.py: the loop of `run_eval` against a summary computed row by row.
use arush_adabala_tax_liabil.Prelude.{
  ℕ, ◌+◌, ◌≡◌, sym, ap, ◌∙◌, Bool, Option, List, [], ◌∷◌, ◌++◌, arith, if◌then◌else◌, ◌==◌, length,
  ok, bind-eq-ok, ok_injective, string_eq, nat_eq, list_eq,
}
use mathlib.Core.List.{append_assoc, append-nil}
use arush_adabala_tax_liabil.Prelude.Int.{ℤ}
use arush_adabala_tax_liabil.Evals.Suite.{Scenario}
use arush_adabala_tax_liabil.Evals.Run.{
  Row, World, settle_row, Tally, no_rows, tallied, run_rows, Summary, share, mean_cost, summarise,
  run_eval, cost_regression,
}

-- How many rows pass a test, and what the rows cost.
abbrev pub count : (Row → Bool) → List Row → ℕ
count p [] = 0
count p (r ∷ rows) = (if p r then 1 else 0) + count p rows

abbrev pub costs : List Row → ℕ
costs [] = 0
costs (r ∷ rows) = r.cost_usd_e5 + costs rows

abbrev pub is_match : Row → Bool
is_match r = r.match == 1

abbrev pub is_hit : Row → Bool
is_hit r = r.answer_substring_hit

-- The rows of a suite: one for each scenario, its run's or its error's.
abbrev pub Rows : {F : Type 0} → World F → List Scenario → List Row → Type 0
Rows world [] [] = Unit
Rows world [] (r ∷ rows) = ⊥
Rows world (sc ∷ suite) [] = ⊥
Rows world (sc ∷ suite) (r ∷ rows) =
    (settle_row world sc (world.invoke sc) ≡ ok r) × Rows world suite rows

abbrev Grown : Tally → Tally → List Row → Type 0
Grown t u rows =
    (u.rows ≡ t.rows ++ rows)
    × (u.matched ≡ t.matched + count is_match rows)
    × (u.answer_hits ≡ t.answer_hits + count is_hit rows)
    × (u.total_cost_e5 ≡ t.total_cost_e5 + costs rows)

Grown-cons :
    (t u : Tally) (r : Row) (rows : List Row) → Grown (tallied t r) u rows → Grown t u (r ∷ rows)
unfolding tallied
Grown-cons t u r rows (a, b, c, d) =
    (a ∙ append_assoc t.rows (r ∷ []) rows, b ∙ omega arith, c ∙ omega arith, d ∙ omega arith)

run_rows-Grown :
    {F : Type 0} (world : World F) (t u : Tally) (suite : List Scenario)
    → run_rows world t suite ≡ ok u
    → (rows : List Row) × Rows world suite rows × Grown t u rows
unfolding run_rows
run_rows-Grown world t u [] h =
    let same : t ≡ u = cc in
    ([], tt, rw (← same) (sym (append-nil t.rows), omega arith, omega arith, omega arith))
run_rows-Grown world t u (sc ∷ suite) h =
    let (r, ran, rest) = bind-eq-ok (settle_row world sc (world.invoke sc)) _ h in
    let (rows, each, grown) = run_rows-Grown world (tallied t r) u suite rest in
    (r ∷ rows, (ran, each), Grown-cons t u r rows grown)

-- What the summary of a run says of its rows, each number computed on its own.
abbrev pub Summarises : {F : Type 0} → Summary F → List Scenario → ℤ → List Row → Type 0
Summarises summary suite baseline rows =
    (summary.rows ≡ rows)
    × (summary.trajectory_match ≡ share (count is_match rows) (length suite))
    × (summary.answer_substring_rate ≡ share (count is_hit rows) (length suite))
    × (summary.mean_cost_usd_e5 ≡ mean_cost (costs rows) (length suite))
    × (summary.cost_regression ≡ cost_regression (mean_cost (costs rows) (length suite)) baseline)

-- A run that returns has one row for each scenario, in the order of the suite: the row of its run, or,
-- where it raised, an error row that costs nothing. The shares and the mean cost of the summary are
-- those of the rows, and the regression is that of this mean against the baseline.
pub run_eval-Summarises :
    {F : Type 0} (world : World F) (score : List Row → Option F) (baseline : ℤ)
    (suite : List Scenario) (summary : Summary F)
    → run_eval world score baseline suite ≡ ok summary
    → (rows : List Row) × Rows world suite rows
      × Summarises summary suite baseline rows
      × (summary.faithfulness ≡ score rows)
unfolding run_eval summarise
run_eval-Summarises world score baseline suite summary h =
    let (t, ran, made) = bind-eq-ok (run_rows world no_rows suite) _ h in
    let (rows, each, (a, b, c, d)) = run_rows-Grown world no_rows t suite ran in
    let b' : t.matched ≡ count is_match rows = omega arith in
    let c' : t.answer_hits ≡ count is_hit rows = omega arith in
    let d' : t.total_cost_e5 ≡ costs rows = omega arith in
    let e : summarise t (length suite) (score t.rows) baseline ≡ summary = ok_injective _ _ made in
    (
      rows,
      each,
      (
        ap (λ s. s.rows) (sym e) ∙ a,
        ap (λ s. s.trajectory_match) (sym e) ∙ ap (λ n. share n (length suite)) b',
        ap (λ s. s.answer_substring_rate) (sym e) ∙ ap (λ n. share n (length suite)) c',
        ap (λ s. s.mean_cost_usd_e5) (sym e) ∙ ap (λ n. mean_cost n (length suite)) d',
        ap (λ s. s.cost_regression) (sym e)
            ∙ ap (λ n. cost_regression (mean_cost n (length suite)) baseline) d',
      ),
      ap (λ s. s.faithfulness) (sym e) ∙ ap score a,
    )
