-- ===== src/Evals/Gate/Tests.antt =====
-- An online gate over one scenario that matches, with a faithfulness above the floor.
use arush_adabala_tax_liabil.Prelude.{
  ℕ, ◌*◌, ◌≤◌, ◌<◌, ◌≡◌, refl, Bool, true, false, Option, none, some, List, [], ◌∷◌, ltb, ◌==◌, ok,
  string_eq, nat_eq, list_eq,
}
use arush_adabala_tax_liabil.Prelude.Int.{pos}
use arush_adabala_tax_liabil.Prelude.Text.{Text, codes}
use arush_adabala_tax_liabil.Agent.State.{AgentState}
use arush_adabala_tax_liabil.Evals.Trajectory.{trajectory_match}
use arush_adabala_tax_liabil.Evals.Suite.{Scenario}
use arush_adabala_tax_liabil.Evals.Run.{
  Row, World, run_eval, run_rows, tallied, settle_row, row_of, summarise, cost_regression,
  mean_cost,
}
use arush_adabala_tax_liabil.Evals.Run.Rows.{Rows, count, costs, is_match}
use arush_adabala_tax_liabil.Evals.Gate.{
  run, exit_code, report, verdict, passed, failures_of, faith_failures, below, above,
}
use arush_adabala_tax_liabil.Evals.Gate.Verdict.{Faithful, Affordable, run-passes}

abbrev scenario : Scenario
scenario = record {
  qid = "docs-01";
  question = codes "what is the policy";
  tenant_id = codes "tenant-a";
  expected_nodes = "retrieval_agent" ∷ "synthesis_agent" ∷ [];
  expected_answer_substring = codes "policy";
}

abbrev reached : AgentState Text ℕ
reached = record {
  question = codes "what is the policy";
  tenant_id = codes "tenant-a";
  thread_id = codes "eval";
  docs = [];
  tool_results = none;
  answer = some (codes "the policy");
  cost_usd_e5 = 420;
  visited_nodes = "retrieval_agent" ∷ "synthesis_agent" ∷ [];
}

abbrev world : World ℕ
world = record {
  invoke = λ sc. ok reached;
  lower = λ t. t;
  loads = λ t. none;
  render = λ v. [];
  query = none;
}

abbrev is_nan : ℕ → Bool
is_nan x = x == 0

abbrev below_floor : ℕ → Bool
below_floor x = ltb x 85

abbrev score : List Row → Option ℕ
score rows = some 90

ran : run is_nan below_floor world score (pos 400) (scenario ∷ []) false true false ≡ ok 0
unfolding run exit_code report verdict passed failures_of faith_failures below above run_eval
    run_rows settle_row row_of tallied summarise cost_regression trajectory_match
ran = refl

run-passes_example :
    (rows : List Row) × Rows world (scenario ∷ []) rows
    × (0 < 1)
    × (70 ≤ 100 * count is_match rows)
    × Faithful is_nan below_floor (some 90)
    × Affordable (mean_cost (costs rows) 1) (pos 400)
run-passes_example = run-passes is_nan below_floor world score (pos 400) (scenario ∷ []) ran
