-- ===== src/Evals/Run/Tests.antt =====
-- A suite of two scenarios, of which the second raises.
use arush_adabala_tax_liabil.Prelude.{
  ℕ, ◌≡◌, refl, Option, none, some, List, [], ◌∷◌, if◌then◌else◌, ◌==◌, ok, raised, string_eq,
  nat_eq, list_eq, http_error,
}
use arush_adabala_tax_liabil.Prelude.Int.{pos}
use arush_adabala_tax_liabil.Prelude.Text.{Text, codes}
use arush_adabala_tax_liabil.Agent.State.{AgentState}
use arush_adabala_tax_liabil.Evals.Suite.{Scenario}
use arush_adabala_tax_liabil.Evals.Run.{
  Row, World, Summary, run_eval, run_rows, tallied, settle_row, row_of, error_row, summarise,
  no_rows,
}
use arush_adabala_tax_liabil.Evals.Run.Rows.{Rows, Summarises, run_eval-Summarises}

abbrev first : Scenario
first = record {
  qid = "docs-01";
  question = codes "what is the policy";
  tenant_id = codes "tenant-a";
  expected_nodes = "retrieval_agent" ∷ "synthesis_agent" ∷ [];
  expected_answer_substring = codes "policy";
}

abbrev second : Scenario
second = record first { qid = "docs-02"; question = codes "which rule" }

abbrev reached : AgentState Text ℕ
reached = record {
  question = codes "what is the policy";
  tenant_id = codes "tenant-a";
  thread_id = codes "eval";
  docs = [];
  tool_results = none;
  answer = some (codes "the policy");
  cost_usd_e5 = 420;
  visited_nodes = "retrieval_agent" ∷ "synthesis_agent" ∷ [];
}

abbrev world : World ℕ
world = record {
  invoke = λ sc. if sc.qid == "docs-01" then ok reached else raised http_error;
  lower = λ t. t;
  loads = λ t. none;
  render = λ v. [];
  query = none;
}

abbrev score : List Row → Option ℕ
score rows = none

abbrev summary : Summary ℕ
summary =
    summarise
      (tallied (tallied no_rows (row_of world first reached)) (error_row world second http_error)) 2
      none (pos 400)

ran : run_eval world score (pos 400) (first ∷ second ∷ []) ≡ ok summary
unfolding run_eval run_rows settle_row summarise
ran = refl

run_eval-Summarises_example :
    (rows : List Row) × Rows world (first ∷ second ∷ []) rows
    × Summarises summary (first ∷ second ∷ []) (pos 400) rows
    × (summary.faithfulness ≡ none)
run_eval-Summarises_example =
    run_eval-Summarises world score (pos 400) (first ∷ second ∷ []) summary ran
