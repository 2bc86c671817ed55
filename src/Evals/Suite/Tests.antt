-- ===== src/Evals/Suite/Tests.antt =====
-- A scenario of the suite that calls for both workers, with bodies that only sign.
use arush_adabala_tax_liabil.Prelude.{
  ℕ, ◌≡◌, refl, sym, ap, none, some, [], ◌∷◌, Result, ok, ok_or, string_eq, nat_eq, list_eq,
}
use arush_adabala_tax_liabil.Prelude.Text.{Text, codes, occurs}
use arush_adabala_tax_liabil.Agent.State.{AgentState, Update, no_update, apply_update, fan_in}
use arush_adabala_tax_liabil.Agent.Graph.{
  Node, supervisor, run_graph, run_sends, follow, next_node, edge, mentions,
}
use arush_adabala_tax_liabil.Agent.Graph.Routing.{node_name, Signs}
use arush_adabala_tax_liabil.Mcp.Tenancy
use arush_adabala_tax_liabil.Evals.Trajectory.{trajectory_match}
use arush_adabala_tax_liabil.Evals.Suite.{Scenario}
use arush_adabala_tax_liabil.Evals.Suite.Routed.{ascii_lower, scenarios-matched}

abbrev question : Text
question = codes "how do i refund order ord-synth-9008"

abbrev sc : Scenario
sc = record {
  qid = "both-03";
  question = question;
  tenant_id = codes "tenant-b";
  expected_nodes = "retrieval_agent" ∷ "api_agent" ∷ "synthesis_agent" ∷ [];
  expected_answer_substring = codes "refund";
}

abbrev asked : AgentState ℕ ℕ
asked = record {
  question = question;
  tenant_id = codes "tenant-b";
  thread_id = codes "eval";
  docs = [];
  tool_results = none;
  answer = none;
  cost_usd_e5 = 0;
  visited_nodes = [];
}

abbrev body : Node → AgentState ℕ ℕ → Result (Update ℕ ℕ)
body n s = ok (record no_update { visited_nodes = some (node_name n ∷ []) })

signs : Signs ascii_lower body
signs n s u h = let same = ap (λ r. (ok_or r no_update).visited_nodes) h in sym same

abbrev reached : AgentState ℕ ℕ
reached = record asked { visited_nodes = "retrieval_agent" ∷ "api_agent" ∷ "synthesis_agent" ∷ [] }

ran : run_graph ascii_lower body 3 asked ≡ ok reached
unfolding run_graph supervisor run_sends follow edge next_node mentions occurs fan_in apply_update
    Tenancy.lower
ran = refl

scenarios-matched_example :
    trajectory_match ("retrieval_agent" ∷ "api_agent" ∷ "synthesis_agent" ∷ []) sc.expected_nodes
    ≡ 1
scenarios-matched_example =
    scenarios-matched ascii_lower body signs 16 sc 3 asked reached refl refl refl refl ran
