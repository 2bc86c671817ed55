-- ===== src/Agent/Graph/Tests.antt =====
-- A run of the graph on one question, with bodies that only sign, and one fan-in.
use arush_adabala_tax_liabil.Prelude.{
  ℕ, ◌+◌, ◌≡◌, refl, sym, ap, none, some, [], ◌∷◌, ◌++◌, map, Result, ok, ok_or, string_eq, nat_eq,
  list_eq,
}
use arush_adabala_tax_liabil.Prelude.Dict.{lookup}
use arush_adabala_tax_liabil.Prelude.Text.{Text, codes, occurs}
use arush_adabala_tax_liabil.Agent.State.{AgentState, Update, no_update, apply_update, fan_in}
use arush_adabala_tax_liabil.Agent.State.Reducers.{
  found, last_found, all_docs, all_visited, sum_costs, fan_in_slots,
}
use arush_adabala_tax_liabil.Agent.Graph.{
  Node, supervisor, run_graph, run_sends, follow, next_node, edge, mentions,
}
use arush_adabala_tax_liabil.Agent.Graph.Routing.{plan_of, node_name, Signs, run_graph_visited}

abbrev asked : AgentState ℕ ℕ
asked = record {
  question = codes "refund policy";
  tenant_id = codes "t";
  thread_id = codes "th";
  docs = [];
  tool_results = none;
  answer = none;
  cost_usd_e5 = 0;
  visited_nodes = [];
}

abbrev lower : Text → Text
lower q = q

abbrev body : Node → AgentState ℕ ℕ → Result (Update ℕ ℕ)
body n s = ok (record no_update { visited_nodes = some (node_name n ∷ []); cost_usd_e5 = some 5 })

signs : Signs lower body
signs n s u h = let same = ap (λ r. (ok_or r no_update).visited_nodes) h in sym same

abbrev done : AgentState ℕ ℕ
done = record asked {
  visited_nodes = "retrieval_agent" ∷ "api_agent" ∷ "synthesis_agent" ∷ [];
  cost_usd_e5 = 15;
}

ran : run_graph lower body 2 asked ≡ ok done
unfolding run_graph supervisor mentions occurs run_sends follow next_node edge fan_in apply_update
ran = refl

run_graph_visited_example :
    "retrieval_agent" ∷ "api_agent" ∷ "synthesis_agent" ∷ []
    ≡ map node_name (plan_of lower (codes "refund policy")) ++ "synthesis_agent" ∷ []
run_graph_visited_example = run_graph_visited lower body signs 2 asked done refl ran

abbrev found_doc : Update ℕ ℕ
found_doc = record no_update {
  docs = some (record { chunk_id = codes "chunk-a-p0"; doc_id = codes "a"; score = 1 } ∷ []);
  cost_usd_e5 = some 3;
  visited_nodes = some ("retrieval_agent" ∷ []);
}

abbrev tool_answer : Update ℕ ℕ
tool_answer = record no_update {
  tool_results = some ((codes "get_order", 7) ∷ []);
  cost_usd_e5 = some 4;
  visited_nodes = some ("api_agent" ∷ []);
}

abbrev merged : AgentState ℕ ℕ
merged = fan_in asked (found_doc ∷ tool_answer ∷ [])

fan_in_slots_example :
    (merged.docs ≡ all_docs (found_doc ∷ tool_answer ∷ []))
    × (merged.visited_nodes ≡ all_visited (found_doc ∷ tool_answer ∷ []))
    × (merged.cost_usd_e5 ≡ 0 + sum_costs (found_doc ∷ tool_answer ∷ []))
    × (found (codes "get_order") merged.tool_results
        ≡ last_found (codes "get_order") (found_doc ∷ tool_answer ∷ []) none)
unfolding lookup
fan_in_slots_example =
    fan_in_slots asked (found_doc ∷ tool_answer ∷ []) (codes "get_order") (tt, ((refl, tt), tt))
