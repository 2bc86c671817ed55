-- ===== src/Evals/Suite/Routed.antt =====
-- The suite of evals/trajectory.py against the supervisor of graph.py.
use arush_adabala_tax_liabil.Prelude.{
  ℕ, zero, suc, ◌≡◌, refl, some, List, [], ◌∷◌, ◌++◌, map, get_elem?, All, All-append, Result, ok,
  string_eq, nat_eq, list_eq,
}
use mathlib.Core.Path.{subst}
use arush_adabala_tax_liabil.Prelude.Text.{Text, occurs}
use arush_adabala_tax_liabil.Agent.State.{AgentState, Update}
use arush_adabala_tax_liabil.Agent.Graph.{Node, docs_keywords, api_keywords, mentions, run_graph}
use arush_adabala_tax_liabil.Agent.Graph.Routing.{planned, node_name, Signs, run_graph_visited}
use arush_adabala_tax_liabil.Mcp.Tenancy
use arush_adabala_tax_liabil.Evals.Trajectory.{trajectory_match}
use arush_adabala_tax_liabil.Evals.Suite.{Scenario, docs_only, api_only, both, scenarios}

-- `str.lower` on ASCII
abbrev pub ascii_lower : Text → Text
ascii_lower q = map Tenancy.lower q

-- What the supervisor plans for a scenario, and synthesis behind it, is the golden path.
abbrev Golden : Scenario → Type 0
Golden sc =
    trajectory_match
      (map node_name (
          planned (mentions docs_keywords (ascii_lower sc.question))
            (mentions api_keywords (ascii_lower sc.question)))
        ++ "synthesis_agent" ∷ [])
      sc.expected_nodes
    ≡ 1

docs_only-Golden : All Golden docs_only
unfolding trajectory_match mentions occurs Tenancy.lower
docs_only-Golden = (refl, (refl, (refl, (refl, (refl, (refl, (refl, tt)))))))

api_only-Golden : All Golden api_only
unfolding trajectory_match mentions occurs Tenancy.lower
api_only-Golden = (refl, (refl, (refl, (refl, (refl, (refl, (refl, tt)))))))

both-Golden : All Golden both
unfolding trajectory_match mentions occurs Tenancy.lower
both-Golden = (refl, (refl, (refl, (refl, (refl, (refl, tt))))))

All-get {ℓ} :
    {A : Type 0} (P : A → Type ℓ) (xs : List A) (i : ℕ) (a : A)
    → All P xs
    → get_elem? xs i ≡ some a
    → P a
All-get P [] i a h e = cc
All-get P (x ∷ xs) zero a h e = let same : x ≡ a = cc in subst P same h.0
All-get P (x ∷ xs) (suc i) a h e = All-get P xs i a h.1 e

scenarios-Golden : All Golden scenarios
scenarios-Golden =
    All-append Golden (docs_only ++ api_only) both
      (All-append Golden docs_only api_only docs_only-Golden api_only-Golden) both-Golden

module _ {J F : Type 0} (lower : Text → Text)
    (body : Node → AgentState J F → Result (Update J F)) where
  -- Every scenario of the suite scores 1.0 on every run of the graph that returns, whatever the nodes
  -- answer, provided that each node body appends its own name and that the question is lowered as ASCII.
  pub scenarios-matched :
      Signs lower body
      → (i : ℕ) (sc : Scenario) (limit : ℕ) (s t : AgentState J F) → get_elem? scenarios i ≡ some sc
      → lower sc.question ≡ ascii_lower sc.question
      → s.question ≡ sc.question
      → s.visited_nodes ≡ []
      → run_graph lower body limit s ≡ ok t
      → trajectory_match t.visited_nodes sc.expected_nodes ≡ 1
  scenarios-matched signs i sc limit s t listed lowered asks fresh ran =
      let visited = run_graph_visited lower body signs limit s t fresh ran in
      rw (visited, asks, lowered) (All-get Golden scenarios i sc scenarios-Golden listed)
