-- ===== src/Agent/Graph/Routing.antt =====
-- The plan of the supervisor, and the nodes that a run of graph.py visits.
use mathlib.Core.Path.{fun_ext}
use arush_adabala_tax_liabil.Prelude.{
  ℕ, zero, suc, ◌+◌, String, ◌≡◌, refl, sym, ap, ◌∙◌, inl, inr, Bool, true, false, some, List, [],
  ◌∷◌, ◌++◌, map, arith, All, Result, ok, bind, bind-eq-ok, Result-cases, string_eq, nat_eq,
  list_eq,
}
use mathlib.Core.List.{append-nil, append_assoc}
use arush_adabala_tax_liabil.Prelude.Text.{Text}
use arush_adabala_tax_liabil.Agent.State.{AgentState, Update, apply_update, fan_in}
use arush_adabala_tax_liabil.Agent.Graph.{
  Node, retrieval_agent, api_agent, synthesis_agent, Send, mentions, docs_keywords, api_keywords,
  supervisor, edge, run_sends, follow, next_node, run_graph,
}

-- the nodes that a question calls for
abbrev pub planned : Bool → Bool → List Node
planned true true = retrieval_agent ∷ api_agent ∷ []
planned true false = retrieval_agent ∷ []
planned false true = api_agent ∷ []
planned false false = retrieval_agent ∷ []

abbrev pub plan_of : (Text → Text) → Text → List Node
plan_of lower question =
    planned (mentions docs_keywords (lower question)) (mentions api_keywords (lower question))

module _ {J F : Type 0} (lower : Text → Text) where
  -- The supervisor sends to retrieval if a docs keyword occurs, then to the api if an api keyword
  -- occurs, and to retrieval if none does; every worker is handed the whole state.
  pub supervisor-planned :
      (s : AgentState J F)
      → (map (λ (t : Send (AgentState J F)). t.node) (supervisor lower s)
          ≡ plan_of lower s.question)
        × All (λ (t : Send (AgentState J F)). t.payload ≡ s) (supervisor lower s)
  unfolding supervisor
  supervisor-planned s = ground arith

  next_node-supervisor :
      (s : AgentState J F) → next_node (supervisor lower s) ≡ some synthesis_agent
  unfolding supervisor next_node edge
  next_node-supervisor s = ground arith

abbrev pub node_name : Node → String
node_name retrieval_agent = "retrieval_agent"
node_name api_agent = "api_agent"
node_name synthesis_agent = "synthesis_agent"

module _ {J F : Type 0} (lower : Text → Text)
    (body : Node → AgentState J F → Result (Update J F)) where
  -- a body that returns appends its own name
  abbrev pub Signs : Type 0
  Signs =
      (n : Node) (s : AgentState J F) (u : Update J F)
      → body n s ≡ ok u
      → u.visited_nodes ≡ some (node_name n ∷ [])

  run_sends_visited :
      Signs
      → (ts : List (Send (AgentState J F))) (s : AgentState J F) {us : List (Update J F)}
      → run_sends lower body ts ≡ ok us
      → (fan_in s us).visited_nodes ≡ s.visited_nodes ++ map (λ t. node_name t.node) ts
  unfolding run_sends fan_in apply_update
  run_sends_visited signs [] s {us} h = let e : us ≡ [] = ground arith in rw e (sym (append-nil _))
  run_sends_visited signs (t ∷ ts) s {us} h =
      let (u, ran, after) = bind-eq-ok (body t.node t.payload) _ h in
      let (rest, ran_rest, whole) = bind-eq-ok (run_sends lower body ts) _ after in
      let e : us ≡ u ∷ rest = ground arith in
      rw e (
        run_sends_visited signs ts (apply_update s u) ran_rest
        ∙ rw (signs t.node t.payload u ran) (append_assoc s.visited_nodes _ _))

  follow_visited :
      Signs
      → (limit : ℕ) (s t : AgentState J F) → follow lower body limit (some synthesis_agent) s ≡ ok t
      → t.visited_nodes ≡ s.visited_nodes ++ "synthesis_agent" ∷ []
  unfolding follow edge fan_in apply_update
  follow_visited signs zero s t h = cc
  follow_visited signs (suc limit) s t h = elim (Result-cases (body synthesis_agent s)) [
    | inl (u, ran) ↦ ground (arith, signs synthesis_agent s u ran)
    | inr (e, failed) ↦ ground arith
  ]

  map-map :
      (ts : List (Send (AgentState J F)))
      → map (λ t. node_name t.node) ts ≡ map node_name (map (λ t. t.node) ts)
  map-map [] = refl
  map-map (t ∷ ts) = ap (◌∷◌ (node_name t.node)) (map-map ts)

  -- A run that returns has visited the planned workers in the order of the plan, and then synthesis,
  -- provided that each node body appends its own name.
  pub run_graph_visited :
      Signs
      → (limit : ℕ) (s t : AgentState J F) → s.visited_nodes ≡ []
      → run_graph lower body limit s ≡ ok t
      → t.visited_nodes ≡ map node_name (plan_of lower s.question) ++ "synthesis_agent" ∷ []
  unfolding run_graph
  run_graph_visited signs zero s t empty h = cc
  run_graph_visited signs (suc limit) s t empty h =
      let (us, ran, after) = bind-eq-ok (run_sends lower body (supervisor lower s)) _ h in
      let workers = run_sends_visited signs (supervisor lower s) s ran in
      let last =
        follow_visited signs limit (fan_in s us) t (rw (next_node-supervisor lower s) at after) in
      let named = map-map (supervisor lower s) in
      let plan = (supervisor-planned lower s).0 in cc (workers, last, named, empty, plan)

  follow_depth :
      (limit : ℕ) (s : AgentState J F)
      → follow lower body (suc limit) (some synthesis_agent) s
        ≡ follow lower body 1 (some synthesis_agent) s
  unfolding follow edge
  follow_depth limit s = ground arith

  -- Two super-steps are enough: with any larger recursion limit the run is the same.
  pub run_graph_depth :
      (limit : ℕ) (s : AgentState J F)
      → run_graph lower body (limit + 2) s ≡ run_graph lower body 2 s
  unfolding run_graph
  run_graph_depth limit s =
      let n : limit + 2 ≡ suc (suc limit) = omega arith in
      rw n (
        ap (bind (run_sends lower body (supervisor lower s)))
          (fun_ext λ us. rw (next_node-supervisor lower s) (follow_depth limit (fan_in s us))))
