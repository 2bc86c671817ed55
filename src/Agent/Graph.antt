-- ===== src/Agent/Graph.antt =====
-- graph.py: the supervisor's plan and the wiring of the three nodes. `lower` is `str.lower`.
pub mod Routing
mod Tests
use arush_adabala_tax_liabil.Prelude.{
  ℕ, zero, suc, ◌+◌, ◌-◌, ◌*◌, ◌/◌, ◌%◌, ◌≤◌, ◌<◌, min, String, ◌≡◌, refl, sym, ap, ◌∙◌, ◌≢◌, ◌↔◌,
  ◌⊎◌, inl, inr, Bool, true, false, not, ◌&&◌, ◌||◌, Option, none, some, List, [], ◌∷◌, ◌++◌, map,
  arith, ltb, leb, if◌then◌else◌, Bool-cases, Option-cases, leb→le, lt→ltb, Eq, ◌==◌, ==_refl,
  length, take, get_elem?, length-append, length-take, length-map, any, All, All-append, All-take,
  contains, Exc, Result, ok, raised, bind, bind-eq-ok, Result-cases, ok_injective, ok_or,
  budget_exceeded, value_error, key_error, type_error, runtime_error, timeout_error,
  validation_error, dependency_unavailable, string_eq, nat_eq, list_eq, graph_recursion,
  http_timeout, http_error, cancelled, other,
}
use arush_adabala_tax_liabil.Prelude.Text.{Text, codes, occurs}
use arush_adabala_tax_liabil.Agent.State.{AgentState, Update, fan_in}

pub data Node : Type 0 where
  retrieval_agent api_agent synthesis_agent : Node

abbrev pub docs_keywords : List Text
docs_keywords =
    codes "policy" ∷ codes "docs" ∷ codes "how do i" ∷ codes "rule" ∷ codes "deduction" ∷ []

abbrev pub api_keywords : List Text
api_keywords = codes "order" ∷ codes "refund" ∷ codes "status" ∷ codes "ord-" ∷ []

unfoldable pub mentions : List Text → Text → Bool
mentions ts q = any (λ t. occurs t q) ts

-- A `Send`: the worker, and the state that it is handed.
pub record Send (S : Type 0) : Type 0 where
  pub node : Node
  pub payload : S

module _ {S : Type 0} where
  abbrev send : Node → S → Send S
  send n s = record { node = n; payload = s }

  -- an empty plan grounds the answer in documents
  abbrev or_retrieval : S → List (Send S) → List (Send S)
  or_retrieval s [] = send retrieval_agent s ∷ []
  or_retrieval s (t ∷ ts) = t ∷ ts

module _ {J F : Type 0} (lower : Text → Text) where
  unfoldable pub supervisor : AgentState J F → List (Send (AgentState J F))
  supervisor state =
      let q = lower state.question in
      let docs_targets = if mentions docs_keywords q then send retrieval_agent state ∷ [] else [] in
      let api_targets = if mentions api_keywords q then send api_agent state ∷ [] else [] in
      or_retrieval state (docs_targets ++ api_targets)

-- The edges: both workers lead to synthesis, and synthesis to the end.
unfoldable pub edge : Node → Option Node
edge retrieval_agent = some synthesis_agent
edge api_agent = some synthesis_agent
edge synthesis_agent = none

-- where the edges of the super-step's nodes lead; both workers lead to one node
unfoldable pub next_node : {S : Type 0} → List (Send S) → Option Node
next_node [] = none
next_node (t ∷ ts) = edge t.node

-- The nodes as the graph registers them: each runs on a state, and returns or raises. `limit` is the
-- `recursion_limit` of `run_config`: the super-steps that a run may take.
module _ {J F : Type 0} (lower : Text → Text)
    (body : Node → AgentState J F → Result (Update J F)) where
  unfoldable pub run_sends : List (Send (AgentState J F)) → Result (List (Update J F))
  run_sends [] = ok []
  run_sends (t ∷ ts) = bind (body t.node t.payload) λ u. bind (run_sends ts) λ us. ok (u ∷ us)

  unfoldable pub follow : ℕ → Option Node → AgentState J F → Result (AgentState J F)
  follow limit none s = ok s
  follow zero (some n) s = raised graph_recursion
  follow (suc limit) (some n) s = elim (body n s) [
    | ok u ↦ follow limit (edge n) (fan_in s (u ∷ []))
    | raised e ↦ raised e
  ]

  unfoldable pub run_graph : ℕ → AgentState J F → Result (AgentState J F)
  unfolding edge follow next_node
  run_graph zero s = raised graph_recursion
  run_graph (suc limit) s =
      let sends = supervisor lower s in
      bind (run_sends sends) λ us. follow limit (next_node sends) (fan_in s us)
