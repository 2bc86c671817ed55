-- ===== src/Agent/Api/Boundary.antt =====
-- The calls and the tally of the api node when it is done, however it ends.
use arush_adabala_tax_liabil.Prelude.{
  ℕ, ◌+◌, ◌≤◌, ◌<◌, ◌≡◌, refl, ◌⊎◌, inl, inr, Bool, false, Option, List, [], ◌∷◌, ◌++◌, arith,
  if◌then◌else◌, ◌==◌, contains, Exc, Result, ok, raised, Result-cases, budget_exceeded, string_eq,
  nat_eq, list_eq,
}
use arush_adabala_tax_liabil.Prelude.Dict.{lookup, get_or}
use arush_adabala_tax_liabil.Prelude.Text.{Text}
use arush_adabala_tax_liabil.Agent.Budget.{BudgetGuard, check_or_raise}
use arush_adabala_tax_liabil.Agent.State.{AgentState, Update}
use arush_adabala_tax_liabil.Agent.Api.{
  max_tool_iterations, tenant_arg, idempotency_arg, Args, tools_for_claude, Library, Call, World,
  McpTool, Loop, start, run_loop, one_round, api,
}
use arush_adabala_tax_liabil.Agent.Api.Context.{sent_field}
use arush_adabala_tax_liabil.Agent.Api.Turns.{Priced, Alone, run_loop-InBudget}
use arush_adabala_tax_liabil.Agent.Api.Calls.{uses_of}

-- The tool of that name in the server's list declares the argument `k`.
pub declares : List McpTool → Text → Text → Bool
declares [] name k = false
declares (t ∷ ts) name k =
    if t.name == name then contains k (get_or t.input_properties []) else declares ts name k

module _ {J F : Type 0} (lib : Library J) (world : World J) where
  -- The call is of the tool that the model named, and each field of its arguments is as the server's
  -- list and the model's proposal have it.
  abbrev pub Carries : List McpTool → AgentState J F → Text × Option (Args J) → Call J → Type 0
  Carries catalogue state (name, input) c =
      (c.tool ≡ name)
      × ((k : Text)
          → lookup k c.sent
            ≡ sent_field lib (get_or input []) (declares catalogue name idempotency_arg)
                (declares catalogue name tenant_arg) state.tenant_id state.thread_id name k)

  -- One call for each of the uses, in order.
  abbrev pub AllCarry :
      List McpTool → AgentState J F → List (Text × Option (Args J)) → List (Call J) → Type 0
  AllCarry catalogue state [] [] = Unit
  AllCarry catalogue state (u ∷ us) (c ∷ cs) =
      Carries catalogue state u c × AllCarry catalogue state us cs
  AllCarry catalogue state _ _ = ⊥

  -- The calls are those of the first tool uses of the conversation, and of all of them unless it raised.
  abbrev pub Relayed : List McpTool → AgentState J F → Result (Update J F) × Loop J → Type 0
  Relayed catalogue state p =
      (first : List (Text × Option (Args J))) × (rest : List (Text × Option (Args J))) × (uses_of
          p.1.messages
        ≡ first ++ rest)
      × AllCarry catalogue state first p.1.calls
      × ((rest ≡ []) ⊎ ((e : Exc) × (p.0 ≡ raised e)))

  -- However a node ends that alone charges its guard, a guard that began below its ceiling ends below
  -- the ceiling plus the price of one completion.
  pub api_within_budget :
      (limit : ℕ) (state : AgentState J F) (guard : BudgetGuard)
      → Priced world limit
      → Alone world
      → guard.spent < guard.ceiling
      → (api {F = F} lib world state guard).1.guard.spent < guard.ceiling + limit
  unfolding api
  api_within_budget limit state guard priced alone below = elim (Result-cases world.session) [
    | inr (x, e) ↦ rw (e, api) (omega arith)
    | inl (catalogue, e) ↦
        let kept =
          run_loop-InBudget lib world (tools_for_claude catalogue) state.tenant_id state.thread_id
            limit guard.ceiling priced alone max_tool_iterations (start state.question guard)
            (refl, omega arith) in
        rw (e, api) (omega (arith, kept.0, kept.1))
  ]

  -- A node that is entered with its budget exhausted asks nothing of the model or the server.
  pub api_exhausted :
      (catalogue : List McpTool) (state : AgentState J F) (guard : BudgetGuard)
      → world.session ≡ ok catalogue
      → guard.ceiling ≤ guard.spent
      → api {F = F} lib world state guard
        ≡ (raised (budget_exceeded guard.spent guard.ceiling), start state.question guard)
  unfolding api run_loop one_round check_or_raise
  api_exhausted catalogue state guard e full = ground arith
