-- ===== src/Agent/Api.antt =====
-- nodes/api.py: the bounded tool-use loop. `J` stands for JSON values. Of the world outside, the
-- model's completions are a function of the conversation, which grows with every turn, the MCP
-- server's results a function of the calls that it has answered, and `uuid5` and `json.dumps` are
-- parameters. The guard is shared: while the node awaits a reply the other leg may charge it, so what
-- it is when the reply comes is a parameter too. A raise keeps what was written to the guard, and the
-- calls that were made.
pub mod Context
pub mod Keys
pub mod Turns
pub mod Calls
pub mod Protocol
pub mod Boundary
mod Tests
use arush_adabala_tax_liabil.Prelude.{
  ℕ, zero, suc, ◌+◌, ◌-◌, ◌*◌, ◌/◌, ◌%◌, ◌≤◌, ◌<◌, min, String, ◌≡◌, refl, sym, ap, ◌∙◌, ◌≢◌, ◌↔◌,
  ◌⊎◌, inl, inr, Bool, true, false, not, ◌&&◌, ◌||◌, Option, none, some, List, [], ◌∷◌, ◌++◌, map,
  arith, ltb, leb, if◌then◌else◌, Bool-cases, Option-cases, leb→le, lt→ltb, Eq, ◌==◌, ==_refl,
  length, take, get_elem?, length-append, length-take, length-map, any, All, All-append, All-take,
  contains, Exc, Result, ok, raised, bind, bind-eq-ok, Result-cases, ok_injective, ok_or,
  budget_exceeded, value_error, key_error, type_error, runtime_error, timeout_error,
  validation_error, dependency_unavailable, string_eq, nat_eq, list_eq, graph_recursion,
  http_timeout, http_error, cancelled, other,
}
use arush_adabala_tax_liabil.Prelude.Dict.{Dict, insert, get_or}
use arush_adabala_tax_liabil.Prelude.Text.{Text, codes}
use arush_adabala_tax_liabil.Agent.Budget.{BudgetGuard, Usage, check_or_raise, record_call}
use arush_adabala_tax_liabil.Agent.State.{AgentState, Update, no_update}

abbrev pub max_tool_iterations : ℕ
max_tool_iterations = 5

abbrev pub tenant_arg : Text
tenant_arg = codes "tenant_id"

abbrev pub idempotency_arg : Text
idempotency_arg = codes "idempotency_key"

-- a tool as the server publishes it, and as `messages.create` takes it: `properties` of the schema
pub record McpTool : Type 0 where
  pub name : Text
  pub input_properties : Option (List Text)

pub record ToolParam : Type 0 where
  pub name : Text
  pub properties : Option (List Text)

unfoldable pub tools_for_claude : List McpTool → List ToolParam
tools_for_claude catalogue =
    map (λ t. record { name = t.name; properties = t.input_properties }) catalogue

abbrev properties_or_empty : Option (List Text) → List Text
properties_or_empty none = []
properties_or_empty (some ps) = ps

-- A tool that is not in the catalogue declares nothing.
unfoldable pub declared_properties : List ToolParam → Text → List Text
declared_properties [] name = []
declared_properties (t ∷ ts) name =
    if t.name == name then properties_or_empty t.properties else declared_properties ts name

abbrev pub Args : Type 0 → Type 0
Args J = Dict Text J

-- `dumps` writes the arguments with sorted keys.
unfoldable pub payload : {J : Type 0} → (Args J → Text) → Text → Text → Args J → Text
payload dumps thread_id tool args = thread_id ++ codes "|" ++ tool ++ codes "|" ++ dumps args

-- What the node uses of the libraries: a text as a JSON value, `uuid.uuid5` and `json.dumps`.
pub record Library (J : Type 0) : Type 0 where
  pub quote : Text → J
  pub uuid5 : Text → Text
  pub dumps : Args J → Text

unfoldable pub idempotency_key : {J : Type 0} → Library J → Text → Text → Args J → Text
unfolding payload
idempotency_key lib thread_id tool args = lib.uuid5 (payload lib.dumps thread_id tool args)

abbrev with_tenant : {J : Type 0} → Library J → List Text → Text → Args J → Args J
with_tenant lib declared tenant_id sent =
    if contains tenant_arg declared then insert tenant_arg (lib.quote tenant_id) sent else sent

-- The key is taken over the model's proposal, not over what is sent.
unfoldable pub inject_context :
    {J : Type 0} → Library J → Args J → List Text → Text → Text → Text → Args J
inject_context lib args declared tenant_id thread_id tool =
    let sent = with_tenant lib declared tenant_id args in
    if contains idempotency_arg declared
    then insert idempotency_arg (lib.quote (idempotency_key lib thread_id tool args)) sent
    else sent

-- A block of a completion; the input of a call is `none` when it is no mapping.
pub data Block (J : Type 0) : Type 0 where
  text_block : Block J
  tool_use : Text → Text → Option (Args J) → Block J

pub record Completion (J : Type 0) : Type 0 where
  pub content : List (Block J)
  pub stops_for_tool : Bool
  pub usage : Option Usage

-- a turn of the conversation; a tool result goes back under the id of its call
pub data Turn (J : Type 0) : Type 0 where
  user : Text → Turn J
  assistant : List (Block J) → Turn J
  results : List (Text × J) → Turn J

-- One call as the server received it.
pub record Call (J : Type 0) : Type 0 where
  pub tool : Text
  pub sent : Args J

pub record World (J : Type 0) : Type 0 where
  pub session : Result (List McpTool)
  pub create : List (Turn J) → Result (Completion J)
  pub call_tool : List (Call J) → Result J
  pub during_create : List (Turn J) → BudgetGuard → BudgetGuard
  pub during_tool : List (Call J) → BudgetGuard → BudgetGuard

-- What the loop has written: the shared guard, and its own variables.
pub record Loop (J : Type 0) : Type 0 where
  pub guard : BudgetGuard
  pub messages : List (Turn J)
  pub tool_results : Dict Text J
  pub calls : List (Call J)

module _ {J : Type 0} (lib : Library J) (world : World J) (tools : List ToolParam)
    (tenant_id thread_id : Text) where
  abbrev pub make_call : Text → Option (Args J) → Call J
  make_call name input =
      let proposed : Args J = get_or input [] in
      record {
        tool = name;
        sent =
            inject_context lib proposed (declared_properties tools name) tenant_id thread_id name;
      }

  -- `for block in resp.content`: the results of the turn, in the order of its calls.
  unfoldable pub run_blocks :
      List (Block J) → List (Text × J) → Loop J → Result (List (Text × J)) × Loop J
  run_blocks [] done l = (ok done, l)
  run_blocks (text_block ∷ bs) done l = run_blocks bs done l
  run_blocks (tool_use id name input ∷ bs) done l =
      let calls : List (Call J) = l.calls ++ make_call name input ∷ [] in
      let asked : Loop J = record l { calls = calls; guard = world.during_tool calls l.guard } in
      elim (world.call_tool calls) [
        | raised e ↦ (raised e, asked)
        | ok content ↦
            run_blocks bs (done ++ (id, content) ∷ [])
              (record asked { tool_results = insert name content l.tool_results })
      ]

  -- The tool calls of a completion, between its two turns.
  unfoldable pub answer_tools : List (Block J) → Loop J → Result Bool × Loop J
  answer_tools content l =
      let (turn, l') =
        run_blocks content [] (record l { messages = l.messages ++ assistant content ∷ [] }) in
      elim turn [
        | ok done ↦ (ok true, record l' { messages = l'.messages ++ results done ∷ [] })
        | raised e ↦ (raised e, l')
      ]

  abbrev pub awaited : Loop J → Loop J
  awaited l = record l { guard = world.during_create l.messages l.guard }

  abbrev pub billed : Loop J → Completion J → Loop J
  billed l resp = record l { guard = record_call (awaited l).guard resp.usage }

  -- One round of the loop; the result says whether there is another.
  unfoldable pub one_round : Loop J → Result Bool × Loop J
  one_round l = elim (check_or_raise l.guard) [
    | raised e ↦ (raised e, l)
    | ok _ ↦ elim (world.create l.messages) [
      | raised e ↦ (raised e, awaited l)
      | ok resp ↦
          if resp.stops_for_tool
          then answer_tools resp.content (billed l resp)
          else (ok false, billed l resp)
    ]
  ]

  -- `for _ in range(MAX_TOOL_ITERATIONS)`
  unfoldable pub run_loop : ℕ → Loop J → Result (Unit {0}) × Loop J
  run_loop zero l = (ok tt, l)
  run_loop (suc n) l =
      let (r, l') = one_round l in
      elim r [
        | raised e ↦ (raised e, l')
        | ok more ↦ elim more [ true ↦ run_loop n l' | false ↦ (ok tt, l') ]
      ]

abbrev pub start : {J : Type 0} → Text → BudgetGuard → Loop J
start question guard = record {
  guard = guard;
  messages = user question ∷ [];
  tool_results = [];
  calls = [];
}

module _ {J F : Type 0} (lib : Library J) (world : World J) where
  abbrev contribution : ℕ → Loop J → Update J F
  contribution spent_before l = record no_update {
    tool_results = some l.tool_results;
    cost_usd_e5 = some (l.guard.spent - spent_before);
    visited_nodes = some ("api_agent" ∷ []);
  }

  abbrev pub api_loop : List McpTool → AgentState J F → BudgetGuard → Result (Unit {0}) × Loop J
  api_loop catalogue state guard =
      run_loop lib world (tools_for_claude catalogue) state.tenant_id state.thread_id
        max_tool_iterations (start state.question guard)

  -- The whole node body: its contribution, and what it has written.
  unfoldable pub api : AgentState J F → BudgetGuard → Result (Update J F) × Loop J
  api state guard = elim world.session [
    | raised e ↦ (raised e, start state.question guard)
    | ok catalogue ↦
        let (r, l) = api_loop catalogue state guard in
        (bind r λ _. ok (contribution guard.spent l), l)
  ]
