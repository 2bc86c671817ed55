-- ===== src/Agent/Api/Tests.antt =====
-- A run of the tool-use loop: a model that calls one tool, for another tenant, and then stops.
use arush_adabala_tax_liabil.Prelude.{
  ℕ, ◌+◌, ◌<◌, ◌≡◌, refl, sym, ap, Bool, true, none, some, List, [], ◌∷◌, ◌++◌, arith, ltb, length,
  Result, ok, ok_or, string_eq, nat_eq, list_eq,
}
use arush_adabala_tax_liabil.Prelude.Text.{Text, codes}
use arush_adabala_tax_liabil.Agent.Budget.{
  BudgetGuard, check_or_raise, record_call, record_usage, call_cost, usage_cost,
}
use arush_adabala_tax_liabil.Agent.State.{AgentState}
use arush_adabala_tax_liabil.Agent.Api.{
  tenant_arg, idempotency_arg, McpTool, tools_for_claude, Args, Library, text_block, tool_use,
  Completion, World, Loop, run_blocks, answer_tools, one_round, run_loop, start, api,
}
use arush_adabala_tax_liabil.Agent.Api.Turns.{Priced}
use arush_adabala_tax_liabil.Agent.Api.Protocol.{Conversation, run_loop-Conversation}
use arush_adabala_tax_liabil.Agent.Api.Boundary.{api_within_budget}

abbrev dumps : Args Text → Text
dumps [] = codes "{}"
dumps ((k, v) ∷ args) = k ++ v

abbrev lib : Library Text
lib = record { quote = λ t. t; uuid5 = λ t. t; dumps = dumps }

abbrev properties : List Text
properties = codes "order_id" ∷ tenant_arg ∷ idempotency_arg ∷ []

abbrev catalogue : List McpTool
catalogue = record { name = codes "refund"; input_properties = some properties } ∷ []

abbrev proposal : Args Text
proposal = (codes "order_id", codes "7") ∷ (tenant_arg, codes "other") ∷ []

abbrev reply : Bool → Completion Text
reply more = record {
  content = text_block ∷ tool_use (codes "call-1") (codes "refund") (some proposal) ∷ [];
  stops_for_tool = more;
  usage = some (record { input_tokens = some 1000; output_tokens = some 0 });
}

abbrev world : World Text
world = record {
  session = ok catalogue;
  create = λ ms. ok (reply (ltb (length ms) 2));
  call_tool = λ calls. ok (codes "done");
  during_create = λ ms g. g;
  during_tool = λ calls g. g;
}

abbrev state : AgentState Text ℕ
state = record {
  question = codes "refund order 7";
  tenant_id = codes "mine";
  thread_id = codes "thread";
  docs = [];
  tool_results = none;
  answer = none;
  cost_usd_e5 = 0;
  visited_nodes = [];
}

abbrev guard : BudgetGuard
guard = record { ceiling = 1000; spent = 900 }

abbrev roomy : BudgetGuard
roomy = record { ceiling = 2000; spent = 100 }

abbrev run : Result (Unit {0}) × Loop Text
run =
    run_loop lib world (tools_for_claude catalogue) (codes "mine") (codes "thread") 5
      (start (codes "q") roomy)

returned : run.0 ≡ ok tt
unfolding run_loop one_round answer_tools run_blocks check_or_raise record_call record_usage
    call_cost
returned = refl

run_loop-Conversation_example : Conversation run.1.messages
run_loop-Conversation_example =
    run_loop-Conversation lib world (tools_for_claude catalogue) (codes "mine") (codes "thread") 5
      (start (codes "q") roomy) returned tt

priced : Priced world 300
unfolding usage_cost call_cost
priced ms resp h =
    let same : some (record { input_tokens = some 1000; output_tokens = some 0 }) ≡ resp.usage =
      ap (λ r. (ok_or r (reply true)).usage) h in
    rw (sym same) (omega arith)

api_within_budget_example : (api {F = ℕ} lib world state guard).1.guard.spent < 1000 + 300
api_within_budget_example =
    api_within_budget lib world 300 state guard priced ((λ ms g. refl), (λ cs g. refl))
      (omega arith)
