-- ===== src/Agent/Synthesis.antt =====
-- nodes/synthesis.py: the streamed answer and its repair loop. Parameters: the model's stream as a
-- function of the conversation, the partial JSON parser, and the validation of the arguments. `A`
-- is a validated answer, `J` the arguments of a tool call, `E` a validation error.
pub mod Deltas
pub mod Repair
mod Tests
use arush_adabala_tax_liabil.Prelude.{
  ℕ, zero, suc, ◌+◌, ◌-◌, ◌*◌, ◌/◌, ◌%◌, ◌≤◌, ◌<◌, min, String, ◌≡◌, refl, sym, ap, ◌∙◌, ◌≢◌, ◌↔◌,
  ◌⊎◌, inl, inr, Bool, true, false, not, ◌&&◌, ◌||◌, Option, none, some, List, [], ◌∷◌, ◌++◌, map,
  arith, ltb, leb, if◌then◌else◌, Bool-cases, Option-cases, leb→le, lt→ltb, Eq, ◌==◌, ==_refl,
  length, take, get_elem?, length-append, length-take, length-map, any, All, All-append, All-take,
  contains, Exc, Result, ok, raised, bind, bind-eq-ok, Result-cases, ok_injective, ok_or,
  budget_exceeded, value_error, key_error, type_error, runtime_error, timeout_error,
  validation_error, dependency_unavailable, string_eq, nat_eq, list_eq, graph_recursion,
  http_timeout, http_error, cancelled, other,
}
use arush_adabala_tax_liabil.Prelude.Dict.{get_or}
use arush_adabala_tax_liabil.Prelude.Text.{Text, codes}
use arush_adabala_tax_liabil.Agent.Budget.{BudgetGuard, Usage, check_or_raise, record_call}
use arush_adabala_tax_liabil.Agent.State.{AgentState, Update, no_update}

-- `MAX_RETRIES + 1`
abbrev pub max_attempts : ℕ
max_attempts = 3

abbrev pub tool_name : Text
tool_name = codes "final_answer"

-- An event of the stream: a block delta with its `partial_json`, if it has one.
pub data StreamEvent : Type 0 where
  content_block_delta : Option Text → StreamEvent
  other_event : StreamEvent

-- `text[n:]`
abbrev pub drop : ℕ → Text → Text
drop zero t = t
drop (suc n) [] = []
drop (suc n) (c ∷ t) = drop n t

-- What `jiter` makes of an unfinished buffer: `none` where it raises `ValueError`; and the reading of
-- its result, `none` where it is no mapping or its `text` is no string.
pub record PartialParser (J : Type 0) : Type 0 where
  pub from_json : Text → Option J
  pub text_of : J → Option Text

abbrev text_or_empty : {J : Type 0} → PartialParser J → Option J → Text
text_or_empty parser none = []
text_or_empty parser (some parsed) = get_or (parser.text_of parsed) []

unfoldable pub growing_text : {J : Type 0} → PartialParser J → Text → Text
growing_text parser buffer = text_or_empty parser (parser.from_json buffer)

-- `if not fragment: continue`
abbrev pub fragment_of : StreamEvent → Text
fragment_of other_event = []
fragment_of (content_block_delta none) = []
fragment_of (content_block_delta (some fragment)) = fragment

-- The deltas that one stream emits; `sent` counts the characters that went out before.
unfoldable pub stream_deltas : (Text → Text) → Text → ℕ → List StreamEvent → List Text
stream_deltas growing buffer sent [] = []
stream_deltas growing buffer sent (event ∷ events) = elim (fragment_of event) [
  | [] ↦ stream_deltas growing buffer sent events
  | c ∷ fragment ↦
      let buffer' = buffer ++ c ∷ fragment in
      let text = growing buffer' in
      if ltb sent (length text)
      then drop sent text ∷ stream_deltas growing buffer' (length text) events
      else stream_deltas growing buffer' sent events
]

pub data Block (J : Type 0) : Type 0 where
  text_block : Block J
  tool_use : Text → Text → J → Block J

pub record Message (J : Type 0) : Type 0 where
  pub content : List (Block J)
  pub usage : Option Usage

pub data Turn (J E : Type 0) : Type 0 where
  user : Text → Turn J E
  assistant : List (Block J) → Turn J E
  repair : Text → E → Turn J E

-- The arguments of the first call of the answer tool, or `{}`.
unfoldable pub arguments_of : {J : Type 0} → J → List (Block J) → J
arguments_of empty [] = empty
arguments_of empty (text_block ∷ bs) = arguments_of empty bs
arguments_of empty (tool_use id name input ∷ bs) =
    if name == tool_name then input else arguments_of empty bs

unfoldable pub tool_use_id : {J : Type 0} → List (Block J) → Text
tool_use_id [] = []
tool_use_id (text_block ∷ bs) = tool_use_id bs
tool_use_id (tool_use id name input ∷ bs) = id

pub record Model (J A E : Type 0) : Type 0 where
  pub stream : List (Turn J E) → List StreamEvent × Result (Message J)
  pub parser : PartialParser J
  pub empty : J
  pub model_validate : J → A ⊎ E

-- What an attempt leaves: the guard, the conversation, the deltas sent, the completions received.
pub record Run (J E : Type 0) : Type 0 where
  pub guard : BudgetGuard
  pub messages : List (Turn J E)
  pub deltas : List Text
  pub received : List (Message J)

-- How an attempt ends: with an answer, a repair to ask for, or a raise.
pub data Attempt (A E : Type 0) : Type 0 where
  answered : A → Attempt A E
  invalid : E → Attempt A E
  failed : Exc → Attempt A E

-- How the loop ends: an answer, the last validation error, what an attempt raised, or none of these.
pub data Ending (A E : Type 0) : Type 0 where
  answer : A → Ending A E
  unrepaired : E → Ending A E
  crashed : Exc → Ending A E
  no_answer : Ending A E

module _ {J A E : Type 0} (model : Model J A E) where
  unfoldable pub settle : Run J E → Message J → A ⊎ E → Attempt A E × Run J E
  settle run final (inl a) = (answered a, run)
  settle run final (inr e) = (
    invalid e,
    record run {
      messages =
          run.messages ++ assistant final.content ∷ repair (tool_use_id final.content) e ∷ [];
    },
  )

  -- `_stream_once`, then the validation of what it returned
  unfoldable pub finish : Run J E → List Text → Result (Message J) → Attempt A E × Run J E
  finish run sent (raised e) = (failed e, record run { deltas = run.deltas ++ sent })
  finish run sent (ok final) =
      settle
        (record run {
          guard = record_call run.guard final.usage;
          deltas = run.deltas ++ sent;
          received = run.received ++ final ∷ [];
        })
        final (model.model_validate (arguments_of model.empty final.content))

  unfoldable pub stream_once : Run J E → Attempt A E × Run J E
  stream_once run =
      let (events, end) = model.stream run.messages in
      finish run (stream_deltas (growing_text model.parser) [] 0 events) end

  unfoldable pub permitted :
      Run J E → Attempt A E × Run J E → Result (Unit {0}) → Attempt A E × Run J E
  permitted run call (raised e) = (failed e, run)
  permitted run call (ok _) = call

  unfoldable pub attempt : Run J E → Attempt A E × Run J E
  attempt run = permitted run (stream_once run) (check_or_raise run.guard)

  unfoldable pub after_attempt :
      (E → Run J E → Ending A E × Run J E) → Attempt A E × Run J E → Ending A E × Run J E
  after_attempt again (answered a, run) = (answer a, run)
  after_attempt again (failed x, run) = (crashed x, run)
  after_attempt again (invalid e, run) = again e run

  -- `for _ in range(MAX_RETRIES + 1)`; `last_error` is the error to raise when no attempt is left.
  unfoldable pub repair_loop : ℕ → Option E → Run J E → Ending A E × Run J E
  repair_loop zero none run = (no_answer, run)
  repair_loop zero (some e) run = (unrepaired e, run)
  repair_loop (suc n) last_error run =
      after_attempt (λ e run'. repair_loop n (some e) run') (attempt run)

  abbrev pub open_run : Text → BudgetGuard → Run J E
  open_run prompt guard = record {
    guard = guard;
    messages = user prompt ∷ [];
    deltas = [];
    received = [];
  }

  unfoldable pub synthesis : Text → BudgetGuard → Ending A E × Run J E
  synthesis prompt guard = repair_loop max_attempts none (open_run prompt guard)

-- The node's contribution; `dump` is `model_dump_json`. A validation error that no repair cured is
-- raised, and so is what an attempt raised.
unfoldable pub synthesis_update :
    {F J A E : Type 0} → (A → J) → BudgetGuard → Ending A E × Run J E → Result (Update J F)
synthesis_update dump guard (answer a, run) = ok (record no_update {
  answer = some (dump a);
  cost_usd_e5 = some (run.guard.spent - guard.spent);
  visited_nodes = some ("synthesis_agent" ∷ []);
})
synthesis_update dump guard (unrepaired e, run) = raised validation_error
synthesis_update dump guard (crashed x, run) = raised x
synthesis_update dump guard (no_answer, run) = raised runtime_error
