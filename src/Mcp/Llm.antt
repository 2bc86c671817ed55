-- ===== src/Mcp/Llm.antt =====
-- tools/llm.py: the two wire shapes of the proxy and the tool around them.
pub mod Prompt
pub mod Billing
mod Tests
use arush_adabala_tax_liabil.Prelude.{
  ℕ, zero, suc, ◌+◌, ◌-◌, ◌*◌, ◌/◌, ◌%◌, ◌≤◌, ◌<◌, min, String, ◌≡◌, refl, sym, ap, ◌∙◌, ◌≢◌, ◌↔◌,
  ◌⊎◌, inl, inr, Bool, true, false, not, ◌&&◌, ◌||◌, Option, none, some, List, [], ◌∷◌, ◌++◌, map,
  arith, ltb, leb, if◌then◌else◌, Bool-cases, Option-cases, leb→le, lt→ltb, Eq, ◌==◌, ==_refl,
  length, take, get_elem?, length-append, length-take, length-map, any, All, All-append, All-take,
  contains, Exc, Result, ok, raised, bind, bind-eq-ok, Result-cases, ok_injective, ok_or,
  budget_exceeded, value_error, key_error, type_error, runtime_error, timeout_error,
  validation_error, dependency_unavailable, string_eq, nat_eq, list_eq, graph_recursion,
  http_timeout, http_error, cancelled, other,
}
use arush_adabala_tax_liabil.Prelude.Int.{ℤ, pos}
use arush_adabala_tax_liabil.Prelude.Text.{Text, codes, starts_with}
use arush_adabala_tax_liabil.Prelude.Dict.{insert, get_or, or_else}
use mathlib.Core.List.{reverse}
use arush_adabala_tax_liabil.Mcp.Errors.{
  Failure, mcp_error, map_http, unvalidated, crashed, Outcome, done, failed, bind_outcome,
}
use arush_adabala_tax_liabil.Mcp.Json.{
  Json, null, flag, whole, real, str, arr, obj, Items, nil, cons, Fields, end, field, get,
  fields_of, as_dict,
}
use arush_adabala_tax_liabil.Mcp.Money.{Decimal, as_token_count, as_minor_units}
use arush_adabala_tax_liabil.Mcp.Tenancy.{Identity, auth_headers}
use arush_adabala_tax_liabil.Mcp.Observability.{
  Extra, number, text, Span, Ran, Observed, observe, cost_source_proxy,
}
use arush_adabala_tax_liabil.Mcp.Http.{http_post, Request, Response, unlogged}
use arush_adabala_tax_liabil.Mcp.Orders.Args.{tenants, within, check}

pub data Role : Type 0 where
  user assistant system : Role

abbrev pub role_text : Role → Text
role_text user = codes "user"
role_text assistant = codes "assistant"
role_text system = codes "system"

pub record ChatMessage : Type 0 where
  pub role : Role
  pub content : Text

pub record ChatArgs : Type 0 where
  pub messages : List ChatMessage
  pub max_tokens : ℕ
  pub tenant_id : Text

pub record ChatReply : Type 0 where
  pub text : Text
  pub model : Text
  pub input_tokens : ℤ
  pub output_tokens : ℤ

abbrev pub cost_feature : Text
cost_feature = codes "mcp.llm.chat"

abbrev pub chat_completions_suffix : Text
chat_completions_suffix = codes "/chat/completions"

unfoldable pub sized_content : List ChatMessage → Bool
sized_content [] = true
sized_content (m ∷ ms) = within 1 8000 (length m.content) && sized_content ms

unfoldable pub chat_args : List ChatMessage → ℕ → Text → Outcome ChatArgs
chat_args messages max_tokens tenant_id =
    bind_outcome
      (check (
        within 1 50 (length messages)
        && sized_content messages
        && within 1 4096 max_tokens
        && contains tenant_id tenants))
      λ _. done (record { messages = messages; max_tokens = max_tokens; tenant_id = tenant_id })

pub data WireShape : Type 0 where
  chat completions : WireShape

-- `path.rstrip("/")`, of the path read backwards
unfoldable pub drop_slashes : Text → Text
drop_slashes [] = []
drop_slashes (c ∷ s) = let rest = drop_slashes s in if c == b'/' then rest else c ∷ s

unfoldable pub wire_shape : Text → WireShape
wire_shape path =
    if starts_with (reverse chat_completions_suffix) (drop_slashes (reverse path))
    then chat
    else completions

unfoldable pub turn : ChatMessage → Text
turn m = role_text m.role ++ (codes ": " ++ m.content)

-- `"\n\n".join(...)`
unfoldable pub flatten : List ChatMessage → Text
unfolding turn
flatten [] = []
flatten (m ∷ []) = turn m
flatten (m ∷ n ∷ ms) = turn m ++ (10 ∷ 10 ∷ flatten (n ∷ ms))

module _ {F : Type 0} where
  unfoldable pub turns : List ChatMessage → Items F
  turns [] = nil
  turns (m ∷ ms) =
      cons (obj (field "role" (str (role_text m.role)) (field "content" (str m.content) end)))
        (turns ms)

  unfoldable pub request_body : ChatArgs → WireShape → Json F
  request_body args chat = obj (
      field "messages" (arr (turns args.messages))
        (field "max_tokens" (whole (pos args.max_tokens)) end))
  request_body args completions =
      obj (field "prompt" (str (flatten args.messages)) (field "feature" (str cost_feature) end))

  -- `choices[0]`, with an empty mapping where there is none
  abbrev pub first_of : Option (Json F) → Fields F
  first_of (some (arr (cons v l))) = fields_of v
  first_of v = end

  abbrev pub or_null : Option (Json F) → Json F
  or_null (some v) = v
  or_null none = null

-- The conversions of Python that the reading of a reply uses: `str` of a value that is no text, and
-- the readers of numbers; `truthy` is the test of a float.
pub record Reader (F : Type 0) : Type 0 where
  pub render : Json F → Text
  pub truthy : F → Bool
  pub of_float : F → Option Decimal
  pub of_text : Text → Option Decimal

module _ {F : Type 0} (reader : Reader F) where
  open reader use {render, truthy, of_float, of_text}

  -- `str(d.get(k, ""))`
  unfoldable pub str_of : Option (Json F) → Text
  str_of none = []
  str_of (some (str t)) = t
  str_of (some v) = render v

  -- `bool(v)`
  unfoldable pub is_true : Json F → Bool
  is_true null = false
  is_true (flag b) = b
  is_true (whole (pos zero)) = false
  is_true (whole n) = true
  is_true (real x) = truthy x
  is_true (str []) = false
  is_true (str t) = true
  is_true (arr nil) = false
  is_true (arr l) = true
  is_true (obj end) = false
  is_true (obj d) = true

  unfoldable pub count : Option (Json F) → ℤ
  count none = pos 0
  count (some v) = as_token_count of_float of_text v

  -- `d.get(k) or d.get(j, "")`
  unfoldable pub first_true : Option (Json F) → Option (Json F) → Option (Json F)
  first_true (some v) w = if is_true v then some v else w
  first_true none w = w

  unfoldable pub parse_reply : Fields F → WireShape → ChatReply
  parse_reply body chat =
      let message = fields_of (or_null (get "message" (first_of (get "choices" body)))) in
      let usage = fields_of (or_null (get "usage" body)) in
      record {
        text = str_of (get "content" message);
        model = str_of (get "model" body);
        input_tokens = count (get "prompt_tokens" usage);
        output_tokens = count (get "completion_tokens" usage);
      }
  parse_reply body completions = record {
    text = str_of (get "text" body);
    model = str_of (first_true (get "resolvedModel" body) (get "model" body));
    input_tokens = count (get "inputTokens" body);
    output_tokens = count (get "outputTokens" body);
  }

  -- the span as the body leaves it before the status is looked at
  unfoldable pub priced : Response → Span → Span
  priced r span = insert "cost_source" (text cost_source_proxy) (
      insert "cost_usd_minor" (number (as_minor_units of_text r.cost_header))
        (insert "http_status" (number (pos r.status)) span))

  -- a body that is no JSON raises
  unfoldable pub read_reply : Option (Json F) → WireShape → Outcome ChatReply
  read_reply none shape = failed (crashed value_error)
  read_reply (some v) shape = done (parse_reply (fields_of v) shape)

  unfoldable pub settle_chat :
      (Text → Option (Json F))
      → WireShape
      → Request F
      → Span
      → Outcome Response
      → Ran (Request F) ChatReply
  settle_chat decode shape request span (failed e) = record {
    outcome = failed e;
    span = span;
    sent = request ∷ [];
  }
  settle_chat decode shape request span (done r) = record {
    outcome =
        if r.status == 200
        then read_reply (decode r.body) shape
        else failed (mcp_error (map_http r.status r.body));
    span = priced r span;
    sent = request ∷ [];
  }

-- The settings and the client that the tool is run with; `decode` is the JSON parser of a body.
pub record Proxy (F : Type 0) : Type 0 where
  pub fetch : Request F → Outcome Response
  pub bearer_jwt : Text
  pub llm_proxy_url : Text
  pub llm_proxy_chat_path : Text
  pub decode : Text → Option (Json F)

abbrev pub shape_text : WireShape → Text
shape_text chat = codes "chat"
shape_text completions = codes "completions"

unfoldable pub normalised_url : Text → Text
normalised_url url = reverse (drop_slashes (reverse url))

unfoldable pub chat_span : ChatArgs → WireShape → Span → Span
chat_span args shape span = insert "max_tokens" (number (pos args.max_tokens)) (
    insert "wire_shape" (text (shape_text shape))
      (insert "turns" (number (pos (length args.messages))) span))

module _ {F : Type 0} (reader : Reader F) (proxy : Proxy F) (who : Identity) where
  open proxy use {fetch, bearer_jwt, llm_proxy_url, llm_proxy_chat_path, decode}

  unfoldable pub chat_request : ChatArgs → Request F
  chat_request args = record {
    method = http_post;
    url = normalised_url llm_proxy_url ++ llm_proxy_chat_path;
    headers = auth_headers who bearer_jwt args.tenant_id;
    json = request_body args (wire_shape llm_proxy_chat_path);
  }

  unfoldable pub run_chat : ChatArgs → Observed (Request F) ChatReply
  run_chat args = observe who "llm.chat" args.tenant_id λ span.
      settle_chat reader decode (wire_shape llm_proxy_chat_path) (chat_request args)
        (chat_span args (wire_shape llm_proxy_chat_path) span) (fetch (chat_request args))

  unfoldable pub llm_chat : List ChatMessage → ℕ → Text → Observed (Request F) ChatReply
  llm_chat messages max_tokens tenant_id =
      unlogged (chat_args messages max_tokens tenant_id) run_chat
