-- ===== src/Mcp/Reports.antt =====
-- The four tools (tools/orders.py, tools/llm.py, tools/rag.py) under `observe`: their log lines.
mod Tests
use arush_adabala_tax_liabil.Prelude.{
  ℕ, zero, suc, ◌+◌, ◌-◌, ◌*◌, ◌/◌, ◌%◌, ◌≤◌, ◌<◌, min, String, ◌≡◌, refl, sym, ap, ◌∙◌, ◌≢◌, ◌↔◌,
  ◌⊎◌, inl, inr, Bool, true, false, not, ◌&&◌, ◌||◌, Option, none, some, List, [], ◌∷◌, ◌++◌, map,
  arith, ltb, leb, if◌then◌else◌, Bool-cases, Option-cases, leb→le, lt→ltb, Eq, ◌==◌, ==_refl,
  length, take, get_elem?, length-append, length-take, length-map, any, All, All-append, All-take,
  contains, Exc, Result, ok, raised, bind, bind-eq-ok, Result-cases, ok_injective, ok_or,
  budget_exceeded, value_error, key_error, type_error, runtime_error, timeout_error,
  validation_error, dependency_unavailable, string_eq, nat_eq, list_eq, graph_recursion,
  http_timeout, http_error, cancelled, other,
}
use arush_adabala_tax_liabil.Prelude.Int.{ℤ, pos}
use arush_adabala_tax_liabil.Prelude.Text.{Text}
use arush_adabala_tax_liabil.Prelude.Dict.{insert, lookup, lookup-insert}
use arush_adabala_tax_liabil.Mcp.Errors.{Failure, stopped, Outcome, done, failed}
use arush_adabala_tax_liabil.Mcp.Tenancy.{Identity}
use arush_adabala_tax_liabil.Mcp.Observability.{
  Extra, number, text, Span, Ran, Observed, initial_span, Line, invoke_start, observe, end_lines,
}
use arush_adabala_tax_liabil.Mcp.Observability.Lines.{
  Priced, insert-Priced, Reported, observe-Reported, observe_own,
}
use arush_adabala_tax_liabil.Mcp.Http.{Request, Response, settle}
use arush_adabala_tax_liabil.Mcp.Orders.Args.{GetOrderArgs, CreateRefundArgs}
use arush_adabala_tax_liabil.Mcp.Orders.Handlers.{Server, get_order, create_refund}
use arush_adabala_tax_liabil.Mcp.Llm.{
  ChatArgs, ChatReply, Reader, Proxy, priced, chat_span, settle_chat, run_chat, WireShape,
}
use arush_adabala_tax_liabil.Mcp.Rag.{
  RagArgs, RagAnswer, Sidecar, answered, settle_rag, retrieve_and_generate,
}
use arush_adabala_tax_liabil.Mcp.Json.{Json, Fields}

settle-Priced :
    {F A : Type 0} (view : Text → Outcome A) (request : Request F) (span : Span)
    (o : Outcome Response)
    → Priced span
    → Priced (settle view request span o).span
unfolding settle
settle-Priced view request span (failed e) h = h
settle-Priced view request span (done r) h = insert-Priced "http_status" _ span h

priced-Priced :
    {F : Type 0} (reader : Reader F) (r : Response) (span : Span)
    → Priced span
    → Priced (priced reader r span)
unfolding priced
priced-Priced reader r span h =
    insert-Priced "cost_source" _ _
      (insert-Priced "cost_usd_minor" _ _ (insert-Priced "http_status" _ span h))

settle_chat-Priced :
    {F : Type 0} (reader : Reader F) (decode : Text → Option (Json F)) (shape : WireShape)
    (request : Request F) (span : Span) (o : Outcome Response)
    → Priced span
    → Priced (settle_chat reader decode shape request span o).span
unfolding settle_chat
settle_chat-Priced reader decode shape request span (failed e) h = h
settle_chat-Priced reader decode shape request span (done r) h = priced-Priced reader r span h

chat_span-Priced :
    (args : ChatArgs) (shape : WireShape) (span : Span)
    → Priced span
    → Priced (chat_span args shape span)
unfolding chat_span
chat_span-Priced args shape span h =
    insert-Priced "max_tokens" _ _ (insert-Priced "wire_shape" _ _ (insert-Priced "turns" _ span h))

module _ {F : Type 0} (reader : Reader F) (sidecar : Sidecar F) where
  answered-Priced :
      (span : Span) (r : Result (RagAnswer F))
      → Priced span
      → Priced (answered reader sidecar span r).span
  unfolding answered
  answered-Priced span (raised e) h = h
  answered-Priced span (ok a) h =
      insert-Priced "rerank_timed_out" _ _ (insert-Priced "citations" _ span h)

  settle_rag-Priced :
      (top_k : ℕ) (message : Text) (span : Span) (r : Result (Fields F))
      → Priced span
      → Priced (settle_rag reader sidecar top_k message span r).span
  unfolding settle_rag
  settle_rag-Priced top_k message span (ok result) h = answered-Priced span _ h
  settle_rag-Priced top_k message span (raised timeout_error) h = h
  settle_rag-Priced top_k message span (raised e) h = ground (arith, h)

-- Every call of the four tools whose arguments have passed logs a `start` line; unless it is cancelled,
-- one `end` line follows, with the mark of the call's outcome and both cost fields.
pub tools-Reported :
    {F V W : Type 0} (server : Server F V W) (reader : Reader F) (proxy : Proxy F)
    (sidecar : Sidecar F) (message : Text) (who : Identity) (got : GetOrderArgs)
    (refunded : CreateRefundArgs) (chatted : ChatArgs) (asked : RagArgs)
    → Reported "orders.get_order" got.tenant_id (get_order server who got)
      × Reported "orders.create_refund" refunded.tenant_id (create_refund server who refunded)
      × Reported "llm.chat" chatted.tenant_id (run_chat reader proxy who chatted)
      × Reported "rag.retrieve_and_generate" asked.tenant_id
          (retrieve_and_generate reader sidecar message who asked)
unfolding get_order create_refund run_chat retrieve_and_generate
tools-Reported server reader proxy sidecar message who got refunded chatted asked = (
  observe-Reported "orders.get_order" got.tenant_id who _ (λ span h. settle-Priced _ _ span _ h),
  observe-Reported "orders.create_refund" refunded.tenant_id who _
      (λ span h. settle-Priced _ _ _ _ (insert-Priced "idempotency_key" _ span h)),
  observe-Reported "llm.chat" chatted.tenant_id who _
      (λ span h. settle_chat-Priced reader _ _ _ _ _ (chat_span-Priced chatted _ span h)),
  observe-Reported "rag.retrieve_and_generate" asked.tenant_id who _ (λ span h.
      settle_rag-Priced reader sidecar _ message _ _
        (insert-Priced "cost_source" _ _ (insert-Priced "top_k" _ span h))),
)
