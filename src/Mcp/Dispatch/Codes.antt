-- ===== src/Mcp/Dispatch/Codes.antt =====
-- app.py: which errors of a tool reach the client with their code, and which code a reply that is not
-- understood has.
use arush_adabala_tax_liabil.Prelude.{
  ℕ, ◌≤◌, ◌≡◌, refl, ap, ◌∙◌, true, false, some, [], ◌∷◌, arith, ◌==◌, length, take, length-take,
  string_eq, nat_eq, list_eq,
}
use arush_adabala_tax_liabil.Prelude.Int.{pos}
use arush_adabala_tax_liabil.Prelude.Text.{Text}
use arush_adabala_tax_liabil.Prelude.Dict.{insert, get_or, lookup}
use arush_adabala_tax_liabil.Mcp.Errors.{
  McpError, map_http, status_to_code, default_code, max_message_chars, Failure, mcp_error,
  unvalidated, Outcome, done, failed,
}
use arush_adabala_tax_liabil.Mcp.Money.{Raw}
use arush_adabala_tax_liabil.Mcp.Tenancy.{Identity, cross_tenant_claim}
use arush_adabala_tax_liabil.Mcp.Observability.{text, Ran, initial_span}
use arush_adabala_tax_liabil.Mcp.Observability.Lines.{observe_own}
use arush_adabala_tax_liabil.Mcp.Http.Sent.{
  settle-sent, settle-refused, settle-viewed, unlogged-passed,
}
use arush_adabala_tax_liabil.Mcp.Http.{Request, Response, settle}
use arush_adabala_tax_liabil.Mcp.Orders.Args.{
  GetOrderArgs, CreateRefundArgs, get_order_args, create_refund_args,
}
use arush_adabala_tax_liabil.Mcp.Orders.Handlers.{
  Server, order_request, get_order, orders_get_order, refund_request, create_refund,
  orders_create_refund,
}
use arush_adabala_tax_liabil.Mcp.Dispatch.{
  Called, tool_error, invalid_params, structured, raise_structured, call_tool, raise_pending,
  handler,
}

-- What is relied on of the SDK: a tool's raise is wrapped with its cause, except a cancellation, and
-- a raise of `call_tool` is made into a result by the low-level handler.
pub record Sdk (A S : Type 0) : Type 0 where
  pub wrap : Outcome A → Called A
  pub wrapped : (e : McpError) → wrap (failed (mcp_error e)) ≡ tool_error (mcp_error e)
  pub wrapped_invalid : (t : Text) → wrap (failed (unvalidated t)) ≡ tool_error (unvalidated t)
  pub original : Outcome A → Outcome S
  pub absorbed : (e : McpError) → (s : S) × (original (failed (mcp_error e)) ≡ done s)

-- What the client of a tool gets.
abbrev pub client : {A S : Type 0} → Sdk A S → Outcome A → Outcome S
client sdk outcome = handler sdk.original (sdk.wrap outcome)

module _ {A S : Type 0} (sdk : Sdk A S) where
  handler-structured :
      (cause : Failure) (e : McpError)
      → structured cause ≡ some e
      → handler sdk.original (tool_error cause) ≡ failed (mcp_error e)
  unfolding handler call_tool raise_structured raise_pending
  handler-structured cause e h = let (s, absorbed) = sdk.absorbed e in rw (h, absorbed) refl

  pub client-coded : (e : McpError) → client sdk (failed (mcp_error e)) ≡ failed (mcp_error e)
  client-coded e =
      rw (sdk.wrapped e) (handler-structured (mcp_error e) e (unfold structured in refl))

  pub client-invalid :
      (t : Text)
      → client sdk (failed (unvalidated t))
        ≡ failed (mcp_error (record { code = invalid_params; message = t }))
  client-invalid t =
      rw (sdk.wrapped_invalid t) (handler-structured (unvalidated t) _ (unfold structured in refl))

-- The codes that an agent branches on.
abbrev pub Coded : ℕ → Text → McpError → Type 0
Coded status body e =
    (e.code ≡ pos (get_or (lookup status status_to_code) default_code))
    × (length e.message ≤ max_message_chars)
    × (e.message ≡ take max_message_chars body)

map_http-Coded : (status : ℕ) (body : Text) → Coded status body (map_http status body)
unfolding map_http
map_http-Coded status body = (refl, omega (arith, length-take {0} 200 body), refl)

module _ {F V W : Type 0} (server : Server F V W) (who : Identity) where
  get_order-outcome :
      (args : GetOrderArgs)
      → cross_tenant_claim who args.tenant_id ≡ []
      → (get_order server who args).outcome
        ≡ (settle server.order_view
            (order_request server who args)
            initial_span
            (server.fetch (order_request server who args))).outcome
  unfolding get_order
  get_order-outcome args own =
      ap (λ seen. seen.outcome) (observe_own who "orders.get_order" args.tenant_id _ own)

  abbrev refund_ran : CreateRefundArgs → Ran (Request F) W
  refund_ran args =
      settle server.refund_view (refund_request server who args)
        (insert "idempotency_key" (text args.idempotency_key) initial_span)
        (server.fetch (refund_request server who args))

  create_refund-outcome :
      (args : CreateRefundArgs)
      → cross_tenant_claim who args.tenant_id ≡ []
      → (create_refund server who args).outcome ≡ (refund_ran args).outcome
  unfolding create_refund
  create_refund-outcome args own =
      ap (λ seen. seen.outcome) (observe_own who "orders.create_refund" args.tenant_id _ own)

  create_refund-sent :
      (args : CreateRefundArgs)
      → cross_tenant_claim who args.tenant_id ≡ []
      → (create_refund server who args).sent ≡ refund_request server who args ∷ []
  unfolding create_refund
  create_refund-sent args own =
      ap (λ seen. seen.sent) (observe_own who "orders.create_refund" args.tenant_id _ own)
      ∙ settle-sent server.refund_view (refund_request server who args) _ _

  -- An order that the service does not answer with 200: the client has the code of the table for the
  -- status, 5030 for one that is not listed, and at most 200 characters of the body.
  pub get_order-Coded :
      {S : Type 0} (sdk : Sdk V S) (order_id tenant_id : Text) (args : GetOrderArgs) (r : Response)
      → get_order_args order_id tenant_id ≡ done args
      → cross_tenant_claim who args.tenant_id ≡ []
      → server.fetch (order_request server who args) ≡ done r
      → (r.status == 200) ≡ false
      → (e : McpError) × (client sdk (orders_get_order server who order_id tenant_id).outcome
          ≡ failed (mcp_error e))
        × Coded r.status r.body e
  unfolding orders_get_order
  get_order-Coded sdk order_id tenant_id args r accepted own answered bad = (
    map_http r.status r.body,
    rw (unlogged-passed (get_order_args order_id tenant_id) (get_order server who) args accepted) (
        rw (get_order-outcome args own ∙ settle-refused server.order_view _ _ _ r answered bad)
          (client-coded sdk (map_http r.status r.body))),
    map_http-Coded r.status r.body,
  )

  -- A refund that the order service has carried out, with a reply that its view refuses, is reported
  -- to the client as INVALID_PARAMS: as if the arguments had been refused and nothing sent.
  pub malformed_reply-invalid_params :
      {S : Type 0} (sdk : Sdk W S) (order_id : Text) (amount : Raw F) (reason tenant_id key : Text)
      (args : CreateRefundArgs) (r : Response) (t : Text)
      → create_refund_args server.to_decimal order_id amount reason tenant_id key ≡ done args
      → cross_tenant_claim who args.tenant_id ≡ []
      → server.fetch (refund_request server who args) ≡ done r
      → (r.status == 200) ≡ true
      → server.refund_view r.body ≡ failed (unvalidated t)
      → ((orders_create_refund server who order_id amount reason tenant_id key).sent
          ≡ refund_request server who args ∷ [])
        × (client sdk (orders_create_refund server who order_id amount reason tenant_id key).outcome
            ≡ failed (mcp_error (record { code = invalid_params; message = t })))
  unfolding orders_create_refund
  malformed_reply-invalid_params sdk order_id amount reason tenant_id key args r t accepted own
        answered fine refused =
      rw
        (unlogged-passed (create_refund_args server.to_decimal order_id amount reason tenant_id key)
          (create_refund server who) args accepted)
        (
          create_refund-sent args own,
          rw
              (create_refund-outcome args own
                ∙ settle-viewed server.refund_view _ _ _ r answered fine
                ∙ refused)
              (client-invalid sdk t),
        )
