-- ===== src/Mcp/Middleware/Scoped.antt =====
-- transports/sse.py with the tools behind it: which requests a caller's header lets out.
use arush_adabala_tax_liabil.Prelude.{
  ℕ, ◌≡◌, refl, ◌⊎◌, inl, inr, Option, some, List, [], ◌∷◌, ◌++◌, arith, All, string_eq, nat_eq,
  list_eq,
}
use mathlib.Core.Path.{subst}
use arush_adabala_tax_liabil.Prelude.Text.{Text, codes}
use arush_adabala_tax_liabil.Prelude.Dict.{lookup, get_or}
use arush_adabala_tax_liabil.Mcp.Errors.{Outcome, done, failed}
use arush_adabala_tax_liabil.Mcp.Money.{Raw}
use arush_adabala_tax_liabil.Mcp.Tenancy.{
  Identity, set_request_identity, parse_bearer, bearer_token, auth_headers,
}
use arush_adabala_tax_liabil.Mcp.Json.{Json}
use arush_adabala_tax_liabil.Mcp.Observability.{Span, Observed}
use arush_adabala_tax_liabil.Mcp.Http.{Request, Response}
use arush_adabala_tax_liabil.Mcp.Http.Sent.{
  Scoped, Sends-All, observe-Sends, settle-sent, unlogged-sent,
}
use arush_adabala_tax_liabil.Mcp.Orders.Args.{GetOrderArgs, CreateRefundArgs, get_order_args}
use arush_adabala_tax_liabil.Mcp.Orders.Handlers.{
  Server, order_request, get_order, orders_get_order, orders_create_refund,
}
use arush_adabala_tax_liabil.Mcp.Orders.Requests.{Refunded, refund-sent}
use arush_adabala_tax_liabil.Mcp.Llm.{
  WireShape, ChatArgs, ChatMessage, Reader, Proxy, chat_args, chat_request, settle_chat, run_chat,
  llm_chat,
}
use arush_adabala_tax_liabil.Mcp.Middleware.{
  Verdict, claims, jwt_error, Answered, served, unauthorized, refuse, tenant_of, bound,
  authenticated, bearer_middleware,
}

-- The request goes out with the token of the header, for a tenant that the token's claim, where there
-- is one, names.
abbrev pub Vouched : {F : Type 0} → (Text → Verdict) → Text → Text → Request F → Type 0
Vouched decode token tenant_id request =
    (lookup "Authorization" request.headers ≡ some (codes "Bearer " ++ token))
    × (lookup "X-Tenant" request.headers ≡ some tenant_id)
    × ((claim : Option Text) × (decode token ≡ claims claim)
        × ((get_or claim [] ≡ []) ⊎ (get_or claim [] ≡ tenant_id)))

-- What the middleware answers: it serves a token that is decoded, and all that is sent is vouched for;
-- or it refuses with 4030, where there is no token or the decoder refuses it.
abbrev pub Guarded :
    {F A : Type 0} → (Text → Verdict) → Text → Text → Answered (Observed (Request F) A) → Type 0
Guarded decode token tenant_id (served seen) = All (Vouched decode token tenant_id) seen.sent
Guarded decode token tenant_id (unauthorized code message) =
    (code ≡ 4030) × ((token ≡ []) ⊎ (decode token ≡ jwt_error))

module _ {F A : Type 0} (decode : Text → Verdict) (configured tenant_id : Text)
    (app : Identity → Observed (Request F) A)
    (scoped : (who : Identity) → All (Scoped who configured tenant_id) (app who).sent) where
  vouch :
      (c : ℕ) (token : Text) (claim : Option Text) (sent : List (Request F))
      → decode (c ∷ token) ≡ claims claim
      → All (Scoped (set_request_identity (c ∷ token) (get_or claim [])) configured tenant_id) sent
      → All (Vouched decode (c ∷ token) tenant_id) sent
  unfolding set_request_identity bearer_token
  vouch c token claim [] d h = tt
  vouch c token claim (request ∷ sent) d h =
      ((h.0.0, h.0.1, (claim, d, h.0.2)), vouch c token claim sent d h.1)

  verdict-Guarded :
      (c : ℕ) (token : Text) (v : Verdict)
      → decode (c ∷ token) ≡ v
      → Guarded decode (c ∷ token) tenant_id (authenticated (some decode) app (c ∷ token))
  unfolding authenticated bound tenant_of refuse lookup
  verdict-Guarded c token (claims claim) h = rw (h, bound) (vouch c token claim _ h (scoped _))
  verdict-Guarded c token jwt_error h = rw (h, bound) (refl, inr h)

  authenticated-Guarded :
      (token : Text) → Guarded decode token tenant_id (authenticated (some decode) app token)
  unfolding authenticated refuse lookup
  authenticated-Guarded [] = (refl, inl refl)
  authenticated-Guarded (c ∷ token) = verdict-Guarded c token (decode (c ∷ token)) refl

  pub middleware-Guarded :
      (header : Option Text)
      → Guarded decode (parse_bearer header) tenant_id (bearer_middleware (some decode) app header)
  unfolding bearer_middleware
  middleware-Guarded header = authenticated-Guarded (parse_bearer header)

module _ {F V W : Type 0} (server : Server F V W) (who : Identity) where
  get_order_args-tenant :
      (order_id tenant_id : Text) (args : GetOrderArgs)
      → get_order_args order_id tenant_id ≡ done args
      → args.tenant_id ≡ tenant_id
  unfolding get_order_args
  get_order_args-tenant order_id tenant_id args h = ground arith

  get_order-Scoped :
      (args : GetOrderArgs)
      → All (Scoped who server.bearer_jwt args.tenant_id) (get_order server who args).sent
  unfolding get_order order_request auth_headers lookup
  get_order-Scoped args =
      Sends-All (Scoped who server.bearer_jwt args.tenant_id) who args.tenant_id
        (order_request server who args) _
        (observe-Sends who "orders.get_order" args.tenant_id _ (order_request server who args)
          (settle-sent server.order_view (order_request server who args) _ _))
        (λ own. (refl, refl, own))

  orders_get_order-Scoped :
      (order_id tenant_id : Text)
      → All
          (Scoped who server.bearer_jwt tenant_id)
          (orders_get_order server who order_id tenant_id).sent
  unfolding orders_get_order
  orders_get_order-Scoped order_id tenant_id =
      unlogged-sent (All (Scoped who server.bearer_jwt tenant_id))
        (get_order_args order_id tenant_id) (get_order server who) (λ e refused. tt)
        λ args accepted.
          subst (λ t. All (Scoped who server.bearer_jwt t) (get_order server who args).sent)
            (get_order_args-tenant order_id tenant_id args accepted) (get_order-Scoped args)

  Refunded-Scoped :
      (checked : Outcome CreateRefundArgs) (order_id : Text) (amount : Raw F)
      (reason tenant_id key : Text) (sent : List (Request F))
      → Refunded server who checked order_id amount reason tenant_id key sent
      → All (Scoped who server.bearer_jwt tenant_id) sent
  Refunded-Scoped checked order_id amount reason tenant_id key sent (inl (nothing, why)) =
      rw nothing tt
  Refunded-Scoped checked order_id amount reason tenant_id key sent
        (inr (request, args, one, passed, refunds)) =
      rw one (refunds.3, tt)

module _ {F : Type 0} (reader : Reader F) (proxy : Proxy F) (who : Identity) where
  chat_args-tenant :
      (messages : List ChatMessage) (max_tokens : ℕ) (tenant_id : Text) (args : ChatArgs)
      → chat_args messages max_tokens tenant_id ≡ done args
      → args.tenant_id ≡ tenant_id
  unfolding chat_args
  chat_args-tenant messages max_tokens tenant_id args h = ground arith

  settle_chat-sent :
      (decode : Text → Option (Json F)) (shape : WireShape) (request : Request F) (span : Span)
      (o : Outcome Response)
      → (settle_chat reader decode shape request span o).sent ≡ request ∷ []
  unfolding settle_chat
  settle_chat-sent decode shape request span (failed e) = refl
  settle_chat-sent decode shape request span (done r) = refl

  run_chat-Scoped :
      (args : ChatArgs)
      → All (Scoped who proxy.bearer_jwt args.tenant_id) (run_chat reader proxy who args).sent
  unfolding run_chat chat_request auth_headers lookup
  run_chat-Scoped args =
      Sends-All (Scoped who proxy.bearer_jwt args.tenant_id) who args.tenant_id
        (chat_request reader proxy who args) _
        (observe-Sends who "llm.chat" args.tenant_id _ (chat_request reader proxy who args)
          (settle_chat-sent _ _ (chat_request reader proxy who args) _ _))
        (λ own. (refl, refl, own))

  llm_chat-Scoped :
      (messages : List ChatMessage) (max_tokens : ℕ) (tenant_id : Text)
      → All
          (Scoped who proxy.bearer_jwt tenant_id)
          (llm_chat reader proxy who messages max_tokens tenant_id).sent
  unfolding llm_chat
  llm_chat-Scoped messages max_tokens tenant_id =
      unlogged-sent (All (Scoped who proxy.bearer_jwt tenant_id))
        (chat_args messages max_tokens tenant_id) (run_chat reader proxy who) (λ e refused. tt)
        λ args accepted.
          subst (λ t. All (Scoped who proxy.bearer_jwt t) (run_chat reader proxy who args).sent)
            (chat_args-tenant messages max_tokens tenant_id args accepted) (run_chat-Scoped args)

-- With validation on, the three tools that call out are served only for a token that the decoder
-- accepts; every request that they then send carries that token, and is for the tenant that the
-- token's claim names, where it names one. Any other header is refused with 4030.
pub served_tools-Guarded :
    {F V W : Type 0} (server : Server F V W) (reader : Reader F) (proxy : Proxy F)
    (decode : Text → Verdict) (header : Option Text) (tenant_id order_id : Text) (amount : Raw F)
    (reason key : Text) (messages : List ChatMessage) (max_tokens : ℕ)
    → Guarded decode (parse_bearer header) tenant_id (
        bearer_middleware
          (some decode)
          (λ who. orders_get_order server who order_id tenant_id)
          header)
      × Guarded decode (parse_bearer header) tenant_id (
          bearer_middleware
            (some decode)
            (λ who. orders_create_refund server who order_id amount reason tenant_id key)
            header)
      × Guarded decode (parse_bearer header) tenant_id (
          bearer_middleware
            (some decode)
            (λ who. llm_chat reader proxy who messages max_tokens tenant_id)
            header)
served_tools-Guarded server reader proxy decode header tenant_id order_id amount reason key messages
      max_tokens =
    (
      middleware-Guarded decode server.bearer_jwt tenant_id _
          (λ who. orders_get_order-Scoped server who order_id tenant_id) header,
      middleware-Guarded decode server.bearer_jwt tenant_id _
          (λ who.
            Refunded-Scoped server who _ order_id amount reason tenant_id key _
              (refund-sent server who order_id amount reason tenant_id key))
          header,
      middleware-Guarded decode proxy.bearer_jwt tenant_id _
          (λ who. llm_chat-Scoped reader proxy who messages max_tokens tenant_id) header,
    )
