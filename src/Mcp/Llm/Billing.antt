-- ===== src/Mcp/Llm/Billing.antt =====
-- tools/llm.py: what the `end` line of a chat says that it cost.
use arush_adabala_tax_liabil.Prelude.{
  ◌≡◌, refl, sym, ◌∙◌, ◌⊎◌, inl, inr, true, Option, none, some, List, [], ◌∷◌, Bool-cases, ◌==◌,
  string_eq, nat_eq, list_eq,
}
use mathlib.Core.Path.{subst}
use arush_adabala_tax_liabil.Prelude.Text.{Text}
use arush_adabala_tax_liabil.Prelude.Dict.{lookup, lookup-insert}
use arush_adabala_tax_liabil.Mcp.Errors.{map_http, mcp_error, Outcome, done, failed}
use arush_adabala_tax_liabil.Mcp.Money.{as_minor_units}
use arush_adabala_tax_liabil.Mcp.Tenancy.{Identity, cross_tenant_claim}
use arush_adabala_tax_liabil.Mcp.Observability.{
  number, text, Span, Ending, with_code, invoke_start, invoke_end, Observed, initial_span,
  end_lines, cost_source_proxy,
}
use arush_adabala_tax_liabil.Mcp.Observability.Lines.{observe_own}
use arush_adabala_tax_liabil.Mcp.Http.{Request, Response}
use arush_adabala_tax_liabil.Mcp.Llm.{
  ChatArgs, ChatReply, WireShape, Reader, Proxy, priced, settle_chat, read_reply, chat_span,
  wire_shape, chat_request, run_chat,
}
use arush_adabala_tax_liabil.Mcp.Json.{Json}

-- An ended chat: one `end` line, with the proxy's price of the reply, whatever its status.
abbrev pub BilledAs :
    {F : Type 0} → Reader F → Text → Response → Observed (Request F) ChatReply → Type 0
BilledAs reader tenant_id r seen =
    (mark : Ending) × (span : Span) × (seen.lines
      ≡ invoke_start "llm.chat" tenant_id ∷ invoke_end "llm.chat" tenant_id mark span ∷ [])
    × (lookup "cost_usd_minor" span ≡ some (number (as_minor_units reader.of_text r.cost_header)))
    × (lookup "cost_source" span ≡ some (text cost_source_proxy))
    × (((r.status == 200) ≡ true)
        ⊎ ((seen.outcome ≡ failed (mcp_error (map_http r.status r.body)))
            × (mark ≡ with_code (map_http r.status r.body).code)))

module _ {F : Type 0} (reader : Reader F) where
  priced_cost :
      (r : Response) (span : Span)
      → (lookup "cost_usd_minor" (priced reader r span)
          ≡ some (number (as_minor_units reader.of_text r.cost_header)))
        × (lookup "cost_source" (priced reader r span) ≡ some (text cost_source_proxy))
  unfolding priced
  priced_cost r span = (
    lookup-insert "cost_source" "cost_usd_minor" _ _
        ∙ lookup-insert "cost_usd_minor" "cost_usd_minor" _ _,
    lookup-insert "cost_source" "cost_source" _ _,
  )

  module _ (tenant_id : Text) (r : Response) (span : Span) (sent : List (Request F)) where
    abbrev seen_with : Outcome ChatReply → Observed (Request F) ChatReply
    seen_with outcome = record {
      outcome = outcome;
      lines =
          invoke_start "llm.chat" tenant_id
          ∷ end_lines "llm.chat" tenant_id (priced reader r span) outcome;
      sent = sent;
    }

    replied-BilledAs :
        (o : Option (Json F)) (shape : WireShape)
        → (r.status == 200) ≡ true
        → BilledAs reader tenant_id r (seen_with (read_reply reader o shape))
    unfolding read_reply end_lines
    replied-BilledAs none shape fine =
        (_, _, refl, (priced_cost r span).0, (priced_cost r span).1, inl fine)
    replied-BilledAs (some v) shape fine =
        (_, _, refl, (priced_cost r span).0, (priced_cost r span).1, inl fine)

    refused-BilledAs :
        BilledAs reader tenant_id r (seen_with (failed (mcp_error (map_http r.status r.body))))
    unfolding end_lines
    refused-BilledAs =
        (_, _, refl, (priced_cost r span).0, (priced_cost r span).1, inr (refl, refl))

  settled-BilledAs :
      (decode : Text → Option (Json F)) (shape : WireShape) (request : Request F) (tenant_id : Text)
      (r : Response) (span : Span)
      → BilledAs reader tenant_id r (
          seen_with tenant_id r span
            (request ∷ [])
            (settle_chat reader decode shape request span (done r)).outcome)
  unfolding settle_chat
  settled-BilledAs decode shape request tenant_id r span = elim (Bool-cases (r.status == 200)) [
    | inl fine ↦
        subst (λ o. BilledAs reader tenant_id r (seen_with tenant_id r span (request ∷ []) o))
          (sym (rw fine refl))
          (replied-BilledAs tenant_id r span (request ∷ []) (decode r.body) shape fine)
    | inr bad ↦
        subst (λ o. BilledAs reader tenant_id r (seen_with tenant_id r span (request ∷ []) o))
          (sym (rw bad refl)) (refused-BilledAs tenant_id r span (request ∷ []))
  ]

  -- Every chat that the proxy answers is recorded at the price of its header, an answer that is refused
  -- as well as one that is not; a status other than 200 is raised with its code.
  pub run_chat-BilledAs :
      (proxy : Proxy F) (who : Identity) (args : ChatArgs) (r : Response)
      → cross_tenant_claim who args.tenant_id ≡ []
      → proxy.fetch (chat_request reader proxy who args) ≡ done r
      → BilledAs reader args.tenant_id r (run_chat reader proxy who args)
  unfolding run_chat settle_chat
  run_chat-BilledAs proxy who args r own answered =
      rw (observe_own who "llm.chat" args.tenant_id _ own) (
        rw answered (
          settled-BilledAs proxy.decode (wire_shape proxy.llm_proxy_chat_path)
            (chat_request reader proxy who args) args.tenant_id r
            (chat_span args (wire_shape proxy.llm_proxy_chat_path) initial_span)))
