-- ===== src/Mcp/Dispatch/Tests.antt =====
-- A rate limit, and a refund that is answered with a body that its view refuses.
use arush_adabala_tax_liabil.Prelude.{ℕ, ◌≡◌, refl, none, [], ◌∷◌, string_eq, nat_eq, list_eq}
use arush_adabala_tax_liabil.Prelude.Text.{codes}
use arush_adabala_tax_liabil.Prelude.Text.Decimal.{decimal}
use arush_adabala_tax_liabil.Prelude.Equality.{list_beq}
use arush_adabala_tax_liabil.Mcp.Errors.{McpError, done, failed, mcp_error}
use arush_adabala_tax_liabil.Mcp.Tenancy.{cross_tenant_claim}
use arush_adabala_tax_liabil.Mcp.Money.{written, reject_inexact_binary, enforce_money_scale}
use arush_adabala_tax_liabil.Mcp.Http.{Response}
use arush_adabala_tax_liabil.Mcp.Orders.Args.{
  GetOrderArgs, CreateRefundArgs, get_order_args, create_refund_args, valid_order, amount_of,
  positive_scaled, refund_model,
}
use arush_adabala_tax_liabil.Mcp.Orders.Handlers.{
  orders_get_order, orders_create_refund, refund_request,
}
use arush_adabala_tax_liabil.Mcp.Dispatch.{invalid_params}
use arush_adabala_tax_liabil.Mcp.Dispatch.Codes.{
  client, Coded, get_order-Coded, malformed_reply-invalid_params,
}
use arush_adabala_tax_liabil.Mcp.Samples.{ten, answering, caller, sdk}

abbrev got : GetOrderArgs
got = record { order_id = codes "ord-1"; tenant_id = codes "tenant-a" }

abbrev answer : ℕ → Response
answer status = record { status = status; body = codes "body"; cost_header = none }

get_accepted : get_order_args (codes "ord-1") (codes "tenant-a") ≡ done got
unfolding get_order_args valid_order list_beq
get_accepted = refl

own : cross_tenant_claim (caller (codes "tenant-a")) (codes "tenant-a") ≡ []
unfolding cross_tenant_claim list_beq
own = refl

get_order-Coded_example :
    (e : McpError) × (client sdk
        (orders_get_order
          (answering 429)
          (caller (codes "tenant-a"))
          (codes "ord-1")
          (codes "tenant-a")).outcome
      ≡ failed (mcp_error e))
    × Coded 429 (codes "body") e
get_order-Coded_example =
    get_order-Coded (answering 429) (caller (codes "tenant-a")) sdk (codes "ord-1")
      (codes "tenant-a") got (answer 429) get_accepted own refl refl

abbrev refund : CreateRefundArgs
refund = record {
  order_id = codes "ord-1";
  amount = ten;
  reason = codes "duplicate";
  tenant_id = codes "tenant-a";
  idempotency_key = codes "key";
}

refund_accepted :
    create_refund_args
      (answering 200).to_decimal
      (codes "ord-1")
      (written (codes "10.00"))
      (codes "duplicate")
      (codes "tenant-a")
      (codes "key")
    ≡ done refund
unfolding create_refund_args amount_of positive_scaled refund_model reject_inexact_binary
    enforce_money_scale decimal valid_order list_beq
refund_accepted = refl

malformed_reply-invalid_params_example :
    ((orders_create_refund
        (answering 200)
        (caller (codes "tenant-a"))
        (codes "ord-1")
        (written (codes "10.00"))
        (codes "duplicate")
        (codes "tenant-a")
        (codes "key")).sent
      ≡ refund_request (answering 200) (caller (codes "tenant-a")) refund ∷ [])
    × (client sdk
          (orders_create_refund
            (answering 200)
            (caller (codes "tenant-a"))
            (codes "ord-1")
            (written (codes "10.00"))
            (codes "duplicate")
            (codes "tenant-a")
            (codes "key")).outcome
        ≡ failed (mcp_error (record { code = invalid_params; message = codes "no view" })))
malformed_reply-invalid_params_example =
    malformed_reply-invalid_params (answering 200) (caller (codes "tenant-a")) sdk (codes "ord-1")
      (written (codes "10.00")) (codes "duplicate") (codes "tenant-a") (codes "key") refund
      (answer 200) (codes "no view") refund_accepted own refl refl refl
