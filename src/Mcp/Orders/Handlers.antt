-- ===== src/Mcp/Orders/Handlers.antt =====
-- tools/orders.py: the handlers of the two tools, behind `observe`.
use arush_adabala_tax_liabil.Prelude.{Option, ◌++◌, string_eq, nat_eq, list_eq}
use arush_adabala_tax_liabil.Prelude.Text.{Text, codes}
use arush_adabala_tax_liabil.Prelude.Dict.{insert}
use arush_adabala_tax_liabil.Mcp.Errors.{Outcome}
use arush_adabala_tax_liabil.Mcp.Json.{Json, null, str, obj, end, field}
use arush_adabala_tax_liabil.Mcp.Money.{Decimal, Raw}
use arush_adabala_tax_liabil.Mcp.Money.Print.{show}
use arush_adabala_tax_liabil.Mcp.Tenancy.{Identity, auth_headers}
use arush_adabala_tax_liabil.Mcp.Observability.{text, Observed, observe}
use arush_adabala_tax_liabil.Mcp.Http.{http_get, http_post, Request, Response, settle, unlogged}
use arush_adabala_tax_liabil.Mcp.Orders.Args.{
  GetOrderArgs, CreateRefundArgs, get_order_args, create_refund_args,
}

-- What the server is run with: the client, the configured token, and the readers of a reply.
pub record Server (F V W : Type 0) : Type 0 where
  pub fetch : Request F → Outcome Response
  pub bearer_jwt : Text
  pub order_view : Text → Outcome V
  pub refund_view : Text → Outcome W
  pub to_decimal : Raw F → Option Decimal

unfoldable pub order_path : Text → Text
order_path order_id = codes "/orders/" ++ order_id

module _ {F V W : Type 0} (server : Server F V W) (who : Identity) where
  open server use {fetch, bearer_jwt, order_view, refund_view, to_decimal}

  unfoldable pub order_request : GetOrderArgs → Request F
  unfolding order_path
  order_request args = record {
    method = http_get;
    url = order_path args.order_id;
    headers = auth_headers who bearer_jwt args.tenant_id;
    json = null;
  }

  unfoldable pub get_order : GetOrderArgs → Observed (Request F) V
  get_order args =
      observe who "orders.get_order" args.tenant_id
        λ span. settle order_view (order_request args) span (fetch (order_request args))

  unfoldable pub orders_get_order : Text → Text → Observed (Request F) V
  orders_get_order order_id tenant_id = unlogged (get_order_args order_id tenant_id) get_order

  unfoldable pub refund_payload : CreateRefundArgs → Json F
  refund_payload args = obj (
      field "orderId" (str args.order_id) (
        field "amount" (str (show args.amount)) (
          field "reason" (str args.reason)
            (field "idempotencyKey" (str args.idempotency_key) end))))

  unfoldable pub refund_request : CreateRefundArgs → Request F
  unfolding order_path
  refund_request args = record {
    method = http_post;
    url = order_path args.order_id ++ codes "/refunds";
    headers =
        insert "Idempotency-Key" args.idempotency_key (auth_headers who bearer_jwt args.tenant_id);
    json = refund_payload args;
  }

  unfoldable pub create_refund : CreateRefundArgs → Observed (Request F) W
  create_refund args = observe who "orders.create_refund" args.tenant_id λ span.
      settle refund_view (refund_request args)
        (insert "idempotency_key" (text args.idempotency_key) span) (fetch (refund_request args))

  unfoldable pub orders_create_refund : Text → Raw F → Text → Text → Text → Observed (Request F) W
  orders_create_refund order_id amount reason tenant_id idempotency_key =
      unlogged (create_refund_args to_decimal order_id amount reason tenant_id idempotency_key)
        create_refund
