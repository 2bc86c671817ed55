-- ===== src/Mcp/Middleware/Tests.antt =====
-- A header whose token claims one tenant, before calls for that tenant.
use arush_adabala_tax_liabil.Prelude.{Option, some, string_eq, nat_eq, list_eq}
use arush_adabala_tax_liabil.Prelude.Text.{Text, codes}
use arush_adabala_tax_liabil.Mcp.Money.{written}
use arush_adabala_tax_liabil.Mcp.Llm.{llm_chat}
use arush_adabala_tax_liabil.Mcp.Orders.Handlers.{orders_get_order, orders_create_refund}
use arush_adabala_tax_liabil.Mcp.Tenancy.{parse_bearer}
use arush_adabala_tax_liabil.Mcp.Middleware.{Verdict, claims, bearer_middleware}
use arush_adabala_tax_liabil.Mcp.Middleware.Scoped.{Guarded, served_tools-Guarded}
use arush_adabala_tax_liabil.Mcp.Samples.{answering, reader, proxy, chat_call}

abbrev decode : Text → Verdict
decode token = claims (some (codes "tenant-a"))

abbrev header : Option Text
header = some (codes "Bearer abc")

served_tools-Guarded_example :
    Guarded decode (parse_bearer header) (codes "tenant-a") (
      bearer_middleware
        (some decode)
        (λ who. orders_get_order (answering 200) who (codes "ord-1") (codes "tenant-a"))
        header)
    × Guarded decode (parse_bearer header) (codes "tenant-a") (
        bearer_middleware
          (some decode)
          (λ who.
            orders_create_refund
              (answering 200)
              who
              (codes "ord-1")
              (written (codes "10.00"))
              (codes "duplicate")
              (codes "tenant-a")
              (codes "key"))
          header)
    × Guarded decode (parse_bearer header) (codes "tenant-a") (
        bearer_middleware
          (some decode)
          (λ who. llm_chat reader proxy who chat_call.messages 256 (codes "tenant-a"))
          header)
served_tools-Guarded_example =
    served_tools-Guarded (answering 200) reader proxy decode header (codes "tenant-a")
      (codes "ord-1") (written (codes "10.00")) (codes "duplicate") (codes "key") chat_call.messages
      256
