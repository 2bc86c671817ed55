-- ===== src/Mcp/Orders/Tests.antt =====
-- A refund over the sample server.
use arush_adabala_tax_liabil.Prelude.{string_eq, nat_eq, list_eq}
use arush_adabala_tax_liabil.Prelude.Text.{codes}
use arush_adabala_tax_liabil.Mcp.Money.{written}
use arush_adabala_tax_liabil.Mcp.Samples.{answering, caller}
use arush_adabala_tax_liabil.Mcp.Orders.Args.{create_refund_args}
use arush_adabala_tax_liabil.Mcp.Orders.Handlers.{orders_create_refund}
use arush_adabala_tax_liabil.Mcp.Orders.Requests.{Refunded, refund-sent}

refund-sent_example :
    Refunded
      (answering 200)
      (caller (codes "tenant-a"))
      (create_refund_args
        (answering 200).to_decimal
        (codes "ord-1")
        (written (codes "10.00"))
        (codes "duplicate")
        (codes "tenant-a")
        (codes "key"))
      (codes "ord-1")
      (written (codes "10.00"))
      (codes "duplicate")
      (codes "tenant-a")
      (codes "key")
      (orders_create_refund
        (answering 200)
        (caller (codes "tenant-a"))
        (codes "ord-1")
        (written (codes "10.00"))
        (codes "duplicate")
        (codes "tenant-a")
        (codes "key")).sent
refund-sent_example =
    refund-sent (answering 200) (caller (codes "tenant-a")) (codes "ord-1")
      (written (codes "10.00")) (codes "duplicate") (codes "tenant-a") (codes "key")
