-- ===== src/Mcp/Reports/Tests.antt =====
-- One call of each tool.
use arush_adabala_tax_liabil.Prelude.{[], string_eq, nat_eq, list_eq}
use arush_adabala_tax_liabil.Prelude.Text.{codes}
use arush_adabala_tax_liabil.Mcp.Observability.Lines.{Reported}
use arush_adabala_tax_liabil.Mcp.Orders.Args.{GetOrderArgs, CreateRefundArgs}
use arush_adabala_tax_liabil.Mcp.Orders.Handlers.{get_order, create_refund}
use arush_adabala_tax_liabil.Mcp.Llm.{run_chat}
use arush_adabala_tax_liabil.Mcp.Rag.{RagArgs, retrieve_and_generate}
use arush_adabala_tax_liabil.Mcp.Reports.{tools-Reported}
use arush_adabala_tax_liabil.Mcp.Samples.{ten, answering, caller, reader, proxy, sidecar, chat_call}

abbrev got : GetOrderArgs
got = record { order_id = codes "ord-1"; tenant_id = codes "tenant-a" }

abbrev refunded : CreateRefundArgs
refunded = record {
  order_id = codes "ord-1";
  amount = ten;
  reason = codes "duplicate";
  tenant_id = codes "tenant-a";
  idempotency_key = codes "key";
}

abbrev asked : RagArgs
asked = record { question = codes "what"; tenant_id = codes "tenant-a"; top_k = 6 }

tools-Reported_example :
    Reported "orders.get_order" (codes "tenant-a") (get_order (answering 429) (caller []) got)
    × Reported "orders.create_refund"
        (codes "tenant-a")
        (create_refund (answering 429) (caller []) refunded)
    × Reported "llm.chat" (codes "tenant-a") (run_chat reader proxy (caller []) chat_call)
    × Reported "rag.retrieve_and_generate"
        (codes "tenant-a")
        (retrieve_and_generate reader sidecar (codes "late") (caller []) asked)
tools-Reported_example =
    tools-Reported (answering 429) reader proxy sidecar (codes "late") (caller []) got refunded
      chat_call asked
