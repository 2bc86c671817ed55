-- ===== src/Mcp/Samples.antt =====
-- Sample data: a server over a service that answers every request with one response, its callers, a
-- proxy and a sidecar of the same kind, and an SDK.
use arush_adabala_tax_liabil.Prelude.{
  ℕ, refl, Bool, true, false, none, some, List, [], ◌∷◌, ltb, ok, string_eq, nat_eq, list_eq,
}
use arush_adabala_tax_liabil.Prelude.Int.{negsuc}
use arush_adabala_tax_liabil.Prelude.Text.{Text, codes}
use arush_adabala_tax_liabil.Mcp.Errors.{
  mcp_error, crashed, stopped, Outcome, done, failed, unvalidated,
}
use arush_adabala_tax_liabil.Mcp.Json.{str, arr, Fields, field, end}
use arush_adabala_tax_liabil.Mcp.Money.{Decimal}
use arush_adabala_tax_liabil.Mcp.Tenancy.{Identity}
use arush_adabala_tax_liabil.Mcp.Http.{Response}
use arush_adabala_tax_liabil.Mcp.Orders.Handlers.{Server}
use arush_adabala_tax_liabil.Mcp.Llm.{Reader, Proxy, ChatArgs, user}
use arush_adabala_tax_liabil.Mcp.Rag.{Sidecar}
use arush_adabala_tax_liabil.Mcp.Rag.Citations.{Hit, hit_items}
use arush_adabala_tax_liabil.Mcp.Dispatch.{Called, returned, tool_error, passed_on}
use arush_adabala_tax_liabil.Mcp.Dispatch.Codes.{Sdk}

abbrev pub ten : Decimal
ten = record { negative = false; coefficient = 1000; exponent = negsuc 1 }

abbrev pub answering : ℕ → Server ℕ Text Text
answering status = record {
  fetch = λ q. done (record { status = status; body = codes "body"; cost_header = none });
  bearer_jwt = codes "own";
  order_view = λ t. done t;
  refund_view = λ t. failed (unvalidated (codes "no view"));
  to_decimal = λ raw. some ten;
}

abbrev pub caller : Text → Identity
caller tenant = record { request_jwt = codes "abc"; request_tenant = tenant }

abbrev pub reader : Reader ℕ
reader = record {
  render = λ v. codes "None";
  truthy = λ x. ltb 0 x;
  of_float = λ x. none;
  of_text = λ t. some (record { negative = false; coefficient = 42; exponent = negsuc 3 });
}

abbrev pub limited : Response
limited = record { status = 429; body = codes "slow down"; cost_header = some (codes "0.0042") }

abbrev pub proxy : Proxy ℕ
proxy = record {
  fetch = λ q. done limited;
  bearer_jwt = codes "own";
  llm_proxy_url = codes "https://llm-proxy.internal";
  llm_proxy_chat_path = codes "/v1/completions";
  decode = λ t. none;
}

abbrev pub chat_call : ChatArgs
chat_call = record {
  messages = record { role = user; content = codes "hello" } ∷ [];
  max_tokens = 256;
  tenant_id = codes "tenant-a";
}

abbrev pub hits : List (Hit ℕ)
hits =
    record { document = codes "policy-p2"; ordinal = 3; score = 9 }
    ∷ record { document = codes "filing"; ordinal = 0; score = 7 }
    ∷ []

abbrev pub result : Fields ℕ
result = field "text" (str (codes "answer")) (field "citations" (arr (hit_items hits)) end)

abbrev pub sidecar : Sidecar ℕ
sidecar = record {
  of_whole = λ n. ok 0;
  read = λ t. none;
  zero_score = 0;
  rag_fn = λ question tenant_id top_k. ok result;
}

abbrev pub wrap : {A : Type 0} → Outcome A → Called A
wrap (done a) = returned a
wrap (failed stopped) = passed_on stopped
wrap (failed (mcp_error e)) = tool_error (mcp_error e)
wrap (failed (unvalidated t)) = tool_error (unvalidated t)
wrap (failed (crashed e)) = tool_error (crashed e)

-- the low-level handler: an exception becomes a result marked as an error
abbrev pub absorb : {A : Type 0} → Outcome A → Outcome Bool
absorb (done a) = done true
absorb (failed stopped) = failed stopped
absorb (failed (mcp_error e)) = done false
absorb (failed (unvalidated t)) = done false
absorb (failed (crashed e)) = done false

abbrev pub sdk : Sdk Text Bool
sdk = record {
  wrap = wrap;
  wrapped = λ e. refl;
  wrapped_invalid = λ t. refl;
  original = absorb;
  absorbed = λ e. (false, refl);
}
