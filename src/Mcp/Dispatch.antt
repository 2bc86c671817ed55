-- ===== src/Mcp/Dispatch.antt =====
-- app.py: `call_tool` and the handler around the SDK's, which let the code of a structured error
-- reach the client. The SDK is the value that its own `call_tool` came to, and a function from what
-- this server's `call_tool` came to into what its request handler made of that.
pub mod Codes
mod Tests
use arush_adabala_tax_liabil.Prelude.{
  ℕ, zero, suc, ◌+◌, ◌-◌, ◌*◌, ◌/◌, ◌%◌, ◌≤◌, ◌<◌, min, String, ◌≡◌, refl, sym, ap, ◌∙◌, ◌≢◌, ◌↔◌,
  ◌⊎◌, inl, inr, Bool, true, false, not, ◌&&◌, ◌||◌, Option, none, some, List, [], ◌∷◌, ◌++◌, map,
  arith, ltb, leb, if◌then◌else◌, Bool-cases, Option-cases, leb→le, lt→ltb, Eq, ◌==◌, ==_refl,
  length, take, get_elem?, length-append, length-take, length-map, any, All, All-append, All-take,
  contains, Exc, Result, ok, raised, bind, bind-eq-ok, Result-cases, ok_injective, ok_or,
  budget_exceeded, value_error, key_error, type_error, runtime_error, timeout_error,
  validation_error, dependency_unavailable, string_eq, nat_eq, list_eq, graph_recursion,
  http_timeout, http_error, cancelled, other,
}
use arush_adabala_tax_liabil.Prelude.Int.{ℤ, negsuc}
use arush_adabala_tax_liabil.Mcp.Errors.{
  McpError, Failure, mcp_error, unvalidated, crashed, stopped, Outcome, done, failed,
}

-- What `super().call_tool` came to: a result, a `ToolError` with its cause, or another raise.
pub data Called (A : Type 0) : Type 0 where
  returned : A → Called A
  tool_error : Failure → Called A
  passed_on : Failure → Called A

-- INVALID_PARAMS of JSON-RPC, -32602
abbrev pub invalid_params : ℤ
invalid_params = negsuc 32601

-- The error that is raised, and recorded in `_PENDING_ERROR`, for a cause; `none` re-raises.
unfoldable pub structured : Failure → Option McpError
structured (mcp_error e) = some e
structured (unvalidated t) = some (record { code = invalid_params; message = t })
structured (crashed e) = none
structured stopped = none

unfoldable pub raise_structured :
    {A : Type 0} → Failure → Option McpError → Outcome A × Option McpError
raise_structured cause (some e) = (failed (mcp_error e), some e)
raise_structured cause none = (failed cause, none)

-- The outcome, and the pending error as the call leaves it, which the handler had set to `none`.
unfoldable pub call_tool : {A : Type 0} → Called A → Outcome A × Option McpError
call_tool (returned a) = (done a, none)
call_tool (tool_error cause) = raise_structured cause (structured cause)
call_tool (passed_on f) = (failed f, none)

unfoldable pub raise_pending : {S : Type 0} → Outcome S → Option McpError → Outcome S
raise_pending (failed f) pending = failed f
raise_pending (done result) none = done result
raise_pending (done result) (some e) = failed (mcp_error e)

unfoldable pub handler : {A S : Type 0} → (Outcome A → Outcome S) → Called A → Outcome S
handler original called =
    let (outcome, pending) = call_tool called in raise_pending (original outcome) pending
