-- ===== src/Mcp/Http.antt =====
-- The calls that the tools make over the shared client (tools/orders.py, tools/llm.py), and what a
-- handler does with the reply. httpx is a parameter of the handlers.
pub mod Sent
use arush_adabala_tax_liabil.Prelude.{
  ℕ, zero, suc, ◌+◌, ◌-◌, ◌*◌, ◌/◌, ◌%◌, ◌≤◌, ◌<◌, min, String, ◌≡◌, refl, sym, ap, ◌∙◌, ◌≢◌, ◌↔◌,
  ◌⊎◌, inl, inr, Bool, true, false, not, ◌&&◌, ◌||◌, Option, none, some, List, [], ◌∷◌, ◌++◌, map,
  arith, ltb, leb, if◌then◌else◌, Bool-cases, Option-cases, leb→le, lt→ltb, Eq, ◌==◌, ==_refl,
  length, take, get_elem?, length-append, length-take, length-map, any, All, All-append, All-take,
  contains, Exc, Result, ok, raised, bind, bind-eq-ok, Result-cases, ok_injective, ok_or,
  budget_exceeded, value_error, key_error, type_error, runtime_error, timeout_error,
  validation_error, dependency_unavailable, string_eq, nat_eq, list_eq, graph_recursion,
  http_timeout, http_error, cancelled, other,
}
use arush_adabala_tax_liabil.Prelude.Int.{ℤ, pos}
use arush_adabala_tax_liabil.Prelude.Text.{Text}
use arush_adabala_tax_liabil.Prelude.Dict.{Dict, insert}
use arush_adabala_tax_liabil.Mcp.Errors.{map_http, Failure, mcp_error, Outcome, done, failed}
use arush_adabala_tax_liabil.Mcp.Json.{Json}
use arush_adabala_tax_liabil.Mcp.Observability.{Extra, number, Span, Ran, Observed}

pub data Method : Type 0 where
  http_get http_post : Method

pub record Request (F : Type 0) : Type 0 where
  pub method : Method
  pub url : Text
  pub headers : Dict String Text
  pub json : Json F

pub record Response : Type 0 where
  pub status : ℕ
  pub body : Text
  pub cost_header : Option Text

-- `span["http_status"]`, the mapping of a status, and the reading of the body
unfoldable pub settle :
    {F A : Type 0} → (Text → Outcome A) → Request F → Span → Outcome Response → Ran (Request F) A
settle view request span (failed e) = record {
  outcome = failed e;
  span = span;
  sent = request ∷ [];
}
settle view request span (done r) = record {
  outcome = if r.status == 200 then view r.body else failed (mcp_error (map_http r.status r.body));
  span = insert "http_status" (number (pos r.status)) span;
  sent = request ∷ [];
}

-- A tool that was handed refused arguments logs no line.
unfoldable pub unlogged : {Q A B : Type 0} → Outcome A → (A → Observed Q B) → Observed Q B
unlogged (failed e) run = record { outcome = failed e; lines = []; sent = [] }
unlogged (done args) run = run args
