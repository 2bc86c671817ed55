-- ===== src/Mcp/Observability.antt =====
-- observability.py: `observe` around one tool call, with the lines it logs. The duration on the
-- `end` line is a clock's and is left out.
pub mod Lines
use arush_adabala_tax_liabil.Prelude.{
  ℕ, zero, suc, ◌+◌, ◌-◌, ◌*◌, ◌/◌, ◌%◌, ◌≤◌, ◌<◌, min, String, ◌≡◌, refl, sym, ap, ◌∙◌, ◌≢◌, ◌↔◌,
  ◌⊎◌, inl, inr, Bool, true, false, not, ◌&&◌, ◌||◌, Option, none, some, List, [], ◌∷◌, ◌++◌, map,
  arith, ltb, leb, if◌then◌else◌, Bool-cases, Option-cases, leb→le, lt→ltb, Eq, ◌==◌, ==_refl,
  length, take, get_elem?, length-append, length-take, length-map, any, All, All-append, All-take,
  contains, Exc, Result, ok, raised, bind, bind-eq-ok, Result-cases, ok_injective, ok_or,
  budget_exceeded, value_error, key_error, type_error, runtime_error, timeout_error,
  validation_error, dependency_unavailable, string_eq, nat_eq, list_eq, graph_recursion,
  http_timeout, http_error, cancelled, other,
}
use arush_adabala_tax_liabil.Prelude.Int.{ℤ, pos}
use arush_adabala_tax_liabil.Prelude.Text.{Text, codes}
use arush_adabala_tax_liabil.Prelude.Dict.{Dict}
use arush_adabala_tax_liabil.Mcp.Errors.{
  McpError, tenant_mismatch, Failure, mcp_error, unvalidated, crashed, stopped, Outcome, done,
  failed,
}
use arush_adabala_tax_liabil.Mcp.Tenancy.{Identity, cross_tenant_claim}

abbrev pub cost_source_none : Text
cost_source_none = codes "none"

abbrev pub cost_source_proxy : Text
cost_source_proxy = codes "proxy-header"

abbrev pub cost_source_unpriced : Text
cost_source_unpriced = codes "unpriced"

-- a value of an extra field of the `end` line
pub data Extra : Type 0 where
  number : ℤ → Extra
  text : Text → Extra
  switch : Bool → Extra

abbrev pub Span : Type 0
Span = Dict String Extra

-- How an `end` line says that the call ended: with no mark, `mcp_error_code`, or `error_type`.
pub data Ending : Type 0 where
  clean : Ending
  with_code : ℤ → Ending
  with_type : Failure → Ending

pub data Line : Type 0 where
  invoke_start : String → Text → Line
  invoke_end : String → Text → Ending → Span → Line

-- What a handler's body did: how it ended, the span as it left it, and the requests it made.
pub record Ran (Q A : Type 0) : Type 0 where
  pub outcome : Outcome A
  pub span : Span
  pub sent : List Q

-- What a caller and the operator see of a tool call.
pub record Observed (Q A : Type 0) : Type 0 where
  pub outcome : Outcome A
  pub lines : List Line
  pub sent : List Q

abbrev pub initial_span : Span
initial_span = ("cost_usd_minor", number (pos 0)) ∷ ("cost_source", text cost_source_none) ∷ []

-- The clauses of the `try`; a cancellation is no `Exception`, and passes both.
unfoldable pub end_lines : {A : Type 0} → String → Text → Span → Outcome A → List Line
end_lines tool tenant_id extra (done a) = invoke_end tool tenant_id clean extra ∷ []
end_lines tool tenant_id extra (failed (mcp_error e)) =
    invoke_end tool tenant_id (with_code e.code) extra ∷ []
end_lines tool tenant_id extra (failed (unvalidated t)) =
    invoke_end tool tenant_id (with_type (unvalidated t)) extra ∷ []
end_lines tool tenant_id extra (failed (crashed e)) =
    invoke_end tool tenant_id (with_type (crashed e)) extra ∷ []
end_lines tool tenant_id extra (failed stopped) = []

-- the body, which runs only where the claim is empty
unfoldable pub guarded_body : {Q A : Type 0} → Text → Text → (Span → Ran Q A) → Ran Q A
guarded_body [] tenant_id body = body initial_span
guarded_body (c ∷ claimed) tenant_id body = record {
  outcome = failed (mcp_error (tenant_mismatch (c ∷ claimed) tenant_id));
  span = initial_span;
  sent = [];
}

unfoldable pub observe : {Q A : Type 0} → Identity → String → Text → (Span → Ran Q A) → Observed Q A
unfolding guarded_body end_lines
observe who tool tenant_id body =
    let ran = guarded_body (cross_tenant_claim who tenant_id) tenant_id body in
    record {
      outcome = ran.outcome;
      lines = invoke_start tool tenant_id ∷ end_lines tool tenant_id ran.span ran.outcome;
      sent = ran.sent;
    }
