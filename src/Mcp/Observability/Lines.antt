-- ===== src/Mcp/Observability/Lines.antt =====
-- observability.py: the lines of every exit path of `observe`.
use arush_adabala_tax_liabil.Prelude.{
  String, ◌≡◌, refl, ◌≢◌, ◌⊎◌, inl, inr, Option, none, some, List, [], ◌∷◌, arith, string_eq,
  nat_eq, list_eq,
}
use arush_adabala_tax_liabil.Prelude.Text.{Text}
use arush_adabala_tax_liabil.Prelude.Dict.{lookup, insert, lookup-insert}
use arush_adabala_tax_liabil.Mcp.Errors.{
  tenant_mismatch, mcp_error, unvalidated, crashed, stopped, Outcome, done, failed,
}
use arush_adabala_tax_liabil.Mcp.Tenancy.{Identity, cross_tenant_claim}
use arush_adabala_tax_liabil.Mcp.Observability.{
  Extra, Span, Ending, clean, with_code, with_type, invoke_start, invoke_end, Ran, Observed,
  initial_span, end_lines, guarded_body, observe,
}

-- Both cost fields stand in the span.
abbrev pub Priced : Span → Type 0
Priced span = (lookup "cost_usd_minor" span ≢ none) × (lookup "cost_source" span ≢ none)

pub insert-Priced : (k : String) (v : Extra) (span : Span) → Priced span → Priced (insert k v span)
insert-Priced k v span h =
    ground (
      arith,
      lookup-insert k "cost_usd_minor" v span,
      lookup-insert k "cost_source" v span,
      h.0,
      h.1,
    )

pub initial-Priced : Priced initial_span
unfolding lookup
initial-Priced = ground arith

-- The mark that an outcome leaves on the `end` line; a cancellation leaves no line.
abbrev pub ending_of : {A : Type 0} → Outcome A → Option Ending
ending_of (done a) = some clean
ending_of (failed (mcp_error e)) = some (with_code e.code)
ending_of (failed (unvalidated t)) = some (with_type (unvalidated t))
ending_of (failed (crashed e)) = some (with_type (crashed e))
ending_of (failed stopped) = none

-- A `start` line, and an `end` line with the outcome's mark and both cost fields, or with no `end`
-- line after a cancellation.
abbrev pub Reported : {Q A : Type 0} → String → Text → Observed Q A → Type 0
Reported tool tenant_id seen =
    ((mark : Ending) × (span : Span) × (ending_of seen.outcome ≡ some mark)
      × Priced span
      × (seen.lines ≡ invoke_start tool tenant_id ∷ invoke_end tool tenant_id mark span ∷ []))
    ⊎ ((seen.outcome ≡ failed stopped) × (seen.lines ≡ invoke_start tool tenant_id ∷ []))

module _ {Q A : Type 0} (tool : String) (tenant_id : Text) where
  end_lines-Reported :
      (span : Span) (outcome : Outcome A) (sent : List Q)
      → Priced span
      → Reported tool tenant_id (record {
        outcome = outcome;
        lines = invoke_start tool tenant_id ∷ end_lines tool tenant_id span outcome;
        sent = sent;
      })
  unfolding end_lines
  end_lines-Reported span (done a) sent h = inl (_, span, refl, h, refl)
  end_lines-Reported span (failed (mcp_error e)) sent h = inl (_, span, refl, h, refl)
  end_lines-Reported span (failed (unvalidated t)) sent h = inl (_, span, refl, h, refl)
  end_lines-Reported span (failed (crashed e)) sent h = inl (_, span, refl, h, refl)
  end_lines-Reported span (failed stopped) sent h = inr (refl, refl)

  guarded-Priced :
      (claim : Text) (body : Span → Ran Q A)
      → ((span : Span) → Priced span → Priced (body span).span)
      → Priced (guarded_body claim tenant_id body).span
  unfolding guarded_body
  guarded-Priced [] body h = h initial_span initial-Priced
  guarded-Priced (c ∷ claim) body h = initial-Priced

  -- a body that keeps the cost fields is reported, whoever calls
  pub observe-Reported :
      (who : Identity) (body : Span → Ran Q A)
      → ((span : Span) → Priced span → Priced (body span).span)
      → Reported tool tenant_id (observe who tool tenant_id body)
  unfolding observe
  observe-Reported who body h =
      let claim : Text = cross_tenant_claim who tenant_id in
      let ran : Ran Q A = guarded_body claim tenant_id body in
      end_lines-Reported ran.span ran.outcome ran.sent (guarded-Priced claim body h)

guarded_foreign :
    {Q A : Type 0} (claim tenant_id : Text) (body : Span → Ran Q A)
    → claim ≢ []
    → ((guarded_body claim tenant_id body).sent ≡ [])
      × ((guarded_body claim tenant_id body).outcome
          ≡ failed (mcp_error (tenant_mismatch claim tenant_id)))
unfolding guarded_body
guarded_foreign [] tenant_id body h = absurd (h refl)
guarded_foreign (c ∷ claim) tenant_id body h = (refl, refl)

-- A foreign claim: no body runs, and the caller has the code of a refused credential.
pub observe_foreign :
    {Q A : Type 0} (who : Identity) (tool : String) (tenant_id : Text) (body : Span → Ran Q A)
    → cross_tenant_claim who tenant_id ≢ []
    → ((observe who tool tenant_id body).sent ≡ [])
      × ((observe who tool tenant_id body).outcome
          ≡ failed (mcp_error (tenant_mismatch (cross_tenant_claim who tenant_id) tenant_id)))
unfolding observe
observe_foreign who tool tenant_id body h =
    guarded_foreign (cross_tenant_claim who tenant_id) tenant_id body h

-- Under a claim that agrees, the body's outcome and span are what is seen.
pub observe_own :
    {Q A : Type 0} (who : Identity) (tool : String) (tenant_id : Text) (body : Span → Ran Q A)
    → cross_tenant_claim who tenant_id ≡ []
    → observe who tool tenant_id body ≡ record {
      outcome = (body initial_span).outcome;
      lines =
          invoke_start tool tenant_id
          ∷ end_lines tool tenant_id (body initial_span).span (body initial_span).outcome;
      sent = (body initial_span).sent;
    }
unfolding observe guarded_body
observe_own who tool tenant_id body h = rw h refl
