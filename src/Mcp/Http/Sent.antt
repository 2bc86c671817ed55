-- ===== src/Mcp/Http/Sent.antt =====
-- The requests that leave a tool behind `observe`, and the headers that `auth_headers` gives them.
use arush_adabala_tax_liabil.Prelude.{
  ℕ, String, ◌≡◌, refl, ◌∙◌, ◌≢◌, ◌⊎◌, inl, inr, true, false, some, List, [], ◌∷◌, ◌++◌, arith,
  Bool-cases, ◌==◌, All, string_eq, nat_eq, list_eq,
}
use arush_adabala_tax_liabil.Prelude.Text.{Text, codes}
use arush_adabala_tax_liabil.Prelude.Dict.{lookup}
use arush_adabala_tax_liabil.Mcp.Errors.{map_http, mcp_error, Failure, Outcome, done, failed}
use arush_adabala_tax_liabil.Mcp.Tenancy.{Identity, cross_tenant_claim, bearer_token}
use arush_adabala_tax_liabil.Mcp.Observability.{
  Span, Ran, Observed, initial_span, guarded_body, observe,
}
use arush_adabala_tax_liabil.Mcp.Observability.Lines.{observe_foreign}
use arush_adabala_tax_liabil.Mcp.Http.{Request, Response, settle, unlogged}

-- The request is the caller's own: their token, the tenant of the call, and a claim that is unknown or
-- that tenant.
abbrev pub Scoped : {F : Type 0} → Identity → Text → Text → Request F → Type 0
Scoped who configured tenant_id request =
    (lookup "Authorization" request.headers ≡ some (codes "Bearer " ++ bearer_token who configured))
    × (lookup "X-Tenant" request.headers ≡ some tenant_id)
    × ((who.request_tenant ≡ []) ⊎ (who.request_tenant ≡ tenant_id))

pub claim_agrees :
    (who : Identity) (tenant_id : Text)
    → cross_tenant_claim who tenant_id ≡ []
    → (who.request_tenant ≡ []) ⊎ (who.request_tenant ≡ tenant_id)
unfolding cross_tenant_claim
claim_agrees who tenant_id h = elim (Bool-cases (who.request_tenant == [])) [
  | inl e ↦ inl (((list_eq {A = ℕ}).beq_iff who.request_tenant []).0 e)
  | inr e ↦ elim (Bool-cases (who.request_tenant == tenant_id)) [
    | inl f ↦ inr (((list_eq {A = ℕ}).beq_iff who.request_tenant tenant_id).0 f)
    | inr f ↦ inl (ground arith)
  ]
]

List-cases : (t : Text) → (t ≡ []) ⊎ (t ≢ [])
List-cases [] = inl refl
List-cases (c ∷ t) = inr (λ h. cc)

observe_agreed :
    {Q A : Type 0} (who : Identity) (tool : String) (tenant_id : Text) (body : Span → Ran Q A)
    → cross_tenant_claim who tenant_id ≡ []
    → (observe who tool tenant_id body).sent ≡ (body initial_span).sent
unfolding observe guarded_body
observe_agreed who tool tenant_id body h = rw h refl

-- The one request `q`, and none under a foreign claim.
abbrev pub Sends : {Q : Type 0} → Identity → Text → Q → List Q → Type 0
Sends who tenant_id q sent =
    ((sent ≡ []) × (cross_tenant_claim who tenant_id ≢ []))
    ⊎ ((sent ≡ q ∷ []) × ((who.request_tenant ≡ []) ⊎ (who.request_tenant ≡ tenant_id)))

pub observe-Sends :
    {Q A : Type 0} (who : Identity) (tool : String) (tenant_id : Text) (body : Span → Ran Q A)
    (q : Q)
    → (body initial_span).sent ≡ q ∷ []
    → Sends who tenant_id q (observe who tool tenant_id body).sent
observe-Sends who tool tenant_id body q h = elim (List-cases (cross_tenant_claim who tenant_id)) [
  | inl e ↦ inr (observe_agreed who tool tenant_id body e ∙ h, claim_agrees who tenant_id e)
  | inr e ↦ inl ((observe_foreign who tool tenant_id body e).0, e)
]

pub Sends-All :
    {Q : Type 0} (P : Q → Type 0) (who : Identity) (tenant_id : Text) (q : Q) (sent : List Q)
    → Sends who tenant_id q sent
    → (((who.request_tenant ≡ []) ⊎ (who.request_tenant ≡ tenant_id)) → P q)
    → All P sent
Sends-All P who tenant_id q sent (inl (nothing, foreign)) f = rw nothing tt
Sends-All P who tenant_id q sent (inr (one, own)) f = rw one (f own, tt)

pub settle-sent :
    {F A : Type 0} (view : Text → Outcome A) (request : Request F) (span : Span)
    (o : Outcome Response)
    → (settle view request span o).sent ≡ request ∷ []
unfolding settle
settle-sent view request span (failed e) = refl
settle-sent view request span (done r) = refl

-- Arguments that are refused send nothing.
pub unlogged-sent :
    {Q A B : Type 0} (P : List Q → Type 0) (checked : Outcome A) (run : A → Observed Q B)
    → ((e : Failure) → checked ≡ failed e → P [])
    → ((args : A) → checked ≡ done args → P (run args).sent)
    → P (unlogged checked run).sent
unfolding unlogged
unlogged-sent P (failed e) run z f = z e refl
unlogged-sent P (done args) run z f = f args refl

module _ {F A : Type 0} (view : Text → Outcome A) (request : Request F) (span : Span) where
  pub settle-refused :
      (o : Outcome Response) (r : Response)
      → o ≡ done r
      → (r.status == 200) ≡ false
      → (settle view request span o).outcome ≡ failed (mcp_error (map_http r.status r.body))
  unfolding settle
  settle-refused o r h bad = rw h (rw bad refl)

  pub settle-viewed :
      (o : Outcome Response) (r : Response)
      → o ≡ done r
      → (r.status == 200) ≡ true
      → (settle view request span o).outcome ≡ view r.body
  unfolding settle
  settle-viewed o r h fine = rw h (rw fine refl)

pub unlogged-passed :
    {Q A B : Type 0} (checked : Outcome A) (run : A → Observed Q B) (args : A)
    → checked ≡ done args
    → unlogged checked run ≡ run args
unfolding unlogged
unlogged-passed checked run args h = rw h refl
