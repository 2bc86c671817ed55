-- ===== src/Mcp/Middleware.antt =====
-- transports/sse.py: the middleware that binds the caller's identity or refuses the request. PyJWT
-- is a parameter.
pub mod Scoped
mod Tests
use arush_adabala_tax_liabil.Prelude.{
  ℕ, zero, suc, ◌+◌, ◌-◌, ◌*◌, ◌/◌, ◌%◌, ◌≤◌, ◌<◌, min, String, ◌≡◌, refl, sym, ap, ◌∙◌, ◌≢◌, ◌↔◌,
  ◌⊎◌, inl, inr, Bool, true, false, not, ◌&&◌, ◌||◌, Option, none, some, List, [], ◌∷◌, ◌++◌, map,
  arith, ltb, leb, if◌then◌else◌, Bool-cases, Option-cases, leb→le, lt→ltb, Eq, ◌==◌, ==_refl,
  length, take, get_elem?, length-append, length-take, length-map, any, All, All-append, All-take,
  contains, Exc, Result, ok, raised, bind, bind-eq-ok, Result-cases, ok_injective, ok_or,
  budget_exceeded, value_error, key_error, type_error, runtime_error, timeout_error,
  validation_error, dependency_unavailable, string_eq, nat_eq, list_eq, graph_recursion,
  http_timeout, http_error, cancelled, other,
}
use arush_adabala_tax_liabil.Prelude.Text.{Text, codes}
use arush_adabala_tax_liabil.Prelude.Dict.{get_or, lookup}
use arush_adabala_tax_liabil.Mcp.Errors.{status_to_code, default_code}
use arush_adabala_tax_liabil.Mcp.Tenancy.{Identity, set_request_identity, parse_bearer}

abbrev pub unauthorized_code : ℕ
unauthorized_code = get_or (lookup 401 status_to_code) default_code

-- What PyJWT says of a token: its claims, of which one is read, or one of its errors.
pub data Verdict : Type 0 where
  claims : Option Text → Verdict
  jwt_error : Verdict

pub data Answered (A : Type 0) : Type 0 where
  served : A → Answered A
  unauthorized : ℕ → Text → Answered A

unfoldable pub refuse : {A : Type 0} → Text → Answered A
refuse message = unauthorized unauthorized_code message

-- `_validate` without a JWKS client is not called, and the tenant stays empty.
unfoldable pub tenant_of : Option (Text → Verdict) → Text → Option Text
tenant_of none token = some []
tenant_of (some decode) token = elim (decode token) [
  | claims tenant_id ↦ some (get_or tenant_id [])
  | jwt_error ↦ none
]

unfoldable pub bound : {A : Type 0} → (Identity → A) → Text → Option Text → Answered A
bound app token none = refuse (codes "bearer token rejected")
bound app token (some tenant) = served (app (set_request_identity token tenant))

unfoldable pub authenticated :
    {A : Type 0} → Option (Text → Verdict) → (Identity → A) → Text → Answered A
authenticated jwks app [] = refuse (codes "missing bearer token")
authenticated jwks app (c ∷ token) = bound app (c ∷ token) (tenant_of jwks (c ∷ token))

-- An HTTP request with its `Authorization` header.
unfoldable pub bearer_middleware :
    {A : Type 0} → Option (Text → Verdict) → (Identity → A) → Option Text → Answered A
bearer_middleware jwks app header = authenticated jwks app (parse_bearer header)
