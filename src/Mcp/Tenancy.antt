-- ===== src/Mcp/Tenancy.antt =====
-- tenancy.py: the caller's token and tenant claim, the two context variables as a record.
pub mod Bearer
mod Tests
use arush_adabala_tax_liabil.Prelude.{
  ℕ, zero, suc, ◌+◌, ◌-◌, ◌*◌, ◌/◌, ◌%◌, ◌≤◌, ◌<◌, min, String, ◌≡◌, refl, sym, ap, ◌∙◌, ◌≢◌, ◌↔◌,
  ◌⊎◌, inl, inr, Bool, true, false, not, ◌&&◌, ◌||◌, Option, none, some, List, [], ◌∷◌, ◌++◌, map,
  arith, ltb, leb, if◌then◌else◌, Bool-cases, Option-cases, leb→le, lt→ltb, Eq, ◌==◌, ==_refl,
  length, take, get_elem?, length-append, length-take, length-map, any, All, All-append, All-take,
  contains, Exc, Result, ok, raised, bind, bind-eq-ok, Result-cases, ok_injective, ok_or,
  budget_exceeded, value_error, key_error, type_error, runtime_error, timeout_error,
  validation_error, dependency_unavailable, string_eq, nat_eq, list_eq, graph_recursion,
  http_timeout, http_error, cancelled, other,
}
use arush_adabala_tax_liabil.Prelude.Text.{Text, codes}
use arush_adabala_tax_liabil.Prelude.Dict.{Dict}

pub record Identity : Type 0 where
  pub request_jwt : Text
  pub request_tenant : Text

-- the defaults of the two variables, as the stdio transport leaves them
abbrev pub no_identity : Identity
no_identity = record { request_jwt = []; request_tenant = [] }

unfoldable pub set_request_identity : Text → Text → Identity
set_request_identity jwt_token tenant_id = record {
  request_jwt = jwt_token;
  request_tenant = tenant_id;
}

-- `a or b` of two texts
abbrev pub or_text : Text → Text → Text
or_text [] b = b
or_text (c ∷ a) b = c ∷ a

-- The claim where there is one and it is another tenant than `requested`, else the empty text.
unfoldable pub cross_tenant_claim : Identity → Text → Text
cross_tenant_claim who requested =
    if who.request_tenant == [] || who.request_tenant == requested then [] else who.request_tenant

unfoldable pub bearer_token : Identity → Text → Text
bearer_token who configured = or_text who.request_jwt configured

unfoldable pub auth_headers : Identity → Text → Text → Dict String Text
unfolding bearer_token
auth_headers who configured tenant_id =
    ("Authorization", codes "Bearer " ++ bearer_token who configured) ∷ ("X-Tenant", tenant_id) ∷ []

-- `header.partition(" ")`: what stands before the first space, and behind it
unfoldable pub partition_space : Text → Text × Text
partition_space [] = ([], [])
partition_space (c ∷ s) =
    let (scheme, token) = partition_space s in if c == 32 then ([], s) else (c ∷ scheme, token)

-- `str.lower` on the letters that can spell the scheme
unfoldable pub lower : ℕ → ℕ
lower c = if leb 65 c && leb c 90 then c + 32 else c

-- The white space of Latin-1, which header values are decoded from.
unfoldable pub is_space : ℕ → Bool
is_space c = (leb 9 c && leb c 13) || (leb 28 c && leb c 32) || c == 133 || c == 160

unfoldable pub drop_spaces : Text → Text
drop_spaces [] = []
drop_spaces (c ∷ s) = let rest = drop_spaces s in if is_space c then rest else c ∷ s

-- white space is dropped behind the last other character
unfoldable pub drop_last_spaces : Text → Text
drop_last_spaces [] = []
drop_last_spaces (c ∷ s) = elim (drop_last_spaces s) [
  | [] ↦ if is_space c then [] else c ∷ []
  | d ∷ t ↦ c ∷ d ∷ t
]

unfoldable pub strip : Text → Text
strip s = drop_last_spaces (drop_spaces s)

unfoldable pub parse_bearer : Option Text → Text
parse_bearer none = []
parse_bearer (some header) =
    let (scheme, token) = partition_space header in
    if map lower scheme == codes "bearer" then strip token else []
