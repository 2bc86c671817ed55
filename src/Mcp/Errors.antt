-- ===== src/Mcp/Errors.antt =====
-- errors.py: the table from an upstream status to the code of an `McpError`, and the three ways to
-- build one. A call of the server returns or fails: with such an error, with pydantic's
-- `ValidationError` and its text, with another exception, or by a cancellation.
use arush_adabala_tax_liabil.Prelude.{ℕ, [], ◌∷◌, take, Exc, string_eq, nat_eq, list_eq, cancelled}
use arush_adabala_tax_liabil.Prelude.Int.{ℤ, pos}
use arush_adabala_tax_liabil.Prelude.Text.{Text, codes}
use arush_adabala_tax_liabil.Prelude.Dict.{Dict, get_or, lookup}

abbrev pub max_message_chars : ℕ
max_message_chars = 200

abbrev pub rag_timeout_code : ℕ
rag_timeout_code = 5040

abbrev pub default_code : ℕ
default_code = 5030

abbrev pub status_to_code : Dict ℕ ℕ
status_to_code =
    (400, 4001) ∷ (401, 4030) ∷ (403, 4030) ∷ (404, 4040) ∷ (409, 4090) ∷ (429, 4290) ∷ []

pub record McpError : Type 0 where
  pub code : ℤ
  pub message : Text

unfoldable pub map_http : ℕ → Text → McpError
map_http status body = record {
  code = pos (get_or (lookup status status_to_code) default_code);
  message = take max_message_chars body;
}

unfoldable pub rag_timeout : Text → McpError
rag_timeout message = record {
  code = pos rag_timeout_code;
  message = take max_message_chars message;
}

-- The two tenants are not used.
unfoldable pub tenant_mismatch : Text → Text → McpError
tenant_mismatch claimed requested = record {
  code = pos (get_or (lookup 403 status_to_code) default_code);
  message = codes "bearer token is scoped to a different tenant than this call acts on";
}

pub data Failure : Type 0 where
  mcp_error : McpError → Failure
  unvalidated : Text → Failure
  crashed : Exc → Failure
  stopped : Failure

pub data Outcome (A : Type 0) : Type 0 where
  done : A → Outcome A
  failed : Failure → Outcome A

-- A raise of Python as a failure of the call.
unfoldable pub failure_of : Exc → Failure
failure_of cancelled = stopped
failure_of e = crashed e

abbrev pub bind_outcome : {A B : Type 0} → Outcome A → (A → Outcome B) → Outcome B
bind_outcome (done a) f = f a
bind_outcome (failed e) f = failed e
