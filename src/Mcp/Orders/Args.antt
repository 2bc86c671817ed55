-- ===== src/Mcp/Orders/Args.antt =====
-- tools/orders.py: `GetOrderArgs` and `CreateRefundArgs` with their constraints. The idempotency key is
-- the text of a UUID that has been parsed.
use arush_adabala_tax_liabil.Prelude.{
  ℕ, Bool, true, false, not, ◌&&◌, Option, none, some, List, [], ◌∷◌, ltb, leb, if◌then◌else◌,
  length, contains, Result, ok, raised, value_error, string_eq, nat_eq, list_eq,
}
use arush_adabala_tax_liabil.Prelude.Text.{Text, codes}
use arush_adabala_tax_liabil.Mcp.Errors.{
  unvalidated, failure_of, Outcome, done, failed, bind_outcome,
}
use arush_adabala_tax_liabil.Mcp.Money.{Decimal, Raw, enforce_money_scale, reject_inexact_binary}

-- what the pattern admits
abbrev pub tenants : List Text
tenants = codes "tenant-a" ∷ codes "tenant-b" ∷ codes "tenant-c" ∷ []

abbrev pub within : ℕ → ℕ → ℕ → Bool
within lo hi n = leb lo n && leb n hi

pub record GetOrderArgs : Type 0 where
  pub order_id : Text
  pub tenant_id : Text

pub record CreateRefundArgs : Type 0 where
  pub order_id : Text
  pub amount : Decimal
  pub reason : Text
  pub tenant_id : Text
  pub idempotency_key : Text

-- A field that does not meet its constraint refuses the whole model.
abbrev pub check : Bool → Outcome (Unit {0})
check true = done tt
check false = failed (unvalidated [])

unfoldable pub valid_order : Text → Text → Bool
valid_order order_id tenant_id = within 1 64 (length order_id) && contains tenant_id tenants

unfoldable pub get_order_args : Text → Text → Outcome GetOrderArgs
get_order_args order_id tenant_id =
    bind_outcome (check (valid_order order_id tenant_id))
      λ _. done (record { order_id = order_id; tenant_id = tenant_id })

-- A validator's `ValueError` is a `ValidationError` of the model; its other raises are not.
abbrev pub validated : {A : Type 0} → Result A → Outcome A
validated (ok a) = done a
validated (raised value_error) = failed (unvalidated [])
validated (raised e) = failed (failure_of e)

-- The field's bound, and then its scale.
unfoldable pub positive_scaled : Option Decimal → Outcome Decimal
positive_scaled none = failed (unvalidated [])
positive_scaled (some d) =
    if not d.negative && ltb 0 d.coefficient
    then validated (enforce_money_scale d)
    else failed (unvalidated [])

unfoldable pub amount_of : {F : Type 0} → (Raw F → Option Decimal) → Raw F → Outcome Decimal
amount_of to_decimal raw =
    bind_outcome (validated (reject_inexact_binary raw)) λ value. positive_scaled (to_decimal value)

-- the other fields, around an amount that passed
unfoldable pub refund_model : Text → Text → Text → Text → Decimal → Outcome CreateRefundArgs
refund_model order_id reason tenant_id idempotency_key d =
    bind_outcome (check (valid_order order_id tenant_id && within 4 200 (length reason))) λ _.
      done (record {
        order_id = order_id;
        amount = d;
        reason = reason;
        tenant_id = tenant_id;
        idempotency_key = idempotency_key;
      })

unfoldable pub create_refund_args :
    {F : Type 0}
    → (Raw F → Option Decimal)
    → Text
    → Raw F
    → Text
    → Text
    → Text
    → Outcome CreateRefundArgs
create_refund_args to_decimal order_id amount reason tenant_id idempotency_key =
    bind_outcome (amount_of to_decimal amount)
      (refund_model order_id reason tenant_id idempotency_key)
