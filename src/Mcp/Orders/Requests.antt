-- ===== src/Mcp/Orders/Requests.antt =====
-- tools/orders.py: the requests that the two tools send.
use arush_adabala_tax_liabil.Prelude.{
  ℕ, ◌≤◌, ◌<◌, ◌≡◌, refl, ap, ◌∙◌, ◌≢◌, ◌⊎◌, inl, inr, Bool, true, false, not, ◌&&◌, Option, none,
  some, List, [], ◌∷◌, ◌++◌, arith, ltb, Bool-cases, length, contains, Result, ok, raised,
  value_error, string_eq, nat_eq, list_eq,
}
use mathlib.Core.Path.{subst}
use arush_adabala_tax_liabil.Prelude.Text.{Text, codes}
use arush_adabala_tax_liabil.Prelude.Text.Decimal.{decimal}
use arush_adabala_tax_liabil.Prelude.Dict.{lookup, insert}
use arush_adabala_tax_liabil.Mcp.Errors.{Failure, Outcome, done, failed, bind_outcome}
use arush_adabala_tax_liabil.Mcp.Json.{str, get, fields_of}
use arush_adabala_tax_liabil.Mcp.Money.{
  Decimal, Raw, precision, enforce_money_scale, reject_inexact_binary, is_inexact_binary,
}
use arush_adabala_tax_liabil.Mcp.Money.Scale.{IsCents, enforce_money_scale_iff}
use arush_adabala_tax_liabil.Mcp.Money.Print.{show}
use arush_adabala_tax_liabil.Mcp.Tenancy.{Identity, auth_headers, cross_tenant_claim}
use arush_adabala_tax_liabil.Mcp.Http.{Request}
use arush_adabala_tax_liabil.Mcp.Http.Sent.{
  Scoped, Sends, observe-Sends, settle-sent, unlogged-sent,
}
use arush_adabala_tax_liabil.Mcp.Orders.Args.{
  tenants, CreateRefundArgs, check, validated, valid_order, positive_scaled, amount_of,
  create_refund_args, refund_model,
}
use arush_adabala_tax_liabil.Mcp.Orders.Handlers.{
  Server, order_path, refund_payload, refund_request, create_refund, orders_create_refund,
}

-- The amount is a number of cents, above zero and of at most 28 digits.
abbrev pub Payable : Decimal → Type 0
Payable d =
    (d.negative ≡ false)
    × (0 < d.coefficient)
    × ((n : ℕ) × IsCents n d.coefficient d.exponent × (length (decimal n) ≤ precision))

validated-done : {A : Type 0} (r : Result A) (a : A) → validated r ≡ done a → r ≡ ok a
validated-done (ok b) a h = ground arith
validated-done (raised value_error) a h = cc
validated-done (raised e) a h = ground arith

positive_scaled-done :
    (o : Option Decimal) (d : Decimal) → positive_scaled o ≡ done d → (o ≡ some d) × Payable d
unfolding positive_scaled
positive_scaled-done none d h = cc
positive_scaled-done (some c) d h = elim (Bool-cases (not c.negative && ltb 0 c.coefficient)) [
  | inl positive ↦
      let h' : validated (enforce_money_scale c) ≡ done d = ground arith in
      let (same, cents) =
        (enforce_money_scale_iff c d).0 (validated-done (enforce_money_scale c) d h') in
      rw same (refl, (ground arith, ground arith, cents))
  | inr e ↦ absurd (ground arith)
]

-- The bounds on the texts of a refund.
abbrev pub Sized : Text → Text → Type 0
Sized order_id reason =
    (1 ≤ length order_id) × (length order_id ≤ 64) × (4 ≤ length reason) × (length reason ≤ 200)

-- What is known of the arguments of a refund that pass.
abbrev pub Accepted : {F : Type 0} → (Raw F → Option Decimal) → Raw F → CreateRefundArgs → Type 0
Accepted to_decimal amount args =
    (is_inexact_binary amount ≡ false)
    × (to_decimal amount ≡ some args.amount)
    × Payable args.amount
    × (contains args.tenant_id tenants ≡ true)

bind_outcome-done :
    {A B : Type 0} (m : Outcome A) (f : A → Outcome B) (b : B)
    → bind_outcome m f ≡ done b
    → (a : A) × (m ≡ done a) × (f a ≡ done b)
bind_outcome-done (failed e) f b h = cc
bind_outcome-done (done a) f b h = (a, refl, h)

check-done : (b : Bool) (u : Unit {0}) → check b ≡ done u → b ≡ true
check-done true u h = refl
check-done false u h = cc

done_injective : {A : Type 0} (a b : A) → done a ≡ done b → a ≡ b
done_injective a b h = cc

reject-ok :
    {F : Type 0} (amount value : Raw F)
    → reject_inexact_binary amount ≡ ok value
    → (is_inexact_binary amount ≡ false) × (amount ≡ value)
unfolding reject_inexact_binary
reject-ok amount value h = ground arith

amount_of-done :
    {F : Type 0} (to_decimal : Raw F → Option Decimal) (amount : Raw F) (d : Decimal)
    → amount_of to_decimal amount ≡ done d
    → (is_inexact_binary amount ≡ false) × (to_decimal amount ≡ some d) × Payable d
unfolding amount_of
amount_of-done to_decimal amount d h =
    let (value, checked, passed) =
      bind_outcome-done (validated (reject_inexact_binary amount))
        (λ v. positive_scaled (to_decimal v)) d h in
    let (precise, same) =
      reject-ok amount value (validated-done (reject_inexact_binary amount) value checked) in
    let (found, payable) = positive_scaled-done (to_decimal value) d passed in
    (precise, ap to_decimal same ∙ found, payable)

refund_model-done :
    (order_id reason tenant_id idempotency_key : Text) (d : Decimal) (args : CreateRefundArgs)
    → refund_model order_id reason tenant_id idempotency_key d ≡ done args
    → (args.amount ≡ d)
      × (contains tenant_id tenants ≡ true)
      × (args.order_id ≡ order_id)
      × (args.tenant_id ≡ tenant_id)
      × (args.idempotency_key ≡ idempotency_key)
      × (args.reason ≡ reason)
      × Sized order_id reason
unfolding refund_model valid_order
refund_model-done order_id reason tenant_id idempotency_key d args h = ground arith

create_refund_args-Accepted :
    {F : Type 0} (to_decimal : Raw F → Option Decimal) (order_id : Text) (amount : Raw F)
    (reason tenant_id idempotency_key : Text) (args : CreateRefundArgs)
    → create_refund_args to_decimal order_id amount reason tenant_id idempotency_key ≡ done args
    → Accepted to_decimal amount args
      × (args.order_id ≡ order_id)
      × (args.tenant_id ≡ tenant_id)
      × (args.idempotency_key ≡ idempotency_key)
      × (args.reason ≡ reason)
      × Sized order_id reason
unfolding create_refund_args
create_refund_args-Accepted to_decimal order_id amount reason tenant_id idempotency_key args h =
    let (d, priced, made) = bind_outcome-done (amount_of to_decimal amount) _ args h in
    let (precise, found, payable) = amount_of-done to_decimal amount d priced in
    let (e, tenant, eo, et, ek, er, sized) =
      refund_model-done order_id reason tenant_id idempotency_key d args made in
    ((precise, rw e found, rw e payable, rw et tenant), eo, et, ek, er, sized)

module _ {F V W : Type 0} (server : Server F V W) (who : Identity) where
  -- The idempotency key stands in the body and in the headers.
  abbrev pub Keyed : Text → Request F → Type 0
  Keyed key request =
      (get "idempotencyKey" (fields_of request.json) ≡ some (str key))
      × (lookup "Idempotency-Key" request.headers ≡ some key)

  -- A refund of `order_id`, of the amount that the caller gave, for their reason and their tenant, under
  -- their key, all within the bounds.
  abbrev pub Refunds : Text → Raw F → Text → Text → Text → Request F → Type 0
  Refunds order_id amount reason tenant_id key request =
      (request.url ≡ order_path order_id ++ codes "/refunds")
      × ((d : Decimal) × (server.to_decimal amount ≡ some d)
          × Payable d
          × (get "amount" (fields_of request.json) ≡ some (str (show d))))
      × Keyed key request
      × Scoped who server.bearer_jwt tenant_id request
      × (contains tenant_id tenants ≡ true)
      × (get "reason" (fields_of request.json) ≡ some (str reason))
      × Sized order_id reason

  refund_request-Keyed :
      (args : CreateRefundArgs) → Keyed args.idempotency_key (refund_request server who args)
  unfolding refund_request refund_payload get auth_headers insert lookup
  refund_request-Keyed args = (refl, refl)

  refund_request-Scoped :
      (args : CreateRefundArgs)
      → (who.request_tenant ≡ []) ⊎ (who.request_tenant ≡ args.tenant_id)
      → Scoped who server.bearer_jwt args.tenant_id (refund_request server who args)
  unfolding refund_request auth_headers insert lookup
  refund_request-Scoped args h = (refl, refl, h)

  refund_request-amount :
      (args : CreateRefundArgs)
      → get "amount" (fields_of (refund_request server who args).json)
        ≡ some (str (show args.amount))
  unfolding refund_request refund_payload get
  refund_request-amount args = refl

  refund_request-reason :
      (args : CreateRefundArgs)
      → get "reason" (fields_of (refund_request server who args).json) ≡ some (str args.reason)
  unfolding refund_request refund_payload get
  refund_request-reason args = refl

  refund_request-url :
      (args : CreateRefundArgs)
      → (refund_request server who args).url ≡ order_path args.order_id ++ codes "/refunds"
  unfolding refund_request
  refund_request-url args = refl

  -- Why nothing was sent: the arguments were refused, or the claim is another tenant's.
  abbrev pub Withheld : Outcome CreateRefundArgs → Text → Type 0
  Withheld checked tenant_id =
      ((e : Failure) × (checked ≡ failed e)) ⊎ (cross_tenant_claim who tenant_id ≢ [])

  abbrev pub Refunded :
      Outcome CreateRefundArgs → Text → Raw F → Text → Text → Text → List (Request F) → Type 0
  Refunded checked order_id amount reason tenant_id key sent =
      ((sent ≡ []) × Withheld checked tenant_id)
      ⊎ ((request : Request F) × (args : CreateRefundArgs) × (sent ≡ request ∷ [])
          × (checked ≡ done args)
          × Refunds order_id amount reason tenant_id key request)

  refund-Refunds :
      (order_id : Text) (amount : Raw F) (reason tenant_id key : Text) (args : CreateRefundArgs)
      (sent : List (Request F)) (checked : Outcome CreateRefundArgs)
      → checked ≡ done args
      → Accepted server.to_decimal amount args
      → args.order_id ≡ order_id
      → args.tenant_id ≡ tenant_id
      → args.idempotency_key ≡ key
      → args.reason ≡ reason
      → Sized order_id reason
      → Sends who args.tenant_id (refund_request server who args) sent
      → Refunded checked order_id amount reason tenant_id key sent
  refund-Refunds order_id amount reason tenant_id key args sent checked passed
        (precise, found, payable, known) eo et ek er sized (inl (nothing, foreign)) =
      inl (nothing, inr (subst (λ t. cross_tenant_claim who t ≢ []) et foreign))
  refund-Refunds order_id amount reason tenant_id key args sent checked passed
        (precise, found, payable, known) eo et ek er sized (inr (one, own)) =
      inr (
        refund_request server who args,
        args,
        one,
        passed,
        (
          refund_request-url args ∙ ap (λ t. order_path t ++ codes "/refunds") eo,
          (args.amount, found, payable, refund_request-amount args),
          subst (λ k. Keyed k (refund_request server who args)) ek (refund_request-Keyed args),
          subst (λ t. Scoped who server.bearer_jwt t (refund_request server who args)) et
              (refund_request-Scoped args own),
          subst (λ t. contains t tenants ≡ true) et known,
          refund_request-reason args ∙ ap (λ r. some (str r)) er,
          sized,
        ),
      )

  create_refund-Sends :
      (args : CreateRefundArgs)
      → Sends who args.tenant_id
          (refund_request server who args)
          (create_refund server who args).sent
  unfolding create_refund
  create_refund-Sends args =
      observe-Sends who "orders.create_refund" args.tenant_id _ (refund_request server who args)
        (settle-sent server.refund_view (refund_request server who args) _ _)

  -- However a refund ends, either one request leaves for it, and its arguments passed: the order id, the
  -- reason and the tenant are within their bounds; the request goes to the order's path, with the
  -- caller's token and tenant, their reason, the amount they gave, a positive number of cents, printed by
  -- `str`, and the idempotency key in the body and in the headers. Or none leaves, and the arguments were
  -- refused or the claim is another tenant's.
  pub refund-sent :
      (order_id : Text) (amount : Raw F) (reason tenant_id key : Text)
      → Refunded
          (create_refund_args server.to_decimal order_id amount reason tenant_id key)
          order_id
          amount
          reason
          tenant_id
          key
          (orders_create_refund server who order_id amount reason tenant_id key).sent
  unfolding orders_create_refund
  refund-sent order_id amount reason tenant_id key =
      let checked : Outcome CreateRefundArgs =
        create_refund_args server.to_decimal order_id amount reason tenant_id key in
      unlogged-sent (Refunded checked order_id amount reason tenant_id key) checked
        (create_refund server who) (λ e refused. inl (refl, inl (e, refused)))
        λ args done_with.
          let (accepted, eo, et, ek, er, sized) =
            create_refund_args-Accepted server.to_decimal order_id amount reason tenant_id key args
              done_with in
          refund-Refunds order_id amount reason tenant_id key args _ checked done_with accepted eo
            et ek er sized (create_refund-Sends args)
