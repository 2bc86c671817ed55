-- ===== src/Agent/Api/Context.antt =====
-- What `inject_context` sends, field by field.
use arush_adabala_tax_liabil.Prelude.{
  ◌≡◌, Bool, ◌&&◌, Option, some, List, ◌++◌, arith, if◌then◌else◌, ◌==◌, contains, string_eq,
  nat_eq, list_eq,
}
use arush_adabala_tax_liabil.Prelude.Dict.{lookup, insert, lookup-insert}
use arush_adabala_tax_liabil.Prelude.Text.{Text, codes}
use arush_adabala_tax_liabil.Agent.Api.{
  tenant_arg, idempotency_arg, Args, Library, payload, idempotency_key, inject_context,
}

module _ {J : Type 0} (lib : Library J) where
  -- The field `k` of the arguments that are sent, where the tool declares a key, or a tenant, or not.
  abbrev pub sent_field : Args J → Bool → Bool → Text → Text → Text → Text → Option J
  sent_field args has_key has_tenant tenant thread tool k =
      if has_key && idempotency_arg == k
      then some (lib.quote (lib.uuid5 (thread ++ codes "|" ++ tool ++ codes "|" ++ lib.dumps args)))
      else if has_tenant && tenant_arg == k
      then some (lib.quote tenant)
      else lookup k args

  -- Where the tool declares them, the sent tenant is the request's and the sent key is the one
  -- derived from the proposal, whatever the model proposed; every other field is as proposed.
  pub lookup-inject_context :
      (args : Args J) (declared : List Text) (tenant thread tool k : Text)
      → lookup k (inject_context lib args declared tenant thread tool)
        ≡ sent_field args
            (contains idempotency_arg declared)
            (contains tenant_arg declared)
            tenant
            thread
            tool
            k
  unfolding inject_context idempotency_key payload
  lookup-inject_context args declared tenant thread tool k = ground (
    arith,
    lookup-insert tenant_arg k (lib.quote tenant) args,
    lookup-insert idempotency_arg k (lib.quote (idempotency_key lib thread tool args)) args,
    lookup-insert idempotency_arg k (lib.quote (idempotency_key lib thread tool args))
        (insert tenant_arg (lib.quote tenant) args),
  )
