-- ===== src/Agent/Deps.antt =====
-- deps.py: what a node reads off its run config. The values under the two keys are a guard, a live
-- session or a provider of one; `S` stands for sessions.
use arush_adabala_tax_liabil.Prelude.{
  String, Option, none, some, [], Result, ok, raised, bind, key_error, type_error, string_eq,
  nat_eq, list_eq,
}
use arush_adabala_tax_liabil.Prelude.Dict.{Dict, lookup, get_or}
use arush_adabala_tax_liabil.Agent.Budget.{BudgetGuard}

pub data Supplied (S : Type 0) : Type 0 where
  guard : BudgetGuard → Supplied S
  live : S → Supplied S
  provider : Result (Option S) → Supplied S
  nothing : Supplied S

-- A config is absent, or has a `configurable`, which may be absent as well.
abbrev pub Config : Type 0 → Type 0
Config S = Option (Option (Dict String (Supplied S)))

module _ {S : Type 0} where
  unfoldable pub configurable : Config S → Dict String (Supplied S)
  configurable config = get_or (get_or config none) []

  unfoldable pub as_guard : Option (Supplied S) → Result BudgetGuard
  as_guard (some (guard g)) = ok g
  as_guard v = raised key_error

  unfoldable pub budget_guard : Config S → Result BudgetGuard
  budget_guard config = as_guard (lookup "budget_guard" (configurable config))

  unfoldable pub mcp_session : Config S → Result (Supplied S)
  mcp_session config = elim (lookup "mcp_session" (configurable config)) [
    | none ↦ raised key_error
    | some v ↦ ok v
  ]

  unfoldable pub supplied : Option S → Result S
  supplied none = raised key_error
  supplied (some s) = ok s

  -- A provider is awaited; a value that is neither is handed on, and fails where it is used.
  unfoldable pub resolve : Supplied S → Result (Option S)
  resolve (provider r) = r
  resolve (live s) = ok (some s)
  resolve nothing = ok none
  resolve (guard g) = raised type_error

  unfoldable pub open_session : Config S → Result S
  open_session config = bind (mcp_session config) λ v. bind (resolve v) supplied
