-- ===== src/Agent/Deadline.antt =====
-- nodes/_deadline.py: a node that misses its deadline contributes its sentinel. What
-- `asyncio.wait_for` makes of the body is an argument: it finished in time, or it was cancelled.
pub mod Degrade
mod Tests
use arush_adabala_tax_liabil.Prelude.{
  ℕ, zero, suc, ◌+◌, ◌-◌, ◌*◌, ◌/◌, ◌%◌, ◌≤◌, ◌<◌, min, String, ◌≡◌, refl, sym, ap, ◌∙◌, ◌≢◌, ◌↔◌,
  ◌⊎◌, inl, inr, Bool, true, false, not, ◌&&◌, ◌||◌, Option, none, some, List, [], ◌∷◌, ◌++◌, map,
  arith, ltb, leb, if◌then◌else◌, Bool-cases, Option-cases, leb→le, lt→ltb, Eq, ◌==◌, ==_refl,
  length, take, get_elem?, length-append, length-take, length-map, any, All, All-append, All-take,
  contains, Exc, Result, ok, raised, bind, bind-eq-ok, Result-cases, ok_injective, ok_or,
  budget_exceeded, value_error, key_error, type_error, runtime_error, timeout_error,
  validation_error, dependency_unavailable, string_eq, nat_eq, list_eq, graph_recursion,
  http_timeout, http_error, cancelled, other,
}
use arush_adabala_tax_liabil.Agent.State.{Update}

pub data Outcome (A : Type 0) : Type 0 where
  finished : Result A → Outcome A
  timed_out : Outcome A

-- What the wrapper writes on the current run: the tag, and the limit in milliseconds.
pub record RunTree : Type 0 where
  pub deadline_exceeded : Bool
  pub limit_ms : Option ℕ

abbrev pub tag : ℕ → Option RunTree → Option RunTree
tag limit none = none
tag limit (some run) = some (record { deadline_exceeded = true; limit_ms = some limit })

-- `except TimeoutError` also catches one that the body itself raises.
unfoldable pub deadline :
    {A : Type 0} → ℕ → A → Outcome A → Option RunTree → Result A × Option RunTree
deadline limit sentinel timed_out run = (ok sentinel, tag limit run)
deadline limit sentinel (finished (raised timeout_error)) run = (ok sentinel, tag limit run)
deadline limit sentinel (finished r) run = (r, run)
