-- ===== src/Agent/State.antt =====
-- state.py of taxcalc-agent-svc: the graph's slots and their reducers. A node returns a partial
-- state; at a fan-in each slot folds the contributions by its reducer. `messages` is left out: its
-- reducer is the library's, and no node writes it. `J` stands for JSON values, `F` for scores.
pub mod Reducers
use arush_adabala_tax_liabil.Prelude.{
  ℕ, zero, suc, ◌+◌, ◌-◌, ◌*◌, ◌/◌, ◌%◌, ◌≤◌, ◌<◌, min, String, ◌≡◌, refl, sym, ap, ◌∙◌, ◌≢◌, ◌↔◌,
  ◌⊎◌, inl, inr, Bool, true, false, not, ◌&&◌, ◌||◌, Option, none, some, List, [], ◌∷◌, ◌++◌, map,
  arith, ltb, leb, if◌then◌else◌, Bool-cases, Option-cases, leb→le, lt→ltb, Eq, ◌==◌, ==_refl,
  length, take, get_elem?, length-append, length-take, length-map, any, All, All-append, All-take,
  contains, Exc, Result, ok, raised, bind, bind-eq-ok, Result-cases, ok_injective, ok_or,
  budget_exceeded, value_error, key_error, type_error, runtime_error, timeout_error,
  validation_error, dependency_unavailable, string_eq, nat_eq, list_eq, graph_recursion,
  http_timeout, http_error, cancelled, other,
}
use arush_adabala_tax_liabil.Prelude.Dict.{Dict, update, get_or}
use arush_adabala_tax_liabil.Prelude.Text.{Text}

pub record Doc (F : Type 0) : Type 0 where
  pub chunk_id : Text
  pub doc_id : Text
  pub score : F

pub record AgentState (J F : Type 0) : Type 0 where
  pub question : Text
  pub tenant_id : Text
  pub thread_id : Text
  pub docs : List (Doc F)
  pub tool_results : Option (Dict Text J)
  pub answer : Option J
  pub cost_usd_e5 : ℕ
  pub visited_nodes : List String

-- A node's partial state: a slot that it does not name is `none`.
pub record Update (J F : Type 0) : Type 0 where
  pub docs : Option (List (Doc F))
  pub tool_results : Option (Dict Text J)
  pub answer : Option J
  pub cost_usd_e5 : Option ℕ
  pub visited_nodes : Option (List String)

module _ {J : Type 0} where
  -- The reducer tolerates `None` on both sides.
  unfoldable pub merge_tool_results : Option (Dict Text J) → Option (Dict Text J) → Dict Text J
  merge_tool_results old new = update (get_or old []) (get_or new [])

  -- a slot that the contribution does not name keeps its value
  abbrev pub merge_slot : Option (Dict Text J) → Option (Dict Text J) → Option (Dict Text J)
  merge_slot old none = old
  merge_slot old (some new) = some (merge_tool_results old (some new))

  abbrev pub overwrite : Option J → Option J → Option J
  overwrite old none = old
  overwrite old (some new) = some new

module _ {J F : Type 0} where
  abbrev pub no_update : Update J F
  no_update = record {
    docs = none;
    tool_results = none;
    answer = none;
    cost_usd_e5 = none;
    visited_nodes = none;
  }

  unfoldable pub apply_update : AgentState J F → Update J F → AgentState J F
  apply_update s u = record s {
    docs = s.docs ++ get_or u.docs [];
    tool_results = merge_slot s.tool_results u.tool_results;
    answer = overwrite s.answer u.answer;
    cost_usd_e5 = s.cost_usd_e5 + get_or u.cost_usd_e5 0;
    visited_nodes = s.visited_nodes ++ get_or u.visited_nodes [];
  }

  -- the contributions of one super-step, in task order
  unfoldable pub fan_in : AgentState J F → List (Update J F) → AgentState J F
  fan_in s [] = s
  fan_in s (u ∷ us) = fan_in (apply_update s u) us
