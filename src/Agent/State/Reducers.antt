-- ===== src/Agent/State/Reducers.antt =====
-- The reducers of state.py over a whole fan-in.
use arush_adabala_tax_liabil.Prelude.{
  ℕ, ◌+◌, String, ◌≡◌, refl, sym, ap, ◌∙◌, Option, none, some, List, [], ◌∷◌, ◌++◌, arith, All,
  string_eq, nat_eq, list_eq,
}
use mathlib.Core.List.{append-nil, append_assoc}
use arush_adabala_tax_liabil.Prelude.Dict.{Dict, lookup, lookup-update, Distinct, or_else, get_or}
use arush_adabala_tax_liabil.Prelude.Text.{Text}
use arush_adabala_tax_liabil.Agent.State.{
  Doc, AgentState, Update, merge_tool_results, merge_slot, apply_update, fan_in,
}

module _ {J : Type 0} where
  abbrev pub found : Text → Option (Dict Text J) → Option J
  found k none = none
  found k (some d) = lookup k d

  abbrev pub SlotDistinct : Option (Dict Text J) → Type 0
  SlotDistinct none = Unit
  SlotDistinct (some d) = Distinct d

  found-merge_slot :
      (k : Text) (old new : Option (Dict Text J))
      → SlotDistinct new
      → found k (merge_slot old new) ≡ or_else (found k new) (found k old)
  unfolding merge_tool_results lookup
  found-merge_slot k old none h = refl
  found-merge_slot k none (some new) h = lookup-update k [] new h
  found-merge_slot k (some d) (some new) h = lookup-update k d new h

module _ {J F : Type 0} where
  pub sum_costs : List (Update J F) → ℕ
  sum_costs [] = 0
  sum_costs (u ∷ us) = get_or u.cost_usd_e5 0 + sum_costs us

  pub all_docs : List (Update J F) → List (Doc F)
  all_docs [] = []
  all_docs (u ∷ us) = get_or u.docs [] ++ all_docs us

  pub all_visited : List (Update J F) → List String
  all_visited [] = []
  all_visited (u ∷ us) = get_or u.visited_nodes [] ++ all_visited us

  -- the last contribution that has the key, or else what was there
  pub last_found : Text → List (Update J F) → Option J → Option J
  last_found k [] o = o
  last_found k (u ∷ us) o = last_found k us (or_else (found k u.tool_results) o)

  -- A fan-in of any number of contributions appends every document and every visited node in task
  -- order, adds every cost, and keeps for each tool the result of the last contribution that has
  -- one, provided no contribution lists a tool twice.
  pub fan_in_slots :
      (s : AgentState J F) (us : List (Update J F)) (k : Text)
      → All (λ u. SlotDistinct u.tool_results) us
      → ((fan_in s us).docs ≡ s.docs ++ all_docs us)
        × ((fan_in s us).visited_nodes ≡ s.visited_nodes ++ all_visited us)
        × ((fan_in s us).cost_usd_e5 ≡ s.cost_usd_e5 + sum_costs us)
        × (found k (fan_in s us).tool_results ≡ last_found k us (found k s.tool_results))
  unfolding fan_in apply_update all_docs all_visited sum_costs last_found
  fan_in_slots s [] k h = (sym (append-nil _), sym (append-nil _), omega arith, refl)
  fan_in_slots s (u ∷ us) k h =
      let (docs, visited, cost, results) = fan_in_slots (apply_update s u) us k h.1 in
      (
        docs ∙ append_assoc s.docs _ _,
        visited ∙ append_assoc s.visited_nodes _ _,
        omega arith,
        results ∙ ap (last_found k us) (found-merge_slot k s.tool_results u.tool_results h.0),
      )
