-- ===== src/Evals/Trajectory.antt =====
-- evals/trajectory.py: the score of one run's nodes against its golden ones.
pub mod Subsequence
use arush_adabala_tax_liabil.Prelude.{
  ℕ, zero, suc, ◌+◌, ◌-◌, ◌*◌, ◌/◌, ◌%◌, ◌≤◌, ◌<◌, min, String, ◌≡◌, refl, sym, ap, ◌∙◌, ◌≢◌, ◌↔◌,
  ◌⊎◌, inl, inr, Bool, true, false, not, ◌&&◌, ◌||◌, Option, none, some, List, [], ◌∷◌, ◌++◌, map,
  arith, ltb, leb, if◌then◌else◌, Bool-cases, Option-cases, leb→le, lt→ltb, Eq, ◌==◌, ==_refl,
  length, take, get_elem?, length-append, length-take, length-map, any, All, All-append, All-take,
  contains, Exc, Result, ok, raised, bind, bind-eq-ok, Result-cases, ok_injective, ok_or,
  budget_exceeded, value_error, key_error, type_error, runtime_error, timeout_error,
  validation_error, dependency_unavailable, string_eq, nat_eq, list_eq, graph_recursion,
  http_timeout, http_error, cancelled, other,
}

-- `node in remaining`: the iterator is consumed up to the node, or to its end.
unfoldable pub advance : String → List String → Option (List String)
advance node [] = none
advance node (x ∷ rest) = if x == node then some rest else advance node rest

unfoldable pub all_in_order : List String → List String → Bool
all_in_order [] remaining = true
all_in_order (node ∷ expected) remaining = elim (advance node remaining) [
  | some rest ↦ all_in_order expected rest
  | none ↦ false
]

-- 1.0 or 0.0, as 1 or 0
unfoldable pub trajectory_match : List String → List String → ℕ
unfolding all_in_order advance
trajectory_match actual expected = if all_in_order expected actual then 1 else 0
