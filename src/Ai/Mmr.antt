-- ===== src/Ai/Mmr.antt =====
-- `mmr_pick` of rerank.py. Floats `F` are a parameter with their arithmetic and `>`, and so are the
-- similarities that NumPy computes: of a candidate to the query, and its largest to those picked.
pub mod Greedy
mod Tests
use arush_adabala_tax_liabil.Prelude.{
  ℕ, zero, suc, ◌+◌, ◌-◌, ◌*◌, ◌/◌, ◌%◌, ◌≤◌, ◌<◌, min, String, ◌≡◌, refl, sym, ap, ◌∙◌, ◌≢◌, ◌↔◌,
  ◌⊎◌, inl, inr, Bool, true, false, not, ◌&&◌, ◌||◌, Option, none, some, List, [], ◌∷◌, ◌++◌, map,
  arith, ltb, leb, if◌then◌else◌, Bool-cases, Option-cases, leb→le, lt→ltb, Eq, ◌==◌, ==_refl,
  length, take, get_elem?, length-append, length-take, length-map, any, All, All-append, All-take,
  contains, Exc, Result, ok, raised, bind, bind-eq-ok, Result-cases, ok_injective, ok_or,
  budget_exceeded, value_error, key_error, type_error, runtime_error, timeout_error,
  validation_error, dependency_unavailable, string_eq, nat_eq, list_eq, graph_recursion,
  http_timeout, http_error, cancelled, other,
}

pub record Scores (F : Type 0) : Type 0 where
  pub gt : F → F → Bool
  pub minus_infinity : F
  pub to_query : ℕ → F
  pub to_picked : List ℕ → ℕ → F
  pub lambda_param : F
  pub one : F
  pub mul : F → F → F
  pub sub : F → F → F

module _ {F : Type 0} (scores : Scores F) where
  unfoldable pub score : List ℕ → ℕ → F
  score [] i = scores.to_query i
  score (p ∷ picked) i =
      scores.sub (scores.mul scores.lambda_param (scores.to_query i))
        (scores.mul (scores.sub scores.one scores.lambda_param) (scores.to_picked (p ∷ picked) i))

  abbrev pub better : (ℕ → F) → ℕ → Option ℕ × F → Option ℕ × F
  better value i (best_idx, best_score) =
      if scores.gt (value i) best_score then (some i, value i) else (best_idx, best_score)

  -- The inner loop; `none` stands for the index -1 that `best_idx` starts with.
  unfoldable pub best_of : (ℕ → F) → List ℕ → Option ℕ × F → Option ℕ × F
  best_of value [] best = best
  best_of value (i ∷ rest) best = best_of value rest (better value i best)

  abbrev pub keep_head : ℕ → Option (List ℕ) → Option (List ℕ)
  keep_head j none = none
  keep_head j (some rest) = some (j ∷ rest)

  -- `remaining.remove(i)`, which raises where `i` is not there
  unfoldable pub remove : ℕ → List ℕ → Option (List ℕ)
  remove i [] = none
  remove i (j ∷ rest) = if j == i then some rest else keep_head j (remove i rest)

  abbrev pub taken : ℕ → Option (List ℕ) → Result (ℕ × List ℕ)
  taken i none = raised value_error
  taken i (some rest) = ok (i, rest)

  -- -1 is never among the remaining indices
  abbrev pub take_best : List ℕ → Option ℕ → Result (ℕ × List ℕ)
  take_best remaining none = raised value_error
  take_best remaining (some i) = taken i (remove i remaining)

  unfoldable pub next_pick : List ℕ → List ℕ → Result (ℕ × List ℕ)
  next_pick picked remaining =
      take_best remaining (best_of (score picked) remaining (none, scores.minus_infinity)).0

  -- The outer loop, with `k - len(picked)` as its counter.
  unfoldable pub pick_loop : ℕ → List ℕ → List ℕ → Result (List ℕ)
  pick_loop zero picked remaining = ok picked
  pick_loop (suc n) picked [] = ok picked
  pick_loop (suc n) picked (r ∷ rs) =
      bind (next_pick picked (r ∷ rs)) λ p. pick_loop n (picked ++ p.0 ∷ []) p.1

  -- `list(range(i, i + n))`
  unfoldable pub range_from : ℕ → ℕ → List ℕ
  range_from i zero = []
  range_from i (suc n) = i ∷ range_from (suc i) n

  -- `[candidates[i] for i in picked]`
  unfoldable pub select : {C : Type 0} → List C → List ℕ → List C
  select candidates [] = []
  select candidates (i ∷ picked) = elim (get_elem? candidates i) [
    | none ↦ select candidates picked
    | some c ↦ c ∷ select candidates picked
  ]

  unfoldable pub mmr_pick : {C : Type 0} → List C → ℕ → Result (List C)
  mmr_pick [] k = ok []
  mmr_pick (c ∷ cs) k =
      bind (pick_loop k [] (range_from 0 (length (c ∷ cs)))) λ picked. ok (select (c ∷ cs) picked)
