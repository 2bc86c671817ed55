-- ===== src/Ai/Mmr/Tests.antt =====
-- Three candidates scored by their index, and scores that are all NaN.
use arush_adabala_tax_liabil.Prelude.{
  ℕ, ◌+◌, ◌-◌, ◌*◌, min, ◌≡◌, refl, false, List, [], ◌∷◌, arith, ltb, length, ok, raised,
  value_error, string_eq, nat_eq, list_eq,
}
use arush_adabala_tax_liabil.Ai.Mmr.{Scores, score, range_from, select, mmr_pick}
use arush_adabala_tax_liabil.Ai.Mmr.Greedy.{
  Order, Finite, IsGreedy, mmr_pick-IsGreedy, mmr_pick-nan,
}

-- 0 stands for -inf
abbrev by_index : Scores ℕ
by_index = record {
  gt = λ a b. ltb b a;
  minus_infinity = 0;
  to_query = λ i. i + 1;
  to_picked = λ picked i. 0;
  lambda_param = 1;
  one = 1;
  mul = λ a b. a * b;
  sub = λ a b. a - b;
}

order : Order by_index
order = record { irreflexive = λ a. ground arith; weak = λ a b c h k. ground arith }

finite : Finite by_index
unfolding score
finite [] i = ground arith
finite (p ∷ picked) i = ground arith

abbrev candidates : List ℕ
candidates = 10 ∷ 20 ∷ 30 ∷ []

mmr_pick-IsGreedy_example :
    (picks : List ℕ) × (mmr_pick by_index candidates 2 ≡ ok (select by_index candidates picks))
    × (length picks ≡ min 2 3)
    × IsGreedy by_index [] (range_from by_index 0 3) picks
mmr_pick-IsGreedy_example = mmr_pick-IsGreedy by_index order candidates 2 finite

abbrev all_nan : Scores ℕ
all_nan = record by_index { gt = λ a b. false }

mmr_pick-nan_example : mmr_pick all_nan candidates 1 ≡ raised value_error
mmr_pick-nan_example = mmr_pick-nan all_nan 10 (20 ∷ 30 ∷ []) 0 λ i. refl
