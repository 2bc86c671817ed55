-- ===== src/Ai/Mmr/Greedy.antt =====
-- The selection of `mmr_pick`: the inner loop, one pick, and all of them.
use arush_adabala_tax_liabil.Prelude.{
  ℕ, zero, suc, min, ◌≡◌, refl, sym, ap, ◌∙◌, ◌⊎◌, inl, inr, true, false, Option, none, some, List,
  [], ◌∷◌, ◌++◌, arith, if◌then◌else◌, Bool-cases, Option-cases, ◌==◌, ==_refl, length, All, ok,
  raised, value_error, string_eq, nat_eq, list_eq,
}
use mathlib.Core.List.{append-nil, append_assoc}
use arush_adabala_tax_liabil.Ai.Mmr.{
  Scores, score, better, best_of, keep_head, remove, taken, take_best, next_pick, pick_loop,
  range_from, select, mmr_pick,
}

module _ {F : Type 0} (scores : Scores F) where
  -- `>` on the floats that are no NaN.
  pub record Order : Type 0 where
    pub irreflexive : (a : F) → scores.gt a a ≡ false
    pub weak : (a b c : F) → scores.gt a b ≡ false → scores.gt c b ≡ true → scores.gt a c ≡ false

  abbrev pub Finite : Type 0
  Finite =
      (picked : List ℕ) (i : ℕ) → scores.gt (score scores picked i) scores.minus_infinity ≡ true

  -- `is` are picked one after the other from what remains, each with a score that none of those
  -- remaining then exceeds.
  abbrev pub IsGreedy : List ℕ → List ℕ → List ℕ → Type 0
  IsGreedy picked remaining [] = Unit
  IsGreedy picked remaining (i ∷ is) =
      (rest : List ℕ) × (remove scores i remaining ≡ some rest)
      × All (λ j. scores.gt (score scores picked j) (score scores picked i) ≡ false) remaining
      × IsGreedy (picked ++ i ∷ []) rest is

  Held : ℕ → List ℕ → Type 0
  Held i is = (rest : List ℕ) × (remove scores i is ≡ some rest)

  Held-head : (i : ℕ) (is : List ℕ) → Held i (i ∷ is)
  unfolding Held remove
  Held-head i is = (is, rw (==_refl i) refl)

  Held-tail : (i j : ℕ) (is : List ℕ) → Held i is → Held i (j ∷ is)
  unfolding Held remove
  Held-tail i j is (rest, e) = elim (Bool-cases (j == i)) [
    | inl same ↦ (is, rw same refl)
    | inr apart ↦ (
      j ∷ rest,
      ap (λ b. if b then some is else keep_head scores j (remove scores i is)) apart
          ∙ ap (λ o. keep_head scores j o) e,
    )
  ]

  length-remove :
      (i : ℕ) (is rest : List ℕ) → remove scores i is ≡ some rest → length is ≡ suc (length rest)
  unfolding remove
  length-remove i [] rest h = ground arith
  length-remove i (j ∷ is) rest h = elim (Option-cases (remove scores i is)) [
    | inl e ↦ elim (Bool-cases (j == i)) [ inl b ↦ ground arith | inr b ↦ ground arith ]
    | inr (r, e) ↦ let ih = length-remove i is r e in ground (arith, ih)
  ]

  length-range_from : (i n : ℕ) → length (range_from scores i n) ≡ n
  unfolding range_from
  length-range_from i zero = refl
  length-range_from i (suc n) = ap suc (length-range_from (suc i) n)

  better-cases :
      (value : ℕ → F) (i : ℕ) (before : Option ℕ × F)
      → ((scores.gt (value i) before.1 ≡ true) × (better scores value i before ≡ (some i, value i)))
        ⊎ ((scores.gt (value i) before.1 ≡ false) × (better scores value i before ≡ before))
  better-cases value i (best, top) = elim (Bool-cases (scores.gt (value i) top)) [
    | inl more ↦ inl (more, rw more refl)
    | inr less ↦ inr (less, rw less refl)
  ]

  best_of-Held :
      (value : ℕ → F) (is : List ℕ) (before : Option ℕ × F)
      → (best_of scores value is before ≡ before)
        ⊎ ((i : ℕ) × (best_of scores value is before ≡ (some i, value i)) × Held i is)
  unfolding best_of
  best_of-Held value [] before = inl refl
  best_of-Held value (i ∷ is) before = elim (best_of-Held value is (better scores value i before)) [
    | inr (i', e, held) ↦ inr (i', e, Held-tail i' i is held)
    | inl e ↦ elim (better-cases value i before) [
      | inl (more, e') ↦ inr (i, e ∙ e', Held-head i is)
      | inr (less, e') ↦ inl (e ∙ e')
    ]
  ]

  module _ (order : Order) where
    better-least :
        (value : ℕ → F) (i : ℕ) (before : Option ℕ × F) (x : F)
        → scores.gt x before.1 ≡ false
        → scores.gt x (better scores value i before).1 ≡ false
    better-least value i before x h = elim (better-cases value i before) [
      | inl (more, e) ↦ rw e (order.weak x before.1 (value i) h more)
      | inr (less, e) ↦ rw e h
    ]

    best_of-least :
        (value : ℕ → F) (is : List ℕ) (before : Option ℕ × F) (x : F)
        → scores.gt x before.1 ≡ false
        → scores.gt x (best_of scores value is before).1 ≡ false
    unfolding best_of
    best_of-least value [] before x h = h
    best_of-least value (i ∷ is) before x h =
        best_of-least value is (better scores value i before) x (better-least value i before x h)

    better-itself :
        (value : ℕ → F) (i : ℕ) (before : Option ℕ × F)
        → scores.gt (value i) (better scores value i before).1 ≡ false
    better-itself value i before = elim (better-cases value i before) [
      | inl (more, e) ↦ rw e (order.irreflexive (value i))
      | inr (less, e) ↦ rw e less
    ]

    best_of-best :
        (value : ℕ → F) (is : List ℕ) (before : Option ℕ × F)
        → All (λ j. scores.gt (value j) (best_of scores value is before).1 ≡ false) is
    unfolding best_of
    best_of-best value [] before = tt
    best_of-best value (i ∷ is) before = (
      best_of-least value is (better scores value i before) (value i)
          (better-itself value i before),
      best_of-best value is (better scores value i before),
    )

    unbeaten_by :
        (value : ℕ → F) (is : List ℕ) {top top' : F}
        → top ≡ top'
        → All (λ j. scores.gt (value j) top ≡ false) is
        → All (λ j. scores.gt (value j) top' ≡ false) is
    unbeaten_by value is e h = rw e at h

    abbrev Best : List ℕ → List ℕ → ℕ → List ℕ → Type 0
    Best picked remaining i rest =
        (next_pick scores picked remaining ≡ ok (i, rest))
        × (remove scores i remaining ≡ some rest)
        × All (λ j. scores.gt (score scores picked j) (score scores picked i) ≡ false) remaining

    -- one pick of the outer loop
    next_pick-Best :
        (finite : Finite) (picked : List ℕ) (r : ℕ) (rs : List ℕ)
        → (i : ℕ) × (rest : List ℕ) × Best picked (r ∷ rs) i rest
    unfolding next_pick Held
    next_pick-Best finite picked r rs =
        let value = score scores picked in
        let before : Option ℕ × F = (none, scores.minus_infinity) in
        let best = best_of-best value (r ∷ rs) before in
        elim (best_of-Held value (r ∷ rs) before) [
          | inl e ↦
              let unbeaten : scores.gt (value r) scores.minus_infinity ≡ false =
                rw (ap (λ b. b.1) e) at best.0 in
              absurd (ground (arith, unbeaten, finite picked r))
          | inr (i, e, (rest, held)) ↦ (
            i,
            rest,
            (
              ap (λ b. take_best scores (r ∷ rs) b.0) e ∙ ap (λ o. taken scores i o) held,
              held,
              unbeaten_by value (r ∷ rs) (ap (λ b. b.1) e) best,
            ),
          )
        ]

    pick_loop-IsGreedy :
        (finite : Finite) (n : ℕ) (picked remaining : List ℕ)
        → (more : List ℕ) × (pick_loop scores n picked remaining ≡ ok (picked ++ more))
          × (length more ≡ min n (length remaining))
          × IsGreedy picked remaining more
    unfolding pick_loop
    pick_loop-IsGreedy finite zero picked remaining =
        ([], ap (λ p. ok p) (sym (append-nil picked)), omega arith, tt)
    pick_loop-IsGreedy finite (suc n) picked [] =
        ([], ap (λ p. ok p) (sym (append-nil picked)), omega arith, tt)
    pick_loop-IsGreedy finite (suc n) picked (r ∷ rs) =
        let (i, rest, (next, held, best)) = next_pick-Best finite picked r rs in
        let (more, run, count, greedy) = pick_loop-IsGreedy finite n (picked ++ i ∷ []) rest in
        (
          i ∷ more,
          rw next (run ∙ ap (λ p. ok p) (append_assoc picked (i ∷ []) more)),
          (omega (arith, count, length-remove i (r ∷ rs) rest held)),
          (rest, held, best, greedy),
        )

    -- With finite scores the selection never raises: it picks `min k n` of the `n` candidates, none of
    -- them twice, each one with a score that none of those then remaining exceeds.
    pub mmr_pick-IsGreedy :
        {C : Type 0} (candidates : List C) (k : ℕ)
        → Finite
        → (picks : List ℕ) × (mmr_pick scores candidates k ≡ ok (select scores candidates picks))
          × (length picks ≡ min k (length candidates))
          × IsGreedy [] (range_from scores 0 (length candidates)) picks
    unfolding mmr_pick select range_from
    mmr_pick-IsGreedy [] k finite = ([], refl, omega arith, tt)
    mmr_pick-IsGreedy (c ∷ cs) k finite =
        let (picks, run, count, greedy) =
          pick_loop-IsGreedy finite k [] (range_from scores 0 (length (c ∷ cs))) in
        (
          picks,
          (rw run refl),
          (omega (arith, count, length-range_from 0 (length (c ∷ cs)))),
          greedy,
        )

  best_of-stays :
      (value : ℕ → F) (is : List ℕ) (before : Option ℕ × F)
      → ((i : ℕ) → scores.gt (value i) before.1 ≡ false)
      → best_of scores value is before ≡ before
  unfolding best_of
  best_of-stays value [] before h = refl
  best_of-stays value (i ∷ is) before h = elim (better-cases value i before) [
    | inl (more, e) ↦ absurd (ground (arith, more, h i))
    | inr (less, e) ↦ rw e (best_of-stays value is before h)
  ]

  -- Where no score exceeds -inf, as when every one of them is a NaN, a selection of candidates raises.
  pub mmr_pick-nan :
      {C : Type 0} (c : C) (cs : List C) (k : ℕ)
      → ((i : ℕ) → scores.gt (scores.to_query i) scores.minus_infinity ≡ false)
      → mmr_pick scores (c ∷ cs) (suc k) ≡ raised value_error
  unfolding mmr_pick pick_loop next_pick range_from score
  mmr_pick-nan c cs k nan =
      rw
        (best_of-stays scores.to_query (0 ∷ range_from scores 1 (length cs))
          (none, scores.minus_infinity) nan)
        refl
