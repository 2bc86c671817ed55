-- ===== src/Evals/Trajectory/Subsequence.antt =====
-- What the one shared iterator of `trajectory_match` decides.
use text.Mathlib.TextEquality.{eq_iff}
use arush_adabala_tax_liabil.Prelude.{
  String, ◌≡◌, refl, ◌↔◌, ◌⊎◌, inl, inr, true, some, List, [], ◌∷◌, arith, Bool-cases, Option-cases,
  ◌==◌, string_eq, nat_eq, list_eq,
}
use arush_adabala_tax_liabil.Evals.Trajectory.{advance, all_in_order, trajectory_match}

-- The nodes of the first list stand in the second, in order, with gaps allowed.
pub data Subsequence : List String → List String → Type 0 where
  nil : (ys : List String) → Subsequence [] ys
  keep : {x : String} {xs ys : List String} → Subsequence xs ys → Subsequence (x ∷ xs) (x ∷ ys)
  skip : {y : String} {xs ys : List String} → Subsequence xs ys → Subsequence xs (y ∷ ys)

pub Subsequence-cons :
    {x : String} {xs ys : List String} → Subsequence (x ∷ xs) ys → Subsequence xs ys
Subsequence-cons (keep h) = skip h
Subsequence-cons (skip h) = skip (Subsequence-cons h)

pub Subsequence-refl : (xs : List String) → Subsequence xs xs
Subsequence-refl [] = nil []
Subsequence-refl (x ∷ xs) = keep (Subsequence-refl xs)

invert :
    {x y : String} {xs ys : List String}
    → Subsequence (x ∷ xs) (y ∷ ys)
    → ((x ≡ y) × Subsequence xs ys) ⊎ Subsequence (x ∷ xs) ys
invert (keep h) = inl (refl, h)
invert (skip h) = inr h

nothing_in_nil : {zs ys : List String} → Subsequence zs ys → ys ≡ [] → zs ≡ []
nothing_in_nil (nil ys) e = refl
nothing_in_nil (keep h) e = cc
nothing_in_nil (skip h) e = cc

-- Found at its first occurrence: what is left serves every match that starts with the node.
advance_complete :
    (x : String) (xs ys : List String)
    → Subsequence (x ∷ xs) ys
    → (rest : List String) × (advance x ys ≡ some rest) × Subsequence xs rest
unfolding advance
advance_complete x xs [] h = cc (nothing_in_nil h refl)
advance_complete x xs (y ∷ ys) h = elim (Bool-cases (y == x)) [
  | inl same ↦ (ys, rw same, elim (invert h) [ inl (e, t) ↦ t | inr t ↦ Subsequence-cons t ])
  | inr differs ↦ elim (invert h) [
    | inl (e, t) ↦ absurd (ground (arith, eq_iff y x))
    | inr t ↦ let (rest, found, left) = advance_complete x xs ys t in (rest, rw differs found, left)
  ]
]

advance_sound :
    (x : String) (xs ys rest : List String)
    → advance x ys ≡ some rest
    → Subsequence xs rest
    → Subsequence (x ∷ xs) ys
unfolding advance
advance_sound x xs [] rest e h = cc
advance_sound x xs (y ∷ ys) rest e h = elim (Bool-cases (y == x)) [
  | inl same ↦ let here : rest ≡ ys = ground arith in rw ((eq_iff y x).0 same) (keep (rw here at h))
  | inr differs ↦ skip (advance_sound x xs ys rest (ground arith) h)
]

in_order_complete :
    (expected actual : List String)
    → Subsequence expected actual
    → all_in_order expected actual ≡ true
unfolding all_in_order
in_order_complete [] actual h = refl
in_order_complete (x ∷ xs) actual h =
    let (rest, found, left) = advance_complete x xs actual h in
    rw (found, all_in_order) (in_order_complete xs rest left)

in_order_sound :
    (expected actual : List String)
    → all_in_order expected actual ≡ true
    → Subsequence expected actual
unfolding all_in_order
in_order_sound [] actual h = nil actual
in_order_sound (x ∷ xs) actual h = elim (Option-cases (advance x actual)) [
  | inl gone ↦ ground arith
  | inr (rest, found) ↦ advance_sound x xs actual rest found (in_order_sound xs rest (ground arith))
]

-- A run scores 1.0 exactly when its golden nodes are a subsequence of the nodes that ran.
pub trajectory_match-eq-one_iff :
    (actual expected : List String)
    → (trajectory_match actual expected ≡ 1) ↔ Subsequence expected actual
unfolding trajectory_match
trajectory_match-eq-one_iff actual expected = (
  λ h. in_order_sound expected actual (ground arith),
  λ h. rw (in_order_complete expected actual h),
)
