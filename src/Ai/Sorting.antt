-- ===== src/Ai/Sorting.antt =====
-- Python's `sorted(..., key=..., reverse=True)`: by descending key, equal keys in their old order. The
-- comparison of keys is a parameter.
use arush_adabala_tax_liabil.Prelude.{
  ℕ, zero, suc, ◌≡◌, refl, ap, ◌∙◌, inl, inr, Bool, true, false, List, [], ◌∷◌, if◌then◌else◌,
  Bool-cases, length, take, All, All-take, string_eq, nat_eq, list_eq,
}

-- Keys that compare as numbers do, none of them a NaN.
pub record IsOrder {κ} {F : Type κ} (gt : F → F → Bool) : Type κ where
  pub asymmetric : (a b : F) → gt a b ≡ true → gt b a ≡ false
  pub weak : (a b c : F) → gt a b ≡ false → gt b c ≡ false → gt a c ≡ false

module _ {ℓ κ} {A : Type ℓ} {F : Type κ} (gt : F → F → Bool) (key : A → F) where
  unfoldable pub insert_desc : A → List A → List A
  insert_desc x [] = x ∷ []
  insert_desc x (y ∷ ys) =
      let rest = insert_desc x ys in if gt (key y) (key x) then y ∷ rest else x ∷ y ∷ ys

  unfoldable pub sort_desc : List A → List A
  sort_desc [] = []
  sort_desc (x ∷ xs) = insert_desc x (sort_desc xs)

  -- No element has a key that the one before it does not reach.
  abbrev pub IsDescending : List A → Type 0
  IsDescending [] = Unit
  IsDescending (x ∷ xs) = All (λ y. gt (key y) (key x) ≡ false) xs × IsDescending xs

  module _ {θ} (P : A → Type θ) where
    All-insert_desc : (x : A) (xs : List A) → P x → All P xs → All P (insert_desc x xs)
    unfolding insert_desc
    All-insert_desc x [] h hs = (h, tt)
    All-insert_desc x (y ∷ ys) h hs = elim (Bool-cases (gt (key y) (key x))) [
      | inl more ↦ rw more (hs.0, All-insert_desc x ys h hs.1)
      | inr less ↦ rw less (h, hs)
    ]

    pub All-sort_desc : (xs : List A) → All P xs → All P (sort_desc xs)
    unfolding sort_desc
    All-sort_desc [] h = tt
    All-sort_desc (x ∷ xs) h = All-insert_desc x (sort_desc xs) h.0 (All-sort_desc xs h.1)

  length-insert_desc : (x : A) (xs : List A) → length (insert_desc x xs) ≡ suc (length xs)
  unfolding insert_desc
  length-insert_desc x [] = refl
  length-insert_desc x (y ∷ ys) = elim (Bool-cases (gt (key y) (key x))) [
    | inl more ↦ rw more (ap suc (length-insert_desc x ys))
    | inr less ↦ rw less refl
  ]

  pub length-sort_desc : (xs : List A) → length (sort_desc xs) ≡ length xs
  unfolding sort_desc
  length-sort_desc [] = refl
  length-sort_desc (x ∷ xs) = length-insert_desc x (sort_desc xs) ∙ ap suc (length-sort_desc xs)

  module _ (order : IsOrder gt) where
    under :
        (x y : A) (ys : List A)
        → gt (key y) (key x) ≡ false
        → All (λ z. gt (key z) (key y) ≡ false) ys
        → All (λ z. gt (key z) (key x) ≡ false) ys
    under x y [] h hs = tt
    under x y (z ∷ ys) h hs = (order.weak (key z) (key y) (key x) hs.0 h, under x y ys h hs.1)

    insert_desc-IsDescending :
        (x : A) (xs : List A) → IsDescending xs → IsDescending (insert_desc x xs)
    unfolding insert_desc
    insert_desc-IsDescending x [] h = (tt, tt)
    insert_desc-IsDescending x (y ∷ ys) h = elim (Bool-cases (gt (key y) (key x))) [
      | inl more ↦ rw more (
        All-insert_desc (λ z. gt (key z) (key y) ≡ false) x ys
            (order.asymmetric (key y) (key x) more) h.0,
        insert_desc-IsDescending x ys h.1,
      )
      | inr less ↦ rw less ((less, under x y ys less h.0), h)
    ]

    pub sort_desc-IsDescending : (xs : List A) → IsDescending (sort_desc xs)
    unfolding sort_desc
    sort_desc-IsDescending [] = tt
    sort_desc-IsDescending (x ∷ xs) =
        insert_desc-IsDescending x (sort_desc xs) (sort_desc-IsDescending xs)

  pub take-IsDescending : (n : ℕ) (xs : List A) → IsDescending xs → IsDescending (take n xs)
  take-IsDescending zero xs h = tt
  take-IsDescending (suc n) [] h = tt
  take-IsDescending (suc n) (x ∷ xs) h =
      (All-take (λ y. gt (key y) (key x) ≡ false) n xs h.0, take-IsDescending n xs h.1)
