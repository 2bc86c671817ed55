-- ===== src/Prelude/Equality.antt =====
-- Equality tests as an interface: numbers, native strings, and lists of such.
use Prim.Native.Nat.{ℕ, compare, Ordering}
use Prim.Native.String.{String}
use mathlib.Core.Path.{◌≡◌, refl}
use mathlib.Core.Logic.{◌↔◌}
use mathlib.Core.Bool.{Bool, true, false, ◌&&◌}
use mathlib.Core.List.{List, [], ◌∷◌}
use native.Mathlib.Omega.{arith}
use text.Mathlib.Text.{◌==◌ as str_eq}
use text.Mathlib.TextEquality.{eq_iff}

abbrev pub nat_beq : ℕ → ℕ → Bool
nat_beq a b = elim (compare a b) [ Ordering.eq ↦ true | _ ↦ false ]

pub nat_beq_iff : (a b : ℕ) → (nat_beq a b ≡ true) ↔ (a ≡ b)
nat_beq_iff a b = ground arith

pub record Eq {ℓ} (A : Type ℓ) : Type ℓ where
  pub beq : A → A → Bool
  pub beq_iff : (a b : A) → (beq a b ≡ true) ↔ (a ≡ b)

instance abbrev pub string_eq : Eq String
string_eq = record { beq = str_eq; beq_iff = eq_iff }

infix 50 ◌==◌
-- The test of whichever instance is in scope.
abbrev pub ◌==◌ {κ} : {B : Type κ} ⦃test : Eq B⦄ → B → B → Bool
◌==◌ ⦃test⦄ = test.beq

pub ==_refl {ℓ} : {A : Type ℓ} ⦃e : Eq A⦄ (a : A) → (a == a) ≡ true
==_refl ⦃e⦄ a = (e.beq_iff a a).1 refl

instance abbrev pub nat_eq : Eq ℕ
nat_eq = record { beq = nat_beq; beq_iff = nat_beq_iff }

module _ {ℓ} {A : Type ℓ} ⦃e : Eq A⦄ where
  unfoldable pub list_beq : List A → List A → Bool
  list_beq [] [] = true
  list_beq (x ∷ xs) (y ∷ ys) = x == y && list_beq xs ys
  list_beq _ _ = false

  pub list_beq_iff : (xs ys : List A) → (list_beq xs ys ≡ true) ↔ (xs ≡ ys)
  unfolding list_beq
  list_beq_iff [] [] = ground arith
  list_beq_iff (x ∷ xs) (y ∷ ys) = ground (arith, e.beq_iff x y, list_beq_iff xs ys)
  list_beq_iff [] (y ∷ ys) = ground arith
  list_beq_iff (x ∷ xs) [] = ground arith

  instance abbrev pub list_eq : Eq (List A)
  list_eq = record { beq = list_beq; beq_iff = list_beq_iff }
