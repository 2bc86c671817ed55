-- ===== src/Prelude/Raises.antt =====
-- A call that returns or raises, and a call over a state that keeps what was written before a
-- raise. The exceptions are the classes that the three services raise or catch by name.
use Prim.Native.Nat.{ℕ}
use mathlib.Core.Path.{◌≡◌, refl}
use mathlib.Core.Logic.{◌⊎◌, inl, inr}

pub data Exc : Type 0 where
  budget_exceeded : ℕ → ℕ → Exc
  value_error key_error type_error runtime_error timeout_error validation_error : Exc
  dependency_unavailable graph_recursion http_timeout http_error cancelled other : Exc

pub data Result {ℓ} (A : Type ℓ) : Type ℓ where
  ok : A → Result A
  raised : Exc → Result A

abbrev pub bind {ℓ κ} : {A : Type ℓ} {B : Type κ} → Result A → (A → Result B) → Result B
bind (ok a) f = f a
bind (raised e) f = raised e

-- Inversion of a call that returned, for proofs where the parts stay shut.
pub bind-eq-ok {ℓ κ} :
    {A : Type ℓ} {B : Type κ} (m : Result A) (f : A → Result B) {b : B}
    → bind m f ≡ ok b
    → (a : A) × (m ≡ ok a) × (f a ≡ ok b)
bind-eq-ok (raised e) f h = cc
bind-eq-ok (ok a) f h = (a, refl, h)

pub ok_injective {ℓ} : {A : Type ℓ} (a b : A) → ok a ≡ ok b → a ≡ b
ok_injective a b h = cc

pub Result-cases {ℓ} :
    {A : Type ℓ} (r : Result A) → ((a : A) × (r ≡ ok a)) ⊎ ((e : Exc) × (r ≡ raised e))
Result-cases (ok a) = inl (a, refl)
Result-cases (raised e) = inr (e, refl)

abbrev pub ok_or {ℓ} : {A : Type ℓ} → Result A → A → A
ok_or (ok a) d = a
ok_or (raised e) d = d
