-- ===== src/Prelude/Dict.antt =====
-- Python's `dict`: entries in insertion order; a write to a known key stays at its place.
use arush_adabala_tax_liabil.Prelude.Equality.{Eq, ◌==◌}
use arush_adabala_tax_liabil.Prelude.Tests.{if◌then◌else◌}
use mathlib.Core.Path.{◌≡◌, refl}
use mathlib.Core.Option.{Option, none, some}
use mathlib.Core.List.{List, [], ◌∷◌}
use native.Mathlib.Omega.{arith}

abbrev pub Dict {ℓ κ} : Type ℓ → Type κ → Type (ℓ ⊔ κ)
Dict K V = List (K × V)

abbrev pub or_else {ℓ} : {A : Type ℓ} → Option A → Option A → Option A
or_else (some a) o = some a
or_else none o = o

abbrev pub get_or {ℓ} : {A : Type ℓ} → Option A → A → A
get_or (some a) d = a
get_or none d = d

module _ {ℓ κ} {K : Type ℓ} {V : Type κ} ⦃e : Eq K⦄ where
  unfoldable pub lookup : K → Dict K V → Option V
  lookup k [] = none
  lookup k ((j, v) ∷ d) = if j == k then some v else lookup k d

  -- `d[k] = v`
  unfoldable pub insert : K → V → Dict K V → Dict K V
  insert k v [] = (k, v) ∷ []
  insert k v ((j, w) ∷ d) = if j == k then (j, v) ∷ d else (j, w) ∷ insert k v d

  -- `{**d, **new}`
  unfoldable pub update : Dict K V → Dict K V → Dict K V
  update d [] = d
  update d ((k, v) ∷ new) = update (insert k v d) new

  pub lookup-insert :
      (k j : K) (v : V) (d : Dict K V)
      → lookup j (insert k v d) ≡ (if k == j then some v else lookup j d)
  unfolding lookup insert
  lookup-insert k j v [] = refl
  lookup-insert k j v ((i, w) ∷ d) =
      ground (arith, e.beq_iff k j, e.beq_iff i k, e.beq_iff i j, lookup-insert k j v d)

  -- No key is listed twice.
  abbrev pub Distinct : Dict K V → Type κ
  Distinct [] = Unit
  Distinct ((k, v) ∷ d) = (lookup k d ≡ none) × Distinct d

  pub insert-Distinct : (k : K) (v : V) (d : Dict K V) → Distinct d → Distinct (insert k v d)
  unfolding insert lookup
  insert-Distinct k v [] h = (refl, tt)
  insert-Distinct k v ((i, w) ∷ d) h =
      ground (arith, insert-Distinct k v d h.1, lookup-insert k i v d, e.beq_iff i k, e.beq_iff k i)

  -- In a mapping that is written over, the newer value stands where it has the key.
  pub lookup-update :
      (j : K) (d new : Dict K V)
      → Distinct new
      → lookup j (update d new) ≡ or_else (lookup j new) (lookup j d)
  unfolding update lookup
  lookup-update j d [] h = refl
  lookup-update j d ((k, v) ∷ new) h =
      ground (arith, lookup-update j (insert k v d) new h.1, lookup-insert k j v d, e.beq_iff k j)

  pub update-Distinct : (d new : Dict K V) → Distinct d → Distinct (update d new)
  unfolding update
  update-Distinct d [] h = h
  update-Distinct d ((k, v) ∷ new) h = update-Distinct (insert k v d) new (insert-Distinct k v d h)
