-- ===== src/Prelude/Text/Separator.antt =====
-- Text before a character that does not stand in it is determined by the whole.
use mathlib.Core.List.{List, [], ◌∷◌, ◌++◌}
use mathlib.Core.Path.{◌≡◌, refl}
use mathlib.Core.Logic.{◌≢◌}
use native.Mathlib.Omega.{arith}
use arush_adabala_tax_liabil.Prelude.Lists.{All}
use Prim.Native.Nat.{ℕ}

abbrev pub Free : ℕ → List ℕ → Type 0
Free sep s = All (λ c. c ≢ sep) s

pub split_unique :
    (sep : ℕ) (s t r r' : List ℕ)
    → Free sep s
    → Free sep t
    → s ++ sep ∷ r ≡ t ++ sep ∷ r'
    → (s ≡ t) × (r ≡ r')
split_unique sep [] [] r r' hs ht e = ground arith
split_unique sep [] (c ∷ t) r r' hs ht e = ground arith
split_unique sep (c ∷ s) [] r r' hs ht e = ground arith
split_unique sep (c ∷ s) (d ∷ t) r r' hs ht e = ground (arith, split_unique sep s t r r' hs.1 ht.1)

not-Free-append : (sep : ℕ) (t r : List ℕ) → Free sep (t ++ sep ∷ r) → ⊥
not-Free-append sep [] r h = h.0 refl
not-Free-append sep (c ∷ t) r h = not-Free-append sep t r h.1

pub split_last_unique :
    (sep : ℕ) (s t r r' : List ℕ)
    → Free sep r
    → Free sep r'
    → s ++ sep ∷ r ≡ t ++ sep ∷ r'
    → (s ≡ t) × (r ≡ r')
split_last_unique sep [] [] r r' h h' e = ground arith
split_last_unique sep [] (c ∷ t) r r' h h' e =
    let e' : r ≡ t ++ sep ∷ r' = ground arith in absurd (not-Free-append sep t r' (rw e' at h))
split_last_unique sep (c ∷ s) [] r r' h h' e =
    let e' : r' ≡ s ++ sep ∷ r = ground arith in absurd (not-Free-append sep s r (rw e' at h'))
split_last_unique sep (c ∷ s) (d ∷ t) r r' h h' e =
    ground (arith, split_last_unique sep s t r r' h h')

pub append_cancel : (s r r' : List ℕ) → s ++ r ≡ s ++ r' → r ≡ r'
append_cancel [] r r' e = e
append_cancel (c ∷ s) r r' e = ground (arith, append_cancel s r r')
