-- ===== src/Agent/Deadline/Degrade.antt =====
-- The ways in which a node under a deadline ends.
use arush_adabala_tax_liabil.Prelude.{
  ℕ, ◌≡◌, refl, ◌≢◌, ◌⊎◌, inl, inr, Option, Result, ok, raised, timeout_error, string_eq, nat_eq,
  list_eq,
}
use arush_adabala_tax_liabil.Agent.Deadline.{Outcome, finished, timed_out, RunTree, tag, deadline}

-- The body missed its deadline, or raised a timeout of its own.
abbrev pub Missed : {A : Type 0} → Outcome A → Type 0
Missed timed_out = Unit
Missed (finished (raised e)) = e ≡ timeout_error
Missed (finished (ok a)) = ⊥

-- The three ways in which a wrapped node may end.
abbrev pub Bounded :
    {A : Type 0} → ℕ → A → Outcome A → Option RunTree → Result A × Option RunTree → Type 0
Bounded limit sentinel outcome run (r, run') =
    (r ≢ raised timeout_error)
    × ((Missed outcome × (r ≡ ok sentinel) × (run' ≡ tag limit run))
        ⊎ ((outcome ≡ finished r) × (run' ≡ run)))

-- A wrapped node ends in one of three ways, and never by a timeout: it contributes what the body
-- returned; it raises what the body raised; or, after a miss, it contributes the sentinel and the
-- current run, if there is one, carries the tag with the limit.
pub deadline-Bounded :
    {A : Type 0} (limit : ℕ) (sentinel : A) (outcome : Outcome A) (run : Option RunTree)
    → Bounded limit sentinel outcome run (deadline limit sentinel outcome run)
unfolding deadline
deadline-Bounded limit sentinel timed_out run = ((λ h. cc), inl (tt, refl, refl))
deadline-Bounded limit sentinel (finished (raised timeout_error)) run =
    ((λ h. cc), inl (refl, refl, refl))
deadline-Bounded limit sentinel (finished (raised e)) run = ((λ h. cc), inr (refl, refl))
deadline-Bounded limit sentinel (finished (ok a)) run = ((λ h. cc), inr (refl, refl))
