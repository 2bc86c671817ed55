-- ===== src/Agent/Deadline/Tests.antt =====
-- A node that is cancelled at its deadline.
use arush_adabala_tax_liabil.Prelude.{
  ℕ, ◌≡◌, refl, false, Option, none, some, [], ok, string_eq, nat_eq, list_eq,
}
use arush_adabala_tax_liabil.Agent.State.{Update, no_update}
use arush_adabala_tax_liabil.Agent.Deadline.{timed_out, RunTree, deadline}

abbrev run : Option RunTree
run = some (record { deadline_exceeded = false; limit_ms = none })

abbrev sentinel : Update ℕ ℕ
sentinel = record no_update { docs = some [] }

missed : (deadline 250 sentinel timed_out run).0 ≡ ok sentinel
unfolding deadline
missed = refl
