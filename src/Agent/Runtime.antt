-- ===== src/Agent/Runtime.antt =====
-- runtime.py: `Dependencies`, the two clients of the process that are opened on first use. The graph's
-- slot and the session's slot are separate records: no operation but `warmup` uses both.
pub mod Graphs
pub mod Sessions
pub mod Reconnect
mod Tests
use arush_adabala_tax_liabil.Prelude.{
  ℕ, zero, suc, ◌+◌, ◌-◌, ◌*◌, ◌/◌, ◌%◌, ◌≤◌, ◌<◌, min, String, ◌≡◌, refl, sym, ap, ◌∙◌, ◌≢◌, ◌↔◌,
  ◌⊎◌, inl, inr, Bool, true, false, not, ◌&&◌, ◌||◌, Option, none, some, List, [], ◌∷◌, ◌++◌, map,
  arith, ltb, leb, if◌then◌else◌, Bool-cases, Option-cases, leb→le, lt→ltb, Eq, ◌==◌, ==_refl,
  length, take, get_elem?, length-append, length-take, length-map, any, All, All-append, All-take,
  contains, Exc, Result, ok, raised, bind, bind-eq-ok, Result-cases, ok_injective, ok_or,
  budget_exceeded, value_error, key_error, type_error, runtime_error, timeout_error,
  validation_error, dependency_unavailable, string_eq, nat_eq, list_eq, graph_recursion,
  http_timeout, http_error, cancelled, other,
}

abbrev pub open_attempts : ℕ
open_attempts = 3

-- The slot of the graph: the calls made of `build_taxcalc_agent_graph`, and the closers on the stack.
pub record GraphSlot (G : Type 0) : Type 0 where
  pub graph : Option G
  pub built : ℕ
  pub stack : List G

abbrev pub no_graph : {G : Type 0} → GraphSlot G
no_graph = record { graph = none; built = 0; stack = [] }

module _ {G : Type 0} where
  unfoldable pub graph_ready : GraphSlot G → Bool
  graph_ready s = elim s.graph [ none ↦ false | some g ↦ true ]

  unfoldable pub counted : GraphSlot G → GraphSlot G
  counted s = record s { built = suc s.built }

  -- One attempt: a graph is kept with its closer, a cancellation is not tried again.
  unfoldable pub after_attempt :
      Result G → GraphSlot G → (Exc → Result G × GraphSlot G) → Result G × GraphSlot G
  after_attempt (ok g) s again =
      (ok g, record { graph = some g; built = suc s.built; stack = g ∷ s.stack })
  after_attempt (raised cancelled) s again = (raised cancelled, counted s)
  after_attempt (raised e) s again = again e

  -- `AsyncRetrying`, with the attempts that are left after this one; the last error is raised again.
  module _ (build : ℕ → Result G) where
    unfoldable pub retrying : ℕ → GraphSlot G → Result G × GraphSlot G
    retrying zero s = after_attempt (build s.built) s (λ e. (raised e, counted s))
    retrying (suc left) s = after_attempt (build s.built) s (λ e. retrying left (counted s))

    unfoldable pub unavailable : Result G → Result G
    unavailable (ok g) = ok g
    unavailable (raised cancelled) = raised cancelled
    unavailable (raised e) = raised dependency_unavailable

    unfoldable pub settle_open : Result G × GraphSlot G → Result G × GraphSlot G
    settle_open (r, s) = (unavailable r, s)

    -- what is done under the lock, where the slot is looked at again
    unfoldable pub locked_found : Option G → GraphSlot G → Result G × GraphSlot G
    locked_found (some g) s = (ok g, s)
    locked_found none s = settle_open (retrying 2 s)

    unfoldable pub graph_locked : GraphSlot G → Result G × GraphSlot G
    graph_locked s = locked_found s.graph s

    unfoldable pub graph_found : Option G → GraphSlot G → Result G × GraphSlot G
    graph_found (some g) s = (ok g, s)
    graph_found none s = graph_locked s

    unfoldable pub graph : GraphSlot G → Result G × GraphSlot G
    graph s = graph_found s.graph s

    -- `reconnect_forever` for a number of rounds; `none` where they have run out
    unfoldable pub reconnected :
        Result G × GraphSlot G
        → (GraphSlot G → Option (Result (Unit {0})) × GraphSlot G)
        → Option (Result (Unit {0})) × GraphSlot G
    reconnected (ok g, s) again = again s
    reconnected (raised dependency_unavailable, s) again = again s
    reconnected (raised e, s) again = (some (raised e), s)

    unfoldable pub round :
        Option G
        → GraphSlot G
        → (GraphSlot G → Option (Result (Unit {0})) × GraphSlot G)
        → Option (Result (Unit {0})) × GraphSlot G
    round (some g) s again = (some (ok tt), s)
    round none s again = reconnected (graph s) again

    unfoldable pub reconnect_forever : ℕ → GraphSlot G → Option (Result (Unit {0})) × GraphSlot G
    reconnect_forever zero s = (none, s)
    reconnect_forever (suc rounds) s = round s.graph s (reconnect_forever rounds)

-- The slot of the session: `opening` counts the `_serve_session` tasks that are still opening one, and
-- `held` lists the sessions that such tasks have open, the last first. The transports of attempts that
-- failed, which a task keeps until its end, are not counted.
pub record SessionSlot (S : Type 0) : Type 0 where
  pub session : Option S
  pub up : Bool
  pub error : Option Exc
  pub opening : ℕ
  pub held : List S

abbrev pub no_session : {S : Type 0} → SessionSlot S
no_session = record { session = none; up = false; error = none; opening = 0; held = [] }

module _ {S : Type 0} where
  -- What a caller has once it is past the wait for `_session_up`; the `assert` raises too.
  unfoldable pub published : Option Exc → Option S → Result S
  published (some e) session = raised dependency_unavailable
  published none none = raised other
  published none (some s) = ok s

  -- `none` is a caller that waits
  unfoldable pub waited : Bool → Option Exc → Option S → Option (Result S)
  waited false error session = none
  waited true error session = some (published error session)

  unfoldable pub awaited : SessionSlot S → Option (Result S)
  awaited t = waited t.up t.error t.session

  unfoldable pub spawn : SessionSlot S → SessionSlot S
  spawn t = record t { opening = suc t.opening }

  -- `session()`, up to the wait, by the session that it finds
  unfoldable pub session_found : Option S → SessionSlot S → Option (Result S) × SessionSlot S
  session_found (some s) t = (some (ok s), t)
  session_found none t = (awaited (spawn t), spawn t)

  unfoldable pub session : SessionSlot S → Option (Result S) × SessionSlot S
  session t = session_found t.session t

  -- `_serve_session`, where its attempts end in a session, and where they end in an error
  unfoldable pub serve_opened : S → SessionSlot S → SessionSlot S
  serve_opened s t = record t {
    session = some s;
    up = true;
    opening = t.opening - 1;
    held = s ∷ t.held;
  }

  unfoldable pub serve_failed : Exc → SessionSlot S → SessionSlot S
  serve_failed e t = record t { session = none; up = true; error = some e; opening = t.opening - 1 }

  -- where a session that was open is lost with an error; `held` is the list of those left
  unfoldable pub serve_lost : Exc → List S → SessionSlot S → SessionSlot S
  serve_lost e held t = record t { session = none; up = true; error = some e; held = held }
