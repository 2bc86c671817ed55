-- ===== src/Agent/Runtime/Tests.antt =====
-- A checkpointer that comes up at the fifth attempt, and a session after one failure.
use arush_adabala_tax_liabil.Prelude.{
  ℕ, suc, ◌<◌, ◌≡◌, refl, sym, ◌≢◌, inr, true, none, some, [], ◌∷◌, arith, if◌then◌else◌, ◌==◌,
  Result, ok, raised, dependency_unavailable, string_eq, nat_eq, list_eq, http_error,
}
use arush_adabala_tax_liabil.Agent.Runtime.{
  no_graph, after_attempt, retrying, unavailable, settle_open, locked_found, graph_locked, graph,
  reconnect_forever, SessionSlot, no_session, awaited, spawn, session_found, session, serve_failed,
}
use arush_adabala_tax_liabil.Agent.Runtime.Graphs
use arush_adabala_tax_liabil.Agent.Runtime.Graphs.{graph-one}
use arush_adabala_tax_liabil.Agent.Runtime.Sessions
use arush_adabala_tax_liabil.Agent.Runtime.Sessions.{
  Answers, Resumes, asks, fails, session-Answers, session-stale,
}
use arush_adabala_tax_liabil.Agent.Runtime.Reconnect.{UpFrom, reconnect_forever-settles}

abbrev build : ℕ → Result ℕ
build n = if n == 4 then ok 7 else raised http_error

comes_up : UpFrom build 7 4 0
comes_up = ((λ j low high. (http_error, below j high, λ h. cc)), refl)
  where
    below : (j : ℕ) → j < 4 → build j ≡ raised http_error
    below j h = ground arith

reconnect_forever-settles_example :
    reconnect_forever build 6 no_graph
    ≡ (some (ok tt), record { graph = some 7; built = 5; stack = 7 ∷ [] })
reconnect_forever-settles_example =
    reconnect_forever-settles build 7 4 6 no_graph refl (omega arith) comes_up (omega arith)

abbrev first : ℕ → Result ℕ
first n = ok 7

returned : (graph_locked first no_graph).0 ≡ ok 7
unfolding graph_locked locked_found settle_open retrying after_attempt unavailable
returned = refl

graph-one_example :
    Graphs.Once {G = ℕ} no_graph
    × ((graph build (graph_locked first no_graph).1).0 ≡ ok 7)
    × ((graph_locked first no_graph).1.stack ≡ 7 ∷ [])
graph-one_example =
    graph-one no_graph (graph_locked first no_graph).1 first build 7 Graphs.here returned
      Graphs.here

abbrev asked : SessionSlot ℕ
asked = spawn no_session

abbrev broken : SessionSlot ℕ
broken = serve_failed http_error asked

asking : (session {S = ℕ} no_session).1 ≡ asked
unfolding session session_found
asking = refl

broke : Sessions.Reach no_session broken
unfolding spawn
broke =
    Sessions.next (Sessions.next Sessions.here (asks (inr refl) (sym asking)))
      (fails http_error (omega arith) refl)

session-Answers_example :
    Answers broken (session broken).0
    × ((u : SessionSlot ℕ)
        → Sessions.Reach (session broken).1 u
        → u.up ≡ true
        → Resumes u (awaited u))
session-Answers_example = session-Answers broken broke

has_failed : (broken.error ≢ none) × (broken.up ≡ true)
unfolding serve_failed spawn
has_failed = ((λ h. cc), refl)

session_lost : broken.session ≡ none
unfolding serve_failed
session_lost = refl

session-stale_example :
    ((session broken).0 ≡ some (raised dependency_unavailable))
    × ((session broken).1.opening ≡ suc broken.opening)
session-stale_example = session-stale broken broken has_failed Sessions.here session_lost
