-- ===== src/Agent/Runtime/Sessions.antt =====
-- runtime.py: the histories of `session` and the tasks that it starts, up to the shutdown.
use arush_adabala_tax_liabil.Prelude.{
  suc, ◌<◌, ◌≡◌, refl, sym, ◌∙◌, ◌≢◌, ◌⊎◌, inl, inr, Bool, true, false, Option, none, some, List,
  ◌∷◌, ◌++◌, Exc, Result, ok, raised, dependency_unavailable, string_eq, nat_eq, list_eq,
}
use mathlib.Core.Path.{subst}
use arush_adabala_tax_liabil.Agent.Runtime.{
  SessionSlot, no_session, published, waited, awaited, spawn, session_found, session, serve_opened,
  serve_failed, serve_lost,
}

-- Nobody waits under the lock: a caller waits there while the first task has published nothing.
abbrev pub Free : {S : Type 0} → SessionSlot S → Type 0
Free t = (t.up ≡ true) ⊎ (t.opening ≡ 0)

-- A caller asks, a task that is still opening ends its attempts, one way or the other, or a task loses
-- the session that it has open.
pub data Step {S : Type 0} (t : SessionSlot S) : SessionSlot S → Type 0 where
  asks : {u : SessionSlot S} → Free t → u ≡ (session t).1 → Step t u
  opens : (s : S) {u : SessionSlot S} → 0 < t.opening → u ≡ serve_opened s t → Step t u
  fails : (e : Exc) {u : SessionSlot S} → 0 < t.opening → u ≡ serve_failed e t → Step t u
  loses :
      (e : Exc) (before after : List S) (s : S) {u : SessionSlot S}
      → t.held ≡ before ++ s ∷ after
      → u ≡ serve_lost e (before ++ after) t
      → Step t u

pub data Reach {S : Type 0} (t : SessionSlot S) : SessionSlot S → Type 0 where
  here : Reach t t
  next : {u v : SessionSlot S} → Reach t u → Step u v → Reach t v

module _ {S : Type 0} where
  -- Once a task has published, there is an error or a session.
  abbrev pub IsPublished : SessionSlot S → Type 0
  IsPublished t = t.up ≡ true → t.error ≡ none → t.session ≢ none

  found-slot :
      (o : Option S) (t : SessionSlot S)
      → ((session_found o t).1 ≡ t) ⊎ ((session_found o t).1 ≡ spawn t)
  unfolding session_found
  found-slot none t = inr refl
  found-slot (some s) t = inl refl

  Step-IsPublished : {t u : SessionSlot S} → IsPublished t → Step t u → IsPublished u
  unfolding spawn session serve_opened serve_failed serve_lost
  Step-IsPublished {t} h (asks free e) = elim (found-slot t.session t) [
    | inl same ↦ subst IsPublished (sym (e ∙ same)) h
    | inr more ↦ subst IsPublished (sym (e ∙ more)) h
  ]
  Step-IsPublished h (opens s some_left e) = subst IsPublished (sym e) (λ up fine missing. cc)
  Step-IsPublished h (fails x some_left e) = subst IsPublished (sym e) (λ up fine missing. cc)
  Step-IsPublished h (loses x before after s holds e) =
      subst IsPublished (sym e) (λ up fine missing. cc)

  Reach-IsPublished : {t u : SessionSlot S} → IsPublished t → Reach t u → IsPublished u
  Reach-IsPublished h here = h
  Reach-IsPublished h (next r st) = Step-IsPublished (Reach-IsPublished h r) st

  no_session-IsPublished : IsPublished no_session
  no_session-IsPublished up fine missing = cc

  -- A call that goes on has a session, the one in the slot, or fails with `DependencyUnavailable`.
  abbrev pub Answers : SessionSlot S → Option (Result S) → Type 0
  Answers t none = t.up ≡ false
  Answers t (some (ok s)) = t.session ≡ some s
  Answers t (some (raised e)) = (e ≡ dependency_unavailable) × (t.error ≢ none) × (t.session ≡ none)

  waited-Answers :
      (b : Bool) (x : Option Exc) (o : Option S) (t : SessionSlot S)
      → IsPublished t
      → t.up ≡ b
      → t.error ≡ x
      → t.session ≡ o
      → o ≡ none
      → Answers t (waited b x o)
  unfolding waited published
  waited-Answers false x o t h up e s missing = up
  waited-Answers true (some x) o t h up e s missing = (refl, (λ k. cc), s ∙ missing)
  waited-Answers true none none t h up e s missing = absurd (h up e s)
  waited-Answers true none (some s) t h up e found missing = found

  found-Answers :
      (o : Option S) (t : SessionSlot S)
      → IsPublished t
      → t.session ≡ o
      → Answers t (session_found o t).0
  unfolding session_found awaited spawn
  found-Answers (some s) t h e = e
  found-Answers none t h e = waited-Answers t.up t.error t.session t h refl refl refl e

  found-IsPublished :
      (o : Option S) (t : SessionSlot S) → IsPublished t → IsPublished (session_found o t).1
  unfolding session_found spawn
  found-IsPublished none t h = h
  found-IsPublished (some s) t h = h

  -- What a caller that waited has when it goes on: the session, or `DependencyUnavailable`.
  abbrev pub Resumes : SessionSlot S → Option (Result S) → Type 0
  Resumes u none = ⊥
  Resumes u (some (ok s)) = u.session ≡ some s
  Resumes u (some (raised e)) = (e ≡ dependency_unavailable) × (u.error ≢ none)

  waited-Resumes :
      (b : Bool) (x : Option Exc) (o : Option S) (u : SessionSlot S)
      → IsPublished u
      → u.up ≡ b
      → b ≡ true
      → u.error ≡ x
      → u.session ≡ o
      → Resumes u (waited b x o)
  unfolding waited published
  waited-Resumes false x o u h up now e s = cc
  waited-Resumes true (some x) o u h up now e s = (refl, λ k. cc)
  waited-Resumes true none none u h up now e s = absurd (h up e s)
  waited-Resumes true none (some s) u h up now e found = found

  -- In every history of calls, openings, failures and losses: a call waits if no task has published
  -- yet, returns the session that is open, or raises `DependencyUnavailable` after a failure. A caller
  -- that waits goes on in some later state in which a task has published: it too has the session that is
  -- open then, or raises `DependencyUnavailable` after a failure. The `assert` fires for neither.
  pub session-Answers :
      (t : SessionSlot S)
      → Reach no_session t
      → Answers t (session t).0
        × ((u : SessionSlot S) → Reach (session t).1 u → u.up ≡ true → Resumes u (awaited u))
  unfolding session awaited
  session-Answers t r =
      let published_before : IsPublished t = Reach-IsPublished no_session-IsPublished r in
      (
        found-Answers t.session t published_before refl,
        λ u later up.
            waited-Resumes u.up u.error u.session u
              (Reach-IsPublished (found-IsPublished t.session t published_before) later) refl up
              refl refl,
      )

  -- A failure has been published; that is never withdrawn.
  abbrev pub HasFailed : SessionSlot S → Type 0
  HasFailed t = (t.error ≢ none) × (t.up ≡ true)

  Step-HasFailed : {t u : SessionSlot S} → HasFailed t → Step t u → HasFailed u
  unfolding spawn session serve_opened serve_failed serve_lost
  Step-HasFailed {t} h (asks free e) = elim (found-slot t.session t) [
    | inl same ↦ subst HasFailed (sym (e ∙ same)) h
    | inr more ↦ subst HasFailed (sym (e ∙ more)) h
  ]
  Step-HasFailed h (opens s some_left e) = subst HasFailed (sym e) (h.0, refl)
  Step-HasFailed h (fails x some_left e) = subst HasFailed (sym e) ((λ k. cc), refl)
  Step-HasFailed h (loses x before after s holds e) = subst HasFailed (sym e) ((λ k. cc), refl)

  Reach-HasFailed : {t u : SessionSlot S} → HasFailed t → Reach t u → HasFailed u
  Reach-HasFailed h here = h
  Reach-HasFailed h (next r st) = Step-HasFailed (Reach-HasFailed h r) st

  waited_failed :
      (b : Bool) (x : Option Exc) (o : Option S)
      → b ≡ true
      → x ≢ none
      → waited b x o ≡ some (raised dependency_unavailable)
  unfolding waited published
  waited_failed false x o up h = cc
  waited_failed true none o up h = absurd (h refl)
  waited_failed true (some e) o up h = refl

  found_failed :
      (o : Option S) (u : SessionSlot S)
      → HasFailed u
      → o ≡ none
      → ((session_found o u).0 ≡ some (raised dependency_unavailable))
        × ((session_found o u).1.opening ≡ suc u.opening)
  unfolding session_found awaited spawn
  found_failed none u h e = (waited_failed u.up u.error u.session h.1 h.0, refl)
  found_failed (some s) u h e = cc

  -- After a failed open, in every later state in which no session is open, a call raises at once with
  -- the earlier error, while the task that it has started is still opening: the server may be back.
  pub session-stale :
      (t u : SessionSlot S)
      → HasFailed t
      → Reach t u
      → u.session ≡ none
      → ((session u).0 ≡ some (raised dependency_unavailable))
        × ((session u).1.opening ≡ suc u.opening)
  unfolding session
  session-stale t u h r missing = found_failed u.session u (Reach-HasFailed h r) missing
