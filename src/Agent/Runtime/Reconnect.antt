-- ===== src/Agent/Runtime/Reconnect.antt =====
-- runtime.py: `reconnect_forever` against a checkpointer that comes up.
use arush_adabala_tax_liabil.Prelude.{
  ℕ, zero, suc, ◌+◌, ◌-◌, ◌≤◌, ◌<◌, ◌≡◌, refl, sym, ap, ◌∙◌, ◌≢◌, ◌⊎◌, inl, inr, Option, none, some,
  ◌∷◌, arith, Exc, Result, ok, raised, dependency_unavailable, string_eq, nat_eq, list_eq,
  cancelled,
}
use native.Mathlib.Decide.{dec_lt}
use mathlib.Core.Path.{subst}
use arush_adabala_tax_liabil.Agent.Runtime.{
  GraphSlot, counted, after_attempt, retrying, unavailable, settle_open, locked_found, graph_locked,
  graph_found, graph, reconnected, round, reconnect_forever,
}

module _ {G : Type 0} (build : ℕ → Result G) (g : G) (k : ℕ) where
  -- Building fails, and is not cancelled, at every attempt from `n` to before the `k`-th, which
  -- succeeds.
  abbrev pub UpFrom : ℕ → Type 0
  UpFrom n =
      ((j : ℕ) → n ≤ j → j < k → (e : Exc) × (build j ≡ raised e) × (e ≢ cancelled))
      × (build k ≡ ok g)

  abbrev pub opened : GraphSlot G → GraphSlot G
  opened s = record { graph = some g; built = suc k; stack = g ∷ s.stack }

  abbrev at : GraphSlot G → ℕ → GraphSlot G
  at s b = record s { built = b }

  -- The attempts reach the one that succeeds, or fail before it.
  abbrev Progress : GraphSlot G → Result G × GraphSlot G → Type 0
  Progress s p =
      (p ≡ (ok g, opened s))
      ⊎ ((e : Exc) × (e ≢ cancelled)
          × ((b : ℕ) × (p ≡ (raised e, at s b)) × (s.built < b) × (b ≤ k)))

  not_cancelled :
      (e : Exc) (s : GraphSlot G) (again : Exc → Result G × GraphSlot G)
      → e ≢ cancelled
      → after_attempt (raised e) s again ≡ again e
  unfolding after_attempt
  not_cancelled cancelled s again h = absurd (h refl)
  not_cancelled e s again h = refl

  at_success :
      (s : GraphSlot G) (again : Exc → Result G × GraphSlot G)
      → s.built ≡ k
      → build k ≡ ok g
      → after_attempt (build s.built) s again ≡ (ok g, opened s)
  unfolding after_attempt
  at_success s again here comes_up =
      let now : build s.built ≡ ok g = ap build here ∙ comes_up in
      rw (now, after_attempt)
        (ap (λ n. (ok g, record { graph = some g; built = suc n; stack = g ∷ s.stack })) here)

  at_failure :
      (s : GraphSlot G) (again : Exc → Result G × GraphSlot G) (e : Exc)
      → build s.built ≡ raised e
      → e ≢ cancelled
      → after_attempt (build s.built) s again ≡ again e
  at_failure s again e fails h = rw fails (not_cancelled e s again h)

  counted-UpFrom : (n : ℕ) → UpFrom n → UpFrom (suc n)
  counted-UpFrom n up = ((λ j low high. up.0 j (omega arith) high), up.1)

  counted-Progress :
      (s : GraphSlot G) (p : Result G × GraphSlot G) → Progress (counted s) p → Progress s p
  unfolding counted
  counted-Progress s p (inl h) = inl h
  counted-Progress s p (inr (e, nc, (b, h, low, high))) = inr (e, nc, (b, h, omega arith, high))

  not_before : (n : ℕ) → n ≤ k → ¬ (n < k) → n ≡ k
  not_before n low h = ground arith

  retrying-Progress :
      (left : ℕ) (s : GraphSlot G)
      → s.built ≤ k
      → UpFrom s.built
      → Progress s (retrying build left s)
  unfolding retrying counted
  retrying-Progress zero s low up = elim (dec_lt s.built k) [
    | no here ↦ inl (at_success s _ (not_before s.built low here) up.1)
    | yes early ↦
        let (e, fails, nc) = up.0 s.built (omega arith) early in
        inr (e, nc, (suc s.built, at_failure s _ e fails nc, omega arith, omega arith))
  ]
  retrying-Progress (suc left) s low up = elim (dec_lt s.built k) [
    | no here ↦ inl (at_success s _ (not_before s.built low here) up.1)
    | yes early ↦
        let (e, fails, nc) = up.0 s.built (omega arith) early in
        subst (Progress s) (sym (at_failure s _ e fails nc)) (
          counted-Progress s _
            (retrying-Progress left (counted s) (omega arith) (counted-UpFrom s.built up)))
  ]

  -- A call of `graph` on an empty slot opens it, or raises `DependencyUnavailable` further on.
  abbrev Tried : GraphSlot G → Result G × GraphSlot G → Type 0
  Tried s p =
      (p ≡ (ok g, opened s))
      ⊎ ((b : ℕ) × (p ≡ (raised dependency_unavailable, at s b)) × (s.built < b) × (b ≤ k))

  unavailable_retried :
      (e : Exc) → e ≢ cancelled → unavailable build (raised e) ≡ raised dependency_unavailable
  unfolding unavailable
  unavailable_retried cancelled h = absurd (h refl)
  unavailable_retried e h = refl

  settle-Tried :
      (s : GraphSlot G) (p : Result G × GraphSlot G) → Progress s p → Tried s (settle_open build p)
  unfolding settle_open unavailable
  settle-Tried s p (inl h) = inl (ap (settle_open build) h)
  settle-Tried s p (inr (e, nc, (b, h, low, high))) =
      inr
        (b, ap (settle_open build) h ∙ ap (λ r. (r, at s b)) (unavailable_retried e nc), low, high)

  locked-Tried :
      (o : Option G) (s : GraphSlot G)
      → o ≡ none
      → s.built ≤ k
      → UpFrom s.built
      → Tried s (locked_found build o s)
  unfolding locked_found
  locked-Tried none s h low up = settle-Tried s _ (retrying-Progress 2 s low up)
  locked-Tried (some f) s h low up = cc

  found-Tried :
      (o : Option G) (s : GraphSlot G)
      → o ≡ none
      → s.graph ≡ none
      → s.built ≤ k
      → UpFrom s.built
      → Tried s (graph_found build o s)
  unfolding graph_found graph_locked
  found-Tried none s h empty low up = locked-Tried s.graph s empty low up
  found-Tried (some f) s h empty low up = cc

  graph-Tried :
      (s : GraphSlot G) → s.graph ≡ none → s.built ≤ k → UpFrom s.built → Tried s (graph build s)
  unfolding graph
  graph-Tried s empty low up = found-Tried s.graph s empty empty low up

  round_empty :
      (o : Option G) (s : GraphSlot G)
      (again : GraphSlot G → Option (Result (Unit {0})) × GraphSlot G)
      → o ≡ none
      → round build o s again ≡ reconnected build (graph build s) again
  unfolding round
  round_empty none s again h = refl
  round_empty (some f) s again h = cc

  settled :
      (rounds : ℕ) (s : GraphSlot G)
      → 0 < rounds
      → reconnect_forever build rounds (opened s) ≡ (some (ok tt), opened s)
  unfolding reconnect_forever round
  settled zero s h = elim h [ ]
  settled (suc rounds) s h = refl

  from : (b n : ℕ) → n < b → UpFrom n → UpFrom b
  from b n h up = ((λ j low high. up.0 j (omega arith) high), up.1)

  -- A checkpointer that comes up at the `k`-th attempt, counted from zero, after attempts that fail and
  -- are not cancelled, is opened by the background loop, if it has more rounds than there are attempts
  -- left: the loop settles with that graph and its closer, after exactly `k + 1` attempts in all.
  pub reconnect_forever-settles :
      (rounds : ℕ) (s : GraphSlot G)
      → s.graph ≡ none
      → s.built ≤ k
      → UpFrom s.built
      → k - s.built + 1 < rounds
      → reconnect_forever build rounds s ≡ (some (ok tt), opened s)
  unfolding reconnect_forever reconnected
  reconnect_forever-settles zero s empty low up enough = absurd (omega arith)
  reconnect_forever-settles (suc rounds) s empty low up enough =
      round_empty s.graph s (reconnect_forever build rounds) empty
      ∙ elim (graph-Tried s empty low up) [
        | inl h ↦
            ap (λ p. reconnected build p (reconnect_forever build rounds)) h
            ∙ settled rounds s (omega arith)
        | inr (b, h, later, high) ↦
            ap (λ p. reconnected build p (reconnect_forever build rounds)) h
            ∙ reconnect_forever-settles rounds (at s b) empty high (from b s.built later up)
                (omega arith)
      ]
