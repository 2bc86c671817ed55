-- ===== src/Agent/Runtime/Graphs.antt =====
-- runtime.py: the histories of `graph`, and the background loop that opens it.
use arush_adabala_tax_liabil.Prelude.{
  ℕ, zero, suc, ◌≡◌, refl, sym, ap, ◌∙◌, ◌⊎◌, inl, inr, Option, none, some, [], ◌∷◌, Exc, Result,
  ok, raised, ok_injective, string_eq, nat_eq, list_eq, cancelled,
}
use mathlib.Core.Path.{subst}
use arush_adabala_tax_liabil.Agent.Runtime.{
  GraphSlot, no_graph, counted, after_attempt, retrying, unavailable, settle_open, locked_found,
  graph_locked, graph_found, graph,
}

some_injective : {G : Type 0} (a b : G) → some a ≡ some b → a ≡ b
some_injective a b h = cc

module _ {G : Type 0} where
  -- No graph and no closer, or one graph and its closer.
  abbrev pub Once : GraphSlot G → Type 0
  Once s = ((s.graph ≡ none) × (s.stack ≡ [])) ⊎ ((g : G) × (s.graph ≡ some g) × (s.stack ≡ g ∷ []))

  -- What an opening that began with no graph leaves.
  abbrev Opened : Result G × GraphSlot G → Type 0
  Opened (ok g, s) = (s.graph ≡ some g) × (s.stack ≡ g ∷ [])
  Opened (raised e, s) = (s.graph ≡ none) × (s.stack ≡ [])

  after_attempt-Opened :
      (r : Result G) (s : GraphSlot G) (again : Exc → Result G × GraphSlot G)
      → s.graph ≡ none
      → s.stack ≡ []
      → ((e : Exc) → Opened (again e))
      → Opened (after_attempt r s again)
  unfolding after_attempt counted
  after_attempt-Opened (ok g) s again hg hs f = (refl, ap (λ t. g ∷ t) hs)
  after_attempt-Opened (raised cancelled) s again hg hs f = (hg, hs)
  after_attempt-Opened (raised e) s again hg hs f = f _

  module _ (build : ℕ → Result G) where
    retrying-Opened :
        (left : ℕ) (s : GraphSlot G)
        → s.graph ≡ none
        → s.stack ≡ []
        → Opened (retrying build left s)
    unfolding retrying counted
    retrying-Opened zero s hg hs = after_attempt-Opened (build s.built) s _ hg hs (λ e. (hg, hs))
    retrying-Opened (suc left) s hg hs =
        after_attempt-Opened (build s.built) s _ hg hs (λ e. retrying-Opened left (counted s) hg hs)

    settle-Opened : (p : Result G × GraphSlot G) → Opened p → Opened (settle_open build p)
    unfolding settle_open unavailable
    settle-Opened (ok g, s) h = h
    settle-Opened (raised cancelled, s) h = h
    settle-Opened (raised e, s) h = h

    locked-Opened :
        (o : Option G) (s : GraphSlot G) → Once s → s.graph ≡ o → Opened (locked_found build o s)
    unfolding locked_found
    locked-Opened (some g) s (inl (hg, hs)) e = cc (sym e ∙ hg)
    locked-Opened (some g) s (inr (f, hg, hs)) e =
        let same : some f ≡ some g = sym hg ∙ e in
        (e, hs ∙ ap (λ k. k ∷ []) (some_injective f g same))
    locked-Opened none s (inl (hg, hs)) e = settle-Opened _ (retrying-Opened 2 s hg hs)
    locked-Opened none s (inr (f, hg, hs)) e = cc (sym e ∙ hg)

    Opened-Once : (p : Result G × GraphSlot G) → Opened p → Once p.1
    Opened-Once (ok g, s) h = inr (g, h.0, h.1)
    Opened-Once (raised e, s) h = inl h

-- Callers that pass the first look and then take the lock, one after the other, whatever building
-- comes to for each.
pub data Reach {G : Type 0} (s : GraphSlot G) : GraphSlot G → Type 0 where
  here : Reach s s
  next :
      {t u : GraphSlot G} (build : ℕ → Result G)
      → Reach s t
      → u ≡ (graph_locked build t).1
      → Reach s u

module _ {G : Type 0} where
  locked-Once : (build : ℕ → Result G) (t : GraphSlot G) → Once t → Once (graph_locked build t).1
  unfolding graph_locked
  locked-Once build t h = Opened-Once build _ (locked-Opened build t.graph t h refl)

  Reach-Once : {s t : GraphSlot G} → Once s → Reach s t → Once t
  Reach-Once h here = h
  Reach-Once h (next {t} build r e) = subst Once (sym e) (locked-Once build t (Reach-Once h r))

  -- A slot with that graph keeps it, and hands it out.
  abbrev pub Has : G → GraphSlot G → Type 0
  Has g s = (s.graph ≡ some g) × (s.stack ≡ g ∷ [])

  found-Has :
      (build : ℕ → Result G) (g : G) (o : Option G) (s : GraphSlot G)
      → o ≡ some g
      → locked_found build o s ≡ (ok g, s)
  unfolding locked_found
  found-Has build g none s h = cc
  found-Has build g (some f) s h = ap (λ k. (ok k, s)) (some_injective f g h)

  Reach-Has : {s t : GraphSlot G} (g : G) → Has g s → Reach s t → Has g t
  unfolding graph_locked
  Reach-Has g h here = h
  Reach-Has g h (next {t} build r e) =
      let before : Has g t = Reach-Has g h r in
      subst (Has g) (sym (e ∙ ap (λ p. p.1) (found-Has build g t.graph t before.0))) before

  Opened-ok : (g : G) (p : Result G × GraphSlot G) → Opened p → p.0 ≡ ok g → Has g p.1
  Opened-ok g (ok f, s) h e = subst (λ x. Has x s) (ok_injective f g e) h
  Opened-ok g (raised x, s) h e = cc

  found-ok :
      (build : ℕ → Result G) (g : G) (o : Option G) (s : GraphSlot G)
      → o ≡ some g
      → (graph_found build o s).0 ≡ ok g
  unfolding graph_found
  found-ok build g none s h = cc
  found-ok build g (some f) s h = ap ok (some_injective f g h)

  graph-Has :
      (build : ℕ → Result G) (g : G) (s : GraphSlot G) → s.graph ≡ some g → (graph build s).0 ≡ ok g
  unfolding graph
  graph-Has build g s h = found-ok build g s.graph s h

  -- Whatever building comes to, for each of the callers that take the lock in turn: at most one graph
  -- is kept, with its one closer; and once a caller has a graph, each later call returns that one.
  pub graph-one :
      (s t : GraphSlot G) (build later : ℕ → Result G) (g : G)
      → Reach no_graph s
      → (graph_locked build s).0 ≡ ok g
      → Reach (graph_locked build s).1 t
      → Once s × ((graph later t).0 ≡ ok g) × (t.stack ≡ g ∷ [])
  unfolding graph_locked
  graph-one s t build later g r e r' =
      let once : Once s = Reach-Once (inl (refl, refl)) r in
      let has : Has g t =
        Reach-Has g (Opened-ok g _ (locked-Opened build s.graph s once refl) e) r' in
      (once, graph-Has later g t has.0, has.1)
