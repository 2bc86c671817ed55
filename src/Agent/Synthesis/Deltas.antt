-- ===== src/Agent/Synthesis/Deltas.antt =====
-- What the deltas of one stream amount to.
use arush_adabala_tax_liabil.Prelude.{
  ℕ, zero, suc, ◌≤◌, ◌≡◌, refl, sym, ap, ◌∙◌, inl, inr, none, some, List, [], ◌∷◌, ◌++◌, arith, ltb,
  Bool-cases, length, take, string_eq, nat_eq, list_eq,
}
use mathlib.Core.List.{append-nil, append_assoc}
use arush_adabala_tax_liabil.Prelude.Text.{Text}
use arush_adabala_tax_liabil.Agent.Synthesis.{
  StreamEvent, content_block_delta, other_event, drop, fragment_of, stream_deltas,
}

unfoldable pub concat : List Text → Text
concat [] = []
concat (t ∷ ts) = t ++ concat ts

-- After every event the partial text is a prefix of `full`, and at the end it is `full`.
abbrev pub Grows : (Text → Text) → Text → Text → List StreamEvent → Type 0
Grows growing full buffer [] = growing buffer ≡ full
Grows growing full buffer (event ∷ events) =
    let buffer' = buffer ++ fragment_of event in
    (growing buffer' ≡ take (length (growing buffer')) full) × Grows growing full buffer' events

take-drop : (s l : ℕ) (t : Text) → s ≤ l → take s t ++ drop s (take l t) ≡ take l t
take-drop zero l t h = refl
take-drop (suc s) zero t h = ground arith
take-drop (suc s) (suc l) [] h = refl
take-drop (suc s) (suc l) (c ∷ t) h = ap (λ r. c ∷ r) (take-drop s l t (omega arith))

take-all : (l : ℕ) (t : Text) → length t ≤ l → take l t ≡ t
take-all zero [] h = refl
take-all zero (c ∷ t) h = ground arith
take-all (suc l) [] h = refl
take-all (suc l) (c ∷ t) h = ap (λ r. c ∷ r) (take-all l t (omega arith))

module _ (growing : Text → Text) (full : Text) where
  step_lem :
      (buffer : Text) (sent : ℕ) (events : List StreamEvent)
      → length (growing buffer) ≤ sent
      → Grows growing full buffer events
      → take sent full ++ concat (stream_deltas growing buffer sent events) ≡ full
  unfolding stream_deltas concat
  step_lem buffer sent [] h g = append-nil _ ∙ take-all sent full (rw g at h)
  step_lem buffer sent (other_event ∷ events) h g =
      step_lem buffer sent events h (rw (append-nil buffer) at g.1)
  step_lem buffer sent (content_block_delta none ∷ events) h g =
      step_lem buffer sent events h (rw (append-nil buffer) at g.1)
  step_lem buffer sent (content_block_delta (some []) ∷ events) h g =
      step_lem buffer sent events h (rw (append-nil buffer) at g.1)
  step_lem buffer sent (content_block_delta (some (c ∷ f)) ∷ events) h g =
      elim (Bool-cases (ltb sent (length (growing (buffer ++ c ∷ f))))) [
        | inl more ↦ rw more (
            sym (append_assoc (take sent full) (drop sent (growing (buffer ++ c ∷ f))) _)
            ∙ ap
                (λ t.
                  t
                  ++ concat (
                      stream_deltas growing (buffer ++ c ∷ f) (length (growing (buffer ++ c ∷ f)))
                        events))
                (ap (λ t. take sent full ++ drop sent t) g.0 ∙ take-drop sent _ full (ground arith))
            ∙ step_lem (buffer ++ c ∷ f) (length (growing (buffer ++ c ∷ f))) events (omega arith)
                g.1)
        | inr same ↦ rw same (step_lem (buffer ++ c ∷ f) sent events (ground arith) g.1)
      ]

  -- A client that appends the deltas of a stream has the whole text at its end, once and in order,
  -- where each partial text is a prefix of the whole one and the last is all of it.
  pub deltas_reveal :
      (events : List StreamEvent)
      → growing [] ≡ []
      → Grows growing full [] events
      → concat (stream_deltas growing [] 0 events) ≡ full
  deltas_reveal events empty g = step_lem [] 0 events (rw empty (omega arith)) g
