-- ===== src/Ai/Chunker/Ids.antt =====
-- The ids that `chunk_docs` stamps on the chunks of one ingest.
use arush_adabala_tax_liabil.Prelude.{
  ℕ, zero, suc, ◌+◌, ◌-◌, ◌*◌, ◌/◌, ◌%◌, ◌≤◌, ◌<◌, min, String, ◌≡◌, refl, sym, ap, ◌∙◌, ◌≢◌, ◌↔◌,
  ◌⊎◌, inl, inr, Bool, true, false, not, ◌&&◌, ◌||◌, Option, none, some, List, [], ◌∷◌, ◌++◌, map,
  arith, ltb, leb, if◌then◌else◌, Bool-cases, Option-cases, leb→le, lt→ltb, Eq, ◌==◌, ==_refl,
  length, take, get_elem?, length-append, length-take, length-map, any, All, All-append, All-take,
  contains, Exc, Result, ok, raised, bind, bind-eq-ok, Result-cases, ok_injective, ok_or,
  budget_exceeded, value_error, key_error, type_error, runtime_error, timeout_error,
  validation_error, dependency_unavailable, string_eq, nat_eq, list_eq, graph_recursion,
  http_timeout, http_error, cancelled, other,
}
use arush_adabala_tax_liabil.Prelude.Dict.{Dict, lookup, insert, get_or, lookup-insert}
use arush_adabala_tax_liabil.Prelude.Text.{Text, codes}
use arush_adabala_tax_liabil.Prelude.Text.Decimal.{
  decimal, IsDigit, decimal-IsDigit, decimal_injective,
}
use arush_adabala_tax_liabil.Prelude.Text.Separator.{Free, split_last_unique, append_cancel}
use arush_adabala_tax_liabil.Ai.Chunker.{
  chunk_id_key, chunk_ordinal_key, doc_id_key, chunk_id_for, Document, Values, doc_id_in, stamped,
  stamp_all,
}

digits-Free : (s : Text) → All IsDigit s → Free b'-' s
digits-Free [] h = tt
digits-Free (c ∷ s) h = (ground arith, digits-Free s h.1)

-- Two chunks share an id only if they have one document and one ordinal.
pub chunk_id_for_injective :
    (d d' : Text) (n n' : ℕ) → chunk_id_for d n ≡ chunk_id_for d' n' → (d ≡ d') × (n ≡ n')
unfolding chunk_id_for
chunk_id_for_injective d d' n n' e =
    let parts : (codes "chunk-" ++ d ≡ codes "chunk-" ++ d')
        × (b'p' ∷ decimal n ≡ b'p' ∷ decimal n') =
      split_last_unique b'-' (codes "chunk-" ++ d) (codes "chunk-" ++ d') (b'p' ∷ decimal n)
        (b'p' ∷ decimal n') ((omega arith), digits-Free _ (decimal-IsDigit n))
        ((omega arith), digits-Free _ (decimal-IsDigit n')) e in
    (
      append_cancel (codes "chunk-") d d' parts.0,
      decimal_injective n n' (append_cancel (b'p' ∷ []) (decimal n) (decimal n') parts.1),
    )

same : (k d : Text) → (k == d) ≡ true ↔ k ≡ d
same k d = list_eq.beq_iff k d

module _ {V : Type 0} (values : Values V) where
  -- A chunk as `stamp_all` leaves it: its metadata name a document, and its id is of that document
  -- and an ordinal that this document has not used.
  abbrev Fresh : Dict Text ℕ → Document V → Type 0
  Fresh seen chunk =
      (d : Text) × (n : ℕ) × (lookup chunk_id_key chunk.metadata
        ≡ some (values.of_text (chunk_id_for d n)))
      × (get_or (lookup d seen) 0 ≤ n)

  AtMost : Dict Text ℕ → Dict Text ℕ → Type 0
  AtMost base seen = (d : Text) → get_or (lookup d base) 0 ≤ get_or (lookup d seen) 0

  AtMost-insert :
      (base seen : Dict Text ℕ) (k : Text)
      → AtMost base seen
      → AtMost base (insert k (get_or (lookup k seen) 0 + 1) seen)
  unfolding AtMost
  AtMost-insert base seen k h d =
      ground (arith, h d, h k, lookup-insert k d (get_or (lookup k seen) 0 + 1) seen, same k d)

  stamped-id :
      (chunk : Document V) (d : Text) (n : ℕ)
      → lookup chunk_id_key (stamped values chunk d n).metadata
        ≡ some (values.of_text (chunk_id_for d n))
  unfolding stamped arush_adabala_tax_liabil.Prelude.Equality.list_beq
  stamped-id chunk d n =
      lookup-insert chunk_id_key chunk_id_key (values.of_text (chunk_id_for d n)) (
        insert chunk_ordinal_key (values.of_int n)
          (insert doc_id_key (values.of_text d) chunk.metadata))

  stamp_all-Fresh :
      (base seen : Dict Text ℕ) (chunks : List (Document V))
      → AtMost base seen
      → All (Fresh base) (stamp_all values seen chunks)
  unfolding stamp_all AtMost
  stamp_all-Fresh base seen [] h = tt
  stamp_all-Fresh base seen (chunk ∷ chunks) h = (
    (
      doc_id_in values chunk,
      get_or (lookup (doc_id_in values chunk) seen) 0,
      stamped-id chunk _ _,
      h (doc_id_in values chunk),
    ),
    stamp_all-Fresh base
        (insert (doc_id_in values chunk) (get_or (lookup (doc_id_in values chunk) seen) 0 + 1) seen)
        chunks (AtMost-insert base seen (doc_id_in values chunk) h),
  )

  abbrev Apart : Document V → List (Document V) → Type 0
  Apart c cs = All (λ c'. lookup chunk_id_key c'.metadata ≢ lookup chunk_id_key c.metadata) cs

  abbrev pub UniqueIds : List (Document V) → Type 0
  UniqueIds [] = Unit
  UniqueIds (c ∷ cs) = Apart c cs × UniqueIds cs

  module _ (of_text_injective : (s t : Text) → values.of_text s ≡ values.of_text t → s ≡ t) where
    Fresh-Apart :
        (seen : Dict Text ℕ) (chunk : Document V) (d : Text) (n : ℕ) (cs : List (Document V))
        → get_or (lookup d seen) 0 ≡ n + 1
        → All (Fresh seen) cs
        → Apart (stamped values chunk d n) cs
    Fresh-Apart seen chunk d n [] used h = tt
    Fresh-Apart seen chunk d n (c ∷ cs) used h = (
      (λ e.
          let (d', n', id, free) = h.0 in
          let same_text : values.of_text (chunk_id_for d' n') ≡ values.of_text (chunk_id_for d n) =
            ap (λ o. get_or o (values.of_text d)) (sym id ∙ e ∙ stamped-id chunk d n) in
          let same_parts = chunk_id_for_injective d' d n' n (of_text_injective _ _ same_text) in
          ground (arith, (rw (same_parts.0) at free), same_parts.1, used)),
      Fresh-Apart seen chunk d n cs used h.1,
    )

    -- The chunks of one ingest carry pairwise different ids, whatever documents they are of.
    pub stamp_all-UniqueIds :
        (seen : Dict Text ℕ) (chunks : List (Document V)) → UniqueIds (stamp_all values seen chunks)
    unfolding stamp_all AtMost
    stamp_all-UniqueIds seen [] = tt
    stamp_all-UniqueIds seen (chunk ∷ chunks) =
        let d = doc_id_in values chunk in
        let seen' =
          insert (doc_id_in values chunk) (get_or (lookup (doc_id_in values chunk) seen) 0 + 1)
            seen in
        (
          Fresh-Apart seen' chunk d (get_or (lookup (doc_id_in values chunk) seen) 0)
              (stamp_all values seen' chunks)
              (ground (arith, lookup-insert d d (get_or (lookup d seen) 0 + 1) seen, same d d))
              (stamp_all-Fresh seen' seen' chunks (λ k. omega arith)),
          stamp_all-UniqueIds seen' chunks,
        )
