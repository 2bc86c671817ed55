-- ===== src/Ai/Ingest/Guard.antt =====
-- pgvector_loader.py: the guard on the tenant of a conflicting row.
use arush_adabala_tax_liabil.Prelude.{
  ◌≡◌, refl, sym, inl, inr, Bool, true, false, Option, none, some, List, [], ◌∷◌, Bool-cases, ◌==◌,
  length, All, string_eq, nat_eq, list_eq,
}
use arush_adabala_tax_liabil.Prelude.Equality.{list_beq_iff}
use mathlib.Core.Path.{subst}
use arush_adabala_tax_liabil.Prelude.Text.{Text}
use arush_adabala_tax_liabil.Ai.Ingest.{
  ChunkCandidate, CorpusRow, has_key, on_conflict, insert_row, insert_rows, load_rows, stored,
  is_current, outdated, pending_candidates, row_of, also, rows_of, load_zipped, embed_all,
  embed_pending,
}

-- `P tenant_id text metadata` holds of every row.
abbrev pub Labelled : {E M : Type 0} → (Text → Text → M → Type 0) → List (CorpusRow E M) → Type 0
Labelled P t = All (λ r. P r.tenant_id r.chunk_text r.chunk_metadata) t

abbrev pub Offered : {M : Type 0} → (Text → Text → M → Type 0) → List (ChunkCandidate M) → Type 0
Offered P cs = All (λ c. P c.tenant_id c.chunk_text c.chunk_metadata) cs

module _ {E M : Type 0} (P : Text → Text → M → Type 0) where
  on_conflict-Labelled :
      (same : Bool) (r s : CorpusRow E M) (t : List (CorpusRow E M))
      → (s.tenant_id == r.tenant_id) ≡ same
      → P r.tenant_id r.chunk_text r.chunk_metadata
      → Labelled P (s ∷ t)
      → Labelled P (on_conflict same r s t).0
  unfolding on_conflict
  on_conflict-Labelled true r s t own p h = (
    subst (λ y. P y r.chunk_text r.chunk_metadata)
        (sym ((list_beq_iff s.tenant_id r.tenant_id).0 own)) p,
    h.1,
  )
  on_conflict-Labelled false r s t own p h = h

  insert_row-Labelled :
      (r : CorpusRow E M) (t : List (CorpusRow E M))
      → P r.tenant_id r.chunk_text r.chunk_metadata
      → Labelled P t
      → Labelled P (insert_row r t).0
  unfolding insert_row
  insert_row-Labelled r [] p h = (p, tt)
  insert_row-Labelled r (s ∷ t) p h =
      elim (Bool-cases (has_key r.doc_id r.chunk_idx r.model_version s)) [
        | inl k ↦ rw k (on_conflict-Labelled (s.tenant_id == r.tenant_id) r s t refl p h)
        | inr k ↦ rw k (h.0, insert_row-Labelled r t p h.1)
      ]

  insert_rows-Labelled :
      (rs t : List (CorpusRow E M)) → Labelled P rs → Labelled P t → Labelled P (insert_rows rs t).0
  unfolding insert_rows
  insert_rows-Labelled [] t p h = h
  insert_rows-Labelled (r ∷ rs) t p h =
      insert_rows-Labelled rs (insert_row r t).0 p.1 (insert_row-Labelled r t p.0 h)

  load_rows-Labelled :
      (rs t : List (CorpusRow E M)) → Labelled P rs → Labelled P t → Labelled P (load_rows rs t).0
  unfolding load_rows
  load_rows-Labelled [] t p h = h
  load_rows-Labelled (r ∷ rs) t p h =
      elim (Bool-cases ((insert_rows (r ∷ rs) t).1 == length (r ∷ rs))) [
        | inl k ↦ rw k (insert_rows-Labelled (r ∷ rs) t p h)
        | inr k ↦ rw k h
      ]

  module _ (content_hash : Text → Text) where
    outdated-Offered :
        (rows : List (CorpusRow E M)) (cs : List (ChunkCandidate M))
        → Offered P cs
        → Offered P (outdated content_hash rows cs)
    unfolding outdated
    outdated-Offered rows [] p = tt
    outdated-Offered rows (c ∷ cs) p =
        elim (Bool-cases (is_current content_hash (stored c.doc_id c.chunk_idx rows) c)) [
          | inl k ↦ rw k (outdated-Offered rows cs p.1)
          | inr k ↦ rw k (p.0, outdated-Offered rows cs p.1)
        ]

    abbrev LabelledSome : Option (List (CorpusRow E M)) → Type 0
    LabelledSome none = Unit
    LabelledSome (some rs) = Labelled P rs

    also-LabelledSome :
        (r : CorpusRow E M) (o : Option (List (CorpusRow E M)))
        → P r.tenant_id r.chunk_text r.chunk_metadata
        → LabelledSome o
        → LabelledSome (also r o)
    also-LabelledSome r none p h = tt
    also-LabelledSome r (some rs) p h = (p, h)

    rows_of-LabelledSome :
        (v : Text) (cs : List (ChunkCandidate M)) (es : List E)
        → Offered P cs
        → LabelledSome (rows_of content_hash v cs es)
    unfolding rows_of
    rows_of-LabelledSome v [] [] p = tt
    rows_of-LabelledSome v [] (e ∷ es) p = tt
    rows_of-LabelledSome v (c ∷ cs) [] p = tt
    rows_of-LabelledSome v (c ∷ cs) (e ∷ es) p =
        also-LabelledSome (row_of content_hash v c e) (rows_of content_hash v cs es) p.0
          (rows_of-LabelledSome v cs es p.1)

    load_zipped-Labelled :
        (o : Option (List (CorpusRow E M))) (t : List (CorpusRow E M))
        → LabelledSome o
        → Labelled P t
        → Labelled P (load_zipped o t).0
    load_zipped-Labelled none t p h = h
    load_zipped-Labelled (some rs) t p h = load_rows-Labelled rs t p h

    module _ (encode : List Text → List E) (v : Text) where
      embed_all-Labelled :
          (cs : List (ChunkCandidate M)) (t : List (CorpusRow E M))
          → Offered P cs
          → Labelled P t
          → Labelled P (embed_all content_hash encode v cs t).0
      unfolding embed_all
      embed_all-Labelled [] t p h = h
      embed_all-Labelled (c ∷ cs) t p h =
          load_zipped-Labelled _ t (rows_of-LabelledSome v (c ∷ cs) _ p) h

      -- However an ingest ends, a tenant's label stands over text and metadata that were stored or
      -- offered under it: what holds of all of these, with their tenants, holds of the table after.
      pub embed_pending-Labelled :
          (cs : List (ChunkCandidate M)) (t : List (CorpusRow E M))
          → Offered P cs
          → Labelled P t
          → Labelled P (embed_pending content_hash encode v cs t).0
      unfolding embed_pending pending_candidates
      embed_pending-Labelled cs t p h = embed_all-Labelled _ t (outdated-Offered _ cs p) h
