-- ===== src/Ai/Ingest/Gate.antt =====
-- embedder.py: the gate after an ingest.
use arush_adabala_tax_liabil.Prelude.{
  ℕ, ◌≡◌, ◌⊎◌, List, [], map, length, string_eq, nat_eq, list_eq,
}
use arush_adabala_tax_liabil.Prelude.Text.{Text}
use arush_adabala_tax_liabil.Prelude.Dict.{or_else}
use arush_adabala_tax_liabil.Ai.Ingest.{
  ChunkCandidate, CorpusRow, Load, committed, cross_tenant_doc_id, pending_candidates,
}
use arush_adabala_tax_liabil.Ai.Ingest.Rows.{value_at, content_of, UniqueKeys}
use arush_adabala_tax_liabil.Ai.Ingest.Pending.{written_at}

module _ {E M : Type 0} (content_hash : Text → Text) where
  -- Of every key, the content is that of the candidate for it, with its vector, or what it was.
  abbrev pub Written :
      (List Text → List E)
      → Text
      → List (ChunkCandidate M)
      → List (CorpusRow E M)
      → List (CorpusRow E M)
      → Type 0
  Written encode v pending t after =
      (d : Text) (i : ℕ) (w : Text)
      → value_at content_of d i w after
        ≡ or_else
            (written_at content_hash v d i w pending (encode (map (λ c. c.chunk_text) pending)))
            (value_at content_of d i w t)

  -- What an ingest comes to, on the table and in its result.
  abbrev pub Ingested :
      (List Text → List E)
      → Text
      → List (ChunkCandidate M)
      → List (CorpusRow E M)
      → List (CorpusRow E M) × Load
      → Type 0
  Ingested encode v cs t after =
      ((after.1 ≡ committed (length (pending_candidates content_hash v t cs)))
        × (pending_candidates content_hash v after.0 cs ≡ [])
        × UniqueKeys after.0
        × Written encode v (pending_candidates content_hash v t cs) t after.0)
      ⊎ ((k : ℕ) × (after.1 ≡ cross_tenant_doc_id k) × (after.0 ≡ t))
