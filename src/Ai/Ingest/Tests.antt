-- ===== src/Ai/Ingest/Tests.antt =====
-- An ingest of two chunks into a table that holds one of them, and an older text of the other.
use arush_adabala_tax_liabil.Prelude.{
  ℕ, ◌≡◌, refl, some, List, [], ◌∷◌, map, length, string_eq, nat_eq, list_eq,
}
use arush_adabala_tax_liabil.Prelude.Text.{Text, codes}
use arush_adabala_tax_liabil.Ai.Ingest.{
  ChunkCandidate, CorpusRow, committed, has_key, on_conflict, insert_row, insert_rows, load_rows,
  selected, stored, outdated, pending_candidates, rows_of, embed_all, embed_pending,
}
use arush_adabala_tax_liabil.Ai.Ingest.Guard.{Labelled, embed_pending-Labelled}
use arush_adabala_tax_liabil.Prelude.Equality.{list_beq}

abbrev chunk : ℕ → Text → ChunkCandidate ℕ
chunk i text = record {
  doc_id = codes "doc";
  chunk_idx = i;
  chunk_text = text;
  tenant_id = codes "tenant-a";
  chunk_metadata = 0;
}

abbrev chunks : List (ChunkCandidate ℕ)
chunks = chunk 0 (codes "one") ∷ chunk 1 (codes "two") ∷ []

abbrev held : ℕ → Text → CorpusRow ℕ ℕ
held i text = record {
  doc_id = codes "doc";
  chunk_idx = i;
  chunk_text = text;
  embedding = 7;
  model_version = codes "mini";
  tenant_id = codes "tenant-a";
  chunk_metadata = 0;
  content_hash = some text;
}

abbrev table : List (CorpusRow ℕ ℕ)
table = held 0 (codes "one") ∷ held 1 (codes "old") ∷ []

abbrev same_text : Text → Text
same_text t = t

abbrev encode : List Text → List ℕ
encode texts = map (λ t. 9) texts

ingested : (embed_pending same_text encode (codes "mini") chunks table).1 ≡ committed 1
unfolding embed_pending pending_candidates outdated selected stored embed_all rows_of load_rows
    insert_rows insert_row has_key on_conflict list_beq
ingested = refl

-- a text of three characters
abbrev Short : Text → Text → ℕ → Type 0
Short tenant_id text metadata = (tenant_id ≡ codes "tenant-a") × (length text ≡ 3)

embed_pending-Labelled_example :
    Labelled Short (embed_pending same_text encode (codes "mini") chunks table).0
embed_pending-Labelled_example =
    embed_pending-Labelled Short same_text encode (codes "mini") chunks table
      ((refl, refl), ((refl, refl), tt)) ((refl, refl), ((refl, refl), tt))
