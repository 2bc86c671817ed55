-- ===== src/Ai/Ingest.antt =====
-- embedder.py and pgvector_loader.py: the gate that skips chunks whose stored hash is current, and the
-- upsert of what it lets through. The table `doc_chunks` is a list of rows; the hash and the encoder
-- are parameters. `E` stands for vectors and `M` for metadata.
pub mod Rows
pub mod Pending
pub mod Gate
pub mod Guard
mod Tests
use arush_adabala_tax_liabil.Prelude.{
  ℕ, zero, suc, ◌+◌, ◌-◌, ◌*◌, ◌/◌, ◌%◌, ◌≤◌, ◌<◌, min, String, ◌≡◌, refl, sym, ap, ◌∙◌, ◌≢◌, ◌↔◌,
  ◌⊎◌, inl, inr, Bool, true, false, not, ◌&&◌, ◌||◌, Option, none, some, List, [], ◌∷◌, ◌++◌, map,
  arith, ltb, leb, if◌then◌else◌, Bool-cases, Option-cases, leb→le, lt→ltb, Eq, ◌==◌, ==_refl,
  length, take, get_elem?, length-append, length-take, length-map, any, All, All-append, All-take,
  contains, Exc, Result, ok, raised, bind, bind-eq-ok, Result-cases, ok_injective, ok_or,
  budget_exceeded, value_error, key_error, type_error, runtime_error, timeout_error,
  validation_error, dependency_unavailable, string_eq, nat_eq, list_eq, graph_recursion,
  http_timeout, http_error, cancelled, other,
}
use arush_adabala_tax_liabil.Prelude.Text.{Text}

pub record ChunkCandidate (M : Type 0) : Type 0 where
  pub doc_id : Text
  pub chunk_idx : ℕ
  pub chunk_text : Text
  pub tenant_id : Text
  pub chunk_metadata : M

-- A row to write, or a stored one, whose hash may be NULL.
pub record CorpusRow (E M : Type 0) : Type 0 where
  pub doc_id : Text
  pub chunk_idx : ℕ
  pub chunk_text : Text
  pub embedding : E
  pub model_version : Text
  pub tenant_id : Text
  pub chunk_metadata : M
  pub content_hash : Option Text

-- What a load or an ingest comes to.
pub data Load : Type 0 where
  committed : ℕ → Load
  cross_tenant_doc_id : ℕ → Load
  uneven_vectors : Load

module _ {E M : Type 0} where
  -- the conflict target
  unfoldable pub has_key : Text → ℕ → Text → CorpusRow E M → Bool
  has_key d i v r = r.doc_id == d && r.chunk_idx == i && r.model_version == v

  -- the `DO UPDATE` branch
  abbrev pub refreshed : CorpusRow E M → CorpusRow E M → CorpusRow E M
  refreshed s r = record s {
    chunk_text = r.chunk_text;
    embedding = r.embedding;
    chunk_metadata = r.chunk_metadata;
    content_hash = r.content_hash;
  }

  -- A row at the conflicting key is refreshed if the guard on its tenant passes, and else left alone.
  unfoldable pub on_conflict :
      Bool → CorpusRow E M → CorpusRow E M → List (CorpusRow E M) → List (CorpusRow E M) × ℕ
  on_conflict true r s t = (refreshed s r ∷ t, 1)
  on_conflict false r s t = (s ∷ t, 0)

  -- `_INSERT_SQL` for one row, with the number of rows that it affects
  unfoldable pub insert_row : CorpusRow E M → List (CorpusRow E M) → List (CorpusRow E M) × ℕ
  insert_row r [] = (r ∷ [], 1)
  insert_row r (s ∷ t) =
      let rest = insert_row r t in
      if has_key r.doc_id r.chunk_idx r.model_version s
      then on_conflict (s.tenant_id == r.tenant_id) r s t
      else (s ∷ rest.0, rest.1)

  -- `executemany`, with its `rowcount`
  unfoldable pub insert_rows :
      List (CorpusRow E M) → List (CorpusRow E M) → List (CorpusRow E M) × ℕ
  insert_rows [] t = (t, 0)
  insert_rows (r ∷ rs) t =
      let first = insert_row r t in let rest = insert_rows rs first.0 in (rest.0, first.1 + rest.1)

  -- A count that falls short rolls the transaction back.
  unfoldable pub load_rows :
      List (CorpusRow E M) → List (CorpusRow E M) → List (CorpusRow E M) × Load
  load_rows [] t = (t, committed 0)
  load_rows (r ∷ rs) t =
      let sent = insert_rows (r ∷ rs) t in
      let n = length (r ∷ rs) in
      if sent.1 == n then (sent.0, committed n) else (t, cross_tenant_doc_id (n - sent.1))

  -- `_STORED_HASHES_SQL`
  unfoldable pub selected : Text → List Text → List ℕ → List (CorpusRow E M) → List (CorpusRow E M)
  selected v doc_ids chunk_idxs [] = []
  selected v doc_ids chunk_idxs (r ∷ t) =
      let rest = selected v doc_ids chunk_idxs t in
      if r.model_version == v && contains r.doc_id doc_ids && contains r.chunk_idx chunk_idxs
      then r ∷ rest
      else rest

  -- the hash that `stored` has last for a key
  unfoldable pub stored : Text → ℕ → List (CorpusRow E M) → Option (Option Text)
  stored d i [] = none
  stored d i (r ∷ rows) = elim (stored d i rows) [
    | some h ↦ some h
    | none ↦ if r.doc_id == d && r.chunk_idx == i then some r.content_hash else none
  ]

  abbrev pub also : CorpusRow E M → Option (List (CorpusRow E M)) → Option (List (CorpusRow E M))
  also r none = none
  also r (some rs) = some (r ∷ rs)

  abbrev pub load_zipped :
      Option (List (CorpusRow E M)) → List (CorpusRow E M) → List (CorpusRow E M) × Load
  load_zipped none t = (t, uneven_vectors)
  load_zipped (some rows) t = load_rows rows t

-- A missing key and a NULL are both `None`, which no hash equals.
abbrev pub is_current :
    {M : Type 0} → (Text → Text) → Option (Option Text) → ChunkCandidate M → Bool
is_current content_hash (some (some h)) c = h == content_hash c.chunk_text
is_current content_hash (some none) c = false
is_current content_hash none c = false

module _ {E M : Type 0} (content_hash : Text → Text) where
  unfoldable pub outdated : List (CorpusRow E M) → List (ChunkCandidate M) → List (ChunkCandidate M)
  outdated rows [] = []
  outdated rows (c ∷ cs) =
      let rest = outdated rows cs in
      if is_current content_hash (stored c.doc_id c.chunk_idx rows) c then rest else c ∷ rest

  unfoldable pub pending_candidates :
      Text → List (CorpusRow E M) → List (ChunkCandidate M) → List (ChunkCandidate M)
  pending_candidates v t cs =
      outdated (selected v (map (λ c. c.doc_id) cs) (map (λ c. c.chunk_idx) cs) t) cs

  abbrev pub row_of : Text → ChunkCandidate M → E → CorpusRow E M
  row_of v c e = record {
    doc_id = c.doc_id;
    chunk_idx = c.chunk_idx;
    chunk_text = c.chunk_text;
    embedding = e;
    model_version = v;
    tenant_id = c.tenant_id;
    chunk_metadata = c.chunk_metadata;
    content_hash = some (content_hash c.chunk_text);
  }

  -- the strict `zip`
  unfoldable pub rows_of : Text → List (ChunkCandidate M) → List E → Option (List (CorpusRow E M))
  rows_of v [] [] = some []
  rows_of v (c ∷ cs) (e ∷ es) = also (row_of v c e) (rows_of v cs es)
  rows_of v _ _ = none

  -- what passed the gate is encoded in one batch and written
  unfoldable pub embed_all :
      (List Text → List E)
      → Text
      → List (ChunkCandidate M)
      → List (CorpusRow E M)
      → List (CorpusRow E M) × Load
  embed_all encode v [] t = (t, committed 0)
  embed_all encode v (c ∷ cs) t =
      load_zipped (rows_of v (c ∷ cs) (encode (map (λ d. d.chunk_text) (c ∷ cs)))) t

  unfoldable pub embed_pending :
      (List Text → List E)
      → Text
      → List (ChunkCandidate M)
      → List (CorpusRow E M)
      → List (CorpusRow E M) × Load
  embed_pending encode v cs t = embed_all encode v (pending_candidates v t cs) t
