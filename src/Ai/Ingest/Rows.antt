-- ===== src/Ai/Ingest/Rows.antt =====
-- embedder.py and pgvector_loader.py: what an upsert leaves at a key.
use arush_adabala_tax_liabil.Prelude.{
  ℕ, ◌≤◌, ◌≡◌, refl, sym, ◌∙◌, ◌↔◌, inl, inr, Bool, true, false, Option, none, some, List, [], ◌∷◌,
  arith, if◌then◌else◌, Bool-cases, ◌==◌, length, contains, string_eq, nat_eq, list_eq,
}
use arush_adabala_tax_liabil.Prelude.Equality.{list_beq_iff}
use arush_adabala_tax_liabil.Prelude.Text.{Text}
use arush_adabala_tax_liabil.Prelude.Dict.{or_else}
use arush_adabala_tax_liabil.Ai.Ingest.{
  CorpusRow, has_key, refreshed, on_conflict, insert_row, insert_rows, selected, stored,
}

abbrev pub Content : Type 0 → Type 0 → Type 0
Content E M = Text × E × M × Option Text

module _ {E M : Type 0} where
  -- What `f` reads of the row that has the key.
  unfoldable pub value_at :
      {X : Type 0} → (CorpusRow E M → X) → Text → ℕ → Text → List (CorpusRow E M) → Option X
  value_at f d i v [] = none
  value_at f d i v (r ∷ t) = if has_key d i v r then some (f r) else value_at f d i v t

  -- Its hash, and all of it that an upsert writes.
  abbrev pub hash_at : Text → ℕ → Text → List (CorpusRow E M) → Option (Option Text)
  hash_at = value_at (λ r. r.content_hash)

  abbrev pub content_of : CorpusRow E M → Content E M
  content_of r = (r.chunk_text, r.embedding, r.chunk_metadata, r.content_hash)

  -- The table's uniqueness constraint.
  abbrev pub UniqueKeys : List (CorpusRow E M) → Type 0
  UniqueKeys [] = Unit
  UniqueKeys (r ∷ t) = (hash_at r.doc_id r.chunk_idx r.model_version t ≡ none) × UniqueKeys t

  pub has_key_iff :
      (d : Text) (i : ℕ) (v : Text) (r : CorpusRow E M)
      → (has_key d i v r ≡ true) ↔ ((r.doc_id ≡ d) × (r.chunk_idx ≡ i) × (r.model_version ≡ v))
  unfolding has_key
  has_key_iff d i v r = ground (arith, list_beq_iff r.doc_id d, list_beq_iff r.model_version v)

  -- Two rows with one key answer every test of a key alike.
  has_key-same :
      (d : Text) (i : ℕ) (v : Text) (r s : CorpusRow E M)
      → has_key r.doc_id r.chunk_idx r.model_version s ≡ true
      → has_key d i v s ≡ has_key d i v r
  unfolding has_key
  has_key-same d i v r s h =
      let (ed, ei, ev) = (has_key_iff r.doc_id r.chunk_idx r.model_version s).0 h in
      rw ed (rw ei (rw ev refl))

  has_key-both :
      (d : Text) (i : ℕ) (v : Text) (r s : CorpusRow E M)
      → has_key d i v r ≡ true
      → has_key d i v s ≡ true
      → has_key r.doc_id r.chunk_idx r.model_version s ≡ true
  has_key-both d i v r s hr hs =
      let (rd, ri, rv) = (has_key_iff d i v r).0 hr in
      let (sd, si, sv) = (has_key_iff d i v s).0 hs in
      (has_key_iff r.doc_id r.chunk_idx r.model_version s).1 (sd ∙ sym rd, si ∙ sym ri, sv ∙ sym rv)

  has_key-flip :
      (r s : CorpusRow E M)
      → has_key r.doc_id r.chunk_idx r.model_version s ≡ false
      → has_key s.doc_id s.chunk_idx s.model_version r ≡ false
  has_key-flip r s h = elim (Bool-cases (has_key s.doc_id s.chunk_idx s.model_version r)) [
    | inl k ↦
        let (d, i, v) = (has_key_iff s.doc_id s.chunk_idx s.model_version r).0 k in
        let back : has_key r.doc_id r.chunk_idx r.model_version s ≡ true =
          (has_key_iff r.doc_id r.chunk_idx r.model_version s).1 (sym d, sym i, sym v) in
        cc
    | inr k ↦ k
  ]

  on_conflict-UniqueKeys :
      (same : Bool) (r s : CorpusRow E M) (t : List (CorpusRow E M))
      → UniqueKeys (s ∷ t)
      → UniqueKeys (on_conflict same r s t).0
  unfolding on_conflict
  on_conflict-UniqueKeys true r s t u = u
  on_conflict-UniqueKeys false r s t u = u

  on_conflict-none :
      (d : Text) (i : ℕ) (v : Text) (same : Bool) (r s : CorpusRow E M) (t : List (CorpusRow E M))
      → hash_at d i v (s ∷ t) ≡ none
      → hash_at d i v (on_conflict same r s t).0 ≡ none
  unfolding on_conflict value_at has_key
  on_conflict-none d i v true r s t h = ground arith
  on_conflict-none d i v false r s t h = h

  insert_row_count : (r : CorpusRow E M) (t : List (CorpusRow E M)) → (insert_row r t).1 ≤ 1
  unfolding insert_row on_conflict
  insert_row_count r [] = omega arith
  insert_row_count r (s ∷ t) = ground (arith, insert_row_count r t)

  pub insert_rows_count : (rs t : List (CorpusRow E M)) → (insert_rows rs t).1 ≤ length rs
  unfolding insert_rows
  insert_rows_count [] t = omega arith
  insert_rows_count (r ∷ rs) t =
      omega (arith, insert_row_count r t, insert_rows_count rs (insert_row r t).0)

  hash_at-other :
      (d : Text) (i : ℕ) (v : Text) (r : CorpusRow E M) (t : List (CorpusRow E M))
      → has_key d i v r ≡ false
      → hash_at d i v t ≡ none
      → hash_at d i v (insert_row r t).0 ≡ none
  unfolding insert_row value_at
  hash_at-other d i v r [] h n = rw h refl
  hash_at-other d i v r (s ∷ t) h n = ground (
    arith,
    on_conflict-none d i v (s.tenant_id == r.tenant_id) r s t n,
    hash_at-other d i v r t h,
  )

  insert_row-UniqueKeys :
      (r : CorpusRow E M) (t : List (CorpusRow E M)) → UniqueKeys t → UniqueKeys (insert_row r t).0
  unfolding insert_row value_at
  insert_row-UniqueKeys r [] u = (refl, tt)
  insert_row-UniqueKeys r (s ∷ t) u =
      elim (Bool-cases (has_key r.doc_id r.chunk_idx r.model_version s)) [
        | inl k ↦ rw k (on_conflict-UniqueKeys (s.tenant_id == r.tenant_id) r s t u)
        | inr k ↦ rw k (
          hash_at-other s.doc_id s.chunk_idx s.model_version r t (has_key-flip r s k) u.0,
          insert_row-UniqueKeys r t u.1,
        )
      ]

  pub insert_rows-UniqueKeys :
      (rs t : List (CorpusRow E M)) → UniqueKeys t → UniqueKeys (insert_rows rs t).0
  unfolding insert_rows
  insert_rows-UniqueKeys [] t u = u
  insert_rows-UniqueKeys (r ∷ rs) t u =
      insert_rows-UniqueKeys rs (insert_row r t).0 (insert_row-UniqueKeys r t u)

  -- A test that a row answers reads the table at the row's own key.
  has_key-hash_at :
      (d : Text) (i : ℕ) (v : Text) (r : CorpusRow E M) (t : List (CorpusRow E M))
      → has_key d i v r ≡ true
      → hash_at d i v t ≡ hash_at r.doc_id r.chunk_idx r.model_version t
  has_key-hash_at d i v r t h =
      let (ed, ei, ev) = (has_key_iff d i v r).0 h in rw ed (rw ei (rw ev refl))

  pub stored-selected :
      (d : Text) (i : ℕ) (v : Text) (ds : List Text) (is : List ℕ) (t : List (CorpusRow E M))
      → UniqueKeys t
      → contains d ds ≡ true
      → contains i is ≡ true
      → stored d i (selected v ds is t) ≡ hash_at d i v t
  unfolding stored selected value_at
  stored-selected d i v ds is [] u hd hi = refl
  stored-selected d i v ds is (r ∷ t) u hd hi = ground (
    arith,
    has_key_iff d i v r,
    list_beq_iff r.doc_id d,
    list_beq_iff r.model_version v,
    has_key-hash_at d i v r t,
    stored-selected d i v ds is t u.1 hd hi,
    u.0,
    hd,
    hi,
  )

-- What an upsert writes, `f` reads back.
module _ {E M X : Type 0} (f : CorpusRow E M → X)
    (writes : (s r : CorpusRow E M) → f (refreshed s r) ≡ f r) where
  value_at-on_conflict :
      (d : Text) (i : ℕ) (v : Text) (same : Bool) (r s : CorpusRow E M) (t : List (CorpusRow E M))
      → (on_conflict same r s t).1 ≡ 1
      → value_at f d i v (on_conflict same r s t).0
        ≡ (if has_key d i v s then some (f r) else value_at f d i v t)
  unfolding on_conflict value_at has_key
  value_at-on_conflict d i v true r s t h = rw (writes s r) refl
  value_at-on_conflict d i v false r s t h = absurd (omega (arith, h))

  value_at-insert_row :
      (d : Text) (i : ℕ) (v : Text) (r : CorpusRow E M) (t : List (CorpusRow E M))
      → (insert_row r t).1 ≡ 1
      → value_at f d i v (insert_row r t).0
        ≡ (if has_key d i v r then some (f r) else value_at f d i v t)
  unfolding insert_row value_at
  value_at-insert_row d i v r [] h = refl
  value_at-insert_row d i v r (s ∷ t) h =
      elim (Bool-cases (has_key r.doc_id r.chunk_idx r.model_version s)) [
        | inl k ↦
            let h' : (on_conflict (s.tenant_id == r.tenant_id) r s t).1 ≡ 1 = ground arith in
            rw k (
              value_at-on_conflict d i v (s.tenant_id == r.tenant_id) r s t h'
              ∙ ground (arith, has_key-same d i v r s k))
        | inr k ↦ ground (arith, has_key-both d i v r s, value_at-insert_row d i v r t)
      ]

  -- A key at which no hash is found is no row's.
  value_at-none :
      (d : Text) (i : ℕ) (v : Text) (r : CorpusRow E M) (t : List (CorpusRow E M))
      → has_key d i v r ≡ true
      → hash_at r.doc_id r.chunk_idx r.model_version t ≡ none
      → value_at f d i v t ≡ none
  unfolding value_at
  value_at-none d i v r [] k h = refl
  value_at-none d i v r (s ∷ t) k h =
      ground (arith, has_key-both d i v r s k, value_at-none d i v r t k, h)

  pub value_at-insert_rows :
      (d : Text) (i : ℕ) (v : Text) (rs t : List (CorpusRow E M))
      → UniqueKeys rs
      → (insert_rows rs t).1 ≡ length rs
      → value_at f d i v (insert_rows rs t).0 ≡ or_else (value_at f d i v rs) (value_at f d i v t)
  unfolding insert_rows value_at
  value_at-insert_rows d i v [] t u h = refl
  value_at-insert_rows d i v (r ∷ rs) t u h =
      let one : (insert_row r t).1 ≡ 1 =
        omega (arith, h, insert_row_count r t, insert_rows_count rs (insert_row r t).0) in
      let others : (insert_rows rs (insert_row r t).0).1 ≡ length rs = omega (arith, h, one) in
      let first = value_at-insert_row d i v r t one in
      let later = value_at-insert_rows d i v rs (insert_row r t).0 u.1 others in
      elim (Bool-cases (has_key d i v r)) [
        | inl k ↦ ground (arith, first, later, value_at-none d i v r rs k u.0)
        | inr k ↦ ground (arith, first, later)
      ]
