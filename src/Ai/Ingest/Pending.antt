-- ===== src/Ai/Ingest/Pending.antt =====
-- embedder.py: what the gate lets through, and the rows made of it.
use arush_adabala_tax_liabil.Prelude.{
  ℕ, ◌≡◌, refl, ap, ◌∙◌, inl, inr, true, ◌&&◌, Option, none, some, List, [], ◌∷◌, map, arith,
  if◌then◌else◌, Bool-cases, ◌==◌, ==_refl, length, contains, string_eq, nat_eq, list_eq,
}
use arush_adabala_tax_liabil.Prelude.Equality.{list_beq_iff, ==_refl}
use arush_adabala_tax_liabil.Prelude.Text.{Text}
use arush_adabala_tax_liabil.Prelude.Dict.{or_else}
use arush_adabala_tax_liabil.Ai.Ingest.{
  ChunkCandidate, CorpusRow, has_key, stored, is_current, outdated, row_of, also, rows_of,
}
use mathlib.Core.Path.{subst}
use arush_adabala_tax_liabil.Ai.Ingest.Rows.{value_at, hash_at, Content, content_of, UniqueKeys}

abbrev pub some_of : {A : Type 0} → Option A → Option (Option A)
some_of none = none
some_of (some a) = some (some a)

module _ {M : Type 0} (content_hash : Text → Text) where
  -- The hash of the candidate that has the key.
  unfoldable pub hash_of : Text → ℕ → List (ChunkCandidate M) → Option Text
  hash_of d i [] = none
  hash_of d i (c ∷ cs) =
      if c.doc_id == d && c.chunk_idx == i then some (content_hash c.chunk_text) else hash_of d i cs

  -- No two candidates are for one place of one document.
  abbrev pub DistinctPlaces : List (ChunkCandidate M) → Type 0
  DistinctPlaces [] = Unit
  DistinctPlaces (c ∷ cs) = (hash_of c.doc_id c.chunk_idx cs ≡ none) × DistinctPlaces cs

  -- The place of the first candidate, tested, is a place as good as its own.
  hash_of-same :
      (d : Text) (i : ℕ) (c : ChunkCandidate M) (cs : List (ChunkCandidate M))
      → (c.doc_id == d && c.chunk_idx == i) ≡ true
      → hash_of d i cs ≡ hash_of c.doc_id c.chunk_idx cs
  hash_of-same d i c cs h =
      let ed : c.doc_id ≡ d = (list_beq_iff c.doc_id d).0 (ground arith) in
      let ei : c.chunk_idx ≡ i = ground arith in rw ed (rw ei refl)

  is_current-stored :
      (o : Option (Option Text)) (c : ChunkCandidate M)
      → is_current content_hash o c ≡ true
      → o ≡ some (some (content_hash c.chunk_text))
  is_current-stored none c h = cc
  is_current-stored (some none) c h = cc
  is_current-stored (some (some x)) c h =
      ap (λ y. some (some y)) ((list_beq_iff x (content_hash c.chunk_text)).0 h)

  pub hash_of-contains :
      (d : Text) (i : ℕ) (cs : List (ChunkCandidate M)) (x : Text)
      → hash_of d i cs ≡ some x
      → (contains d (map (λ c. c.doc_id) cs) ≡ true)
        × (contains i (map (λ c. c.chunk_idx) cs) ≡ true)
  unfolding hash_of
  hash_of-contains d i [] x h = cc
  hash_of-contains d i (c ∷ cs) x h =
      ground (arith, h, hash_of-contains d i cs x, list_beq_iff c.doc_id d, list_beq_iff d c.doc_id)

module _ {E M : Type 0} (content_hash : Text → Text) where
  outdated-none :
      (d : Text) (i : ℕ) (rows : List (CorpusRow E M)) (cs : List (ChunkCandidate M))
      → hash_of content_hash d i cs ≡ none
      → hash_of content_hash d i (outdated content_hash rows cs) ≡ none
  unfolding hash_of outdated
  outdated-none d i rows [] h = refl
  outdated-none d i rows (c ∷ cs) h = ground (arith, h, outdated-none d i rows cs)

  pub outdated-DistinctPlaces :
      (rows : List (CorpusRow E M)) (cs : List (ChunkCandidate M))
      → DistinctPlaces content_hash cs
      → DistinctPlaces content_hash (outdated content_hash rows cs)
  unfolding outdated
  outdated-DistinctPlaces rows [] u = tt
  outdated-DistinctPlaces rows (c ∷ cs) u =
      elim (Bool-cases (is_current content_hash (stored c.doc_id c.chunk_idx rows) c)) [
        | inl k ↦ rw k (outdated-DistinctPlaces rows cs u.1)
        | inr k ↦
            rw k
              (outdated-none c.doc_id c.chunk_idx rows cs u.0, outdated-DistinctPlaces rows cs u.1)
      ]

  -- A candidate is pending or current.
  pub outdated-or-stored :
      (d : Text) (i : ℕ) (rows : List (CorpusRow E M)) (cs : List (ChunkCandidate M)) (x : Text)
      → DistinctPlaces content_hash cs
      → hash_of content_hash d i cs ≡ some x
      → or_else
          (some_of (hash_of content_hash d i (outdated content_hash rows cs)))
          (stored d i rows)
        ≡ some (some x)
  unfolding hash_of outdated
  outdated-or-stored d i rows [] x u h = cc
  outdated-or-stored d i rows (c ∷ cs) x u h =
      elim (Bool-cases (is_current content_hash (stored c.doc_id c.chunk_idx rows) c)) [
        | inl k ↦ elim (Bool-cases (c.doc_id == d && c.chunk_idx == i)) [
          | inl m ↦
              let ed : c.doc_id ≡ d = (list_beq_iff c.doc_id d).0 (ground arith) in
              let ei : c.chunk_idx ≡ i = ground arith in
              let gone : hash_of content_hash d i (outdated content_hash rows cs) ≡ none =
                outdated-none d i rows cs (hash_of-same content_hash d i c cs m ∙ u.0) in
              let held : stored d i rows ≡ some (some (content_hash c.chunk_text)) =
                subst (λ y. stored y i rows ≡ some (some (content_hash c.chunk_text))) ed
                  (subst (λ n. stored c.doc_id n rows ≡ some (some (content_hash c.chunk_text))) ei
                    (is_current-stored content_hash (stored c.doc_id c.chunk_idx rows) c k)) in
              rw k (rw gone (ground (arith, held, h, m)))
          | inr m ↦ rw k (outdated-or-stored d i rows cs x u.1 (ground (arith, h, m)))
        ]
        | inr k ↦ rw k (ground (arith, h, outdated-or-stored d i rows cs x u.1))
      ]

  also-nil : (rs : List (CorpusRow E M)) → some [] ≡ some rs → [] ≡ rs
  also-nil rs h = cc

  also-some :
      (r : CorpusRow E M) (o : Option (List (CorpusRow E M))) (rs : List (CorpusRow E M))
      → also r o ≡ some rs
      → (q : List (CorpusRow E M)) × (o ≡ some q) × (r ∷ q ≡ rs)
  also-some r none rs h = cc
  also-some r (some q) rs h = (q, refl, cc)

  pub rows_of-hash_at :
      (d : Text) (i : ℕ) (v : Text) (cs : List (ChunkCandidate M)) (es : List E)
      (rs : List (CorpusRow E M))
      → rows_of content_hash v cs es ≡ some rs
      → hash_at d i v rs ≡ some_of (hash_of content_hash d i cs)
  unfolding hash_of value_at rows_of has_key
  rows_of-hash_at d i v [] [] rs h = subst (λ q. hash_at d i v q ≡ none) (also-nil rs h) refl
  rows_of-hash_at d i v [] (e ∷ es) rs h = cc
  rows_of-hash_at d i v (c ∷ cs) [] rs h = cc
  rows_of-hash_at d i v (c ∷ cs) (e ∷ es) rs h =
      let (q, found, same) =
        also-some (row_of content_hash v c e) (rows_of content_hash v cs es) rs h in
      subst (λ y. hash_at d i v y ≡ some_of (hash_of content_hash d i (c ∷ cs))) same
        (ground (arith, rows_of-hash_at d i v cs es q found, list_beq_iff v v))

  -- What is to be written at a key, read off the candidates and their vectors.
  unfoldable pub written_at :
      Text → Text → ℕ → Text → List (ChunkCandidate M) → List E → Option (Content E M)
  written_at v d i w [] es = none
  written_at v d i w (c ∷ cs) [] = none
  written_at v d i w (c ∷ cs) (e ∷ es) =
      if c.doc_id == d && c.chunk_idx == i && v == w
      then some (c.chunk_text, e, c.chunk_metadata, some (content_hash c.chunk_text))
      else written_at v d i w cs es

  pub rows_of-content :
      (v d : Text) (i : ℕ) (w : Text) (cs : List (ChunkCandidate M)) (es : List E)
      (rs : List (CorpusRow E M))
      → rows_of content_hash v cs es ≡ some rs
      → value_at content_of d i w rs ≡ written_at v d i w cs es
  unfolding written_at value_at rows_of has_key
  rows_of-content v d i w [] [] rs h =
      subst (λ q. value_at content_of d i w q ≡ none) (also-nil rs h) refl
  rows_of-content v d i w [] (e ∷ es) rs h = cc
  rows_of-content v d i w (c ∷ cs) [] rs h = cc
  rows_of-content v d i w (c ∷ cs) (e ∷ es) rs h =
      let (q, found, same) =
        also-some (row_of content_hash v c e) (rows_of content_hash v cs es) rs h in
      subst (λ y. value_at content_of d i w y ≡ written_at v d i w (c ∷ cs) (e ∷ es)) same
        (rw (rows_of-content v d i w cs es q found) refl)

  pub rows_of-UniqueKeys :
      (v : Text) (cs : List (ChunkCandidate M)) (es : List E) (rs : List (CorpusRow E M))
      → DistinctPlaces content_hash cs
      → rows_of content_hash v cs es ≡ some rs
      → UniqueKeys rs
  unfolding rows_of
  rows_of-UniqueKeys v [] [] rs u h = subst UniqueKeys (also-nil rs h) tt
  rows_of-UniqueKeys v [] (e ∷ es) rs u h = cc
  rows_of-UniqueKeys v (c ∷ cs) [] rs u h = cc
  rows_of-UniqueKeys v (c ∷ cs) (e ∷ es) rs u h =
      let (q, found, same) =
        also-some (row_of content_hash v c e) (rows_of content_hash v cs es) rs h in
      subst UniqueKeys same (
        rows_of-hash_at c.doc_id c.chunk_idx v cs es q found ∙ ap some_of u.0,
        rows_of-UniqueKeys v cs es q u.1 found,
      )

  pub rows_of-some :
      (v : Text) (cs : List (ChunkCandidate M)) (es : List E)
      → length es ≡ length cs
      → (rs : List (CorpusRow E M)) × (rows_of content_hash v cs es ≡ some rs)
        × (length rs ≡ length cs)
  unfolding rows_of
  rows_of-some v [] [] h = ([], refl, refl)
  rows_of-some v [] (e ∷ es) h = absurd (omega (arith, h))
  rows_of-some v (c ∷ cs) [] h = absurd (omega (arith, h))
  rows_of-some v (c ∷ cs) (e ∷ es) h =
      let (rs, found, n) = rows_of-some v cs es (omega (arith, h)) in
      rw found (_, refl, omega (arith, n))

  -- Where every candidate's hash is stored, nothing is pending.
  pub outdated-nil :
      (rows : List (CorpusRow E M)) (cs : List (ChunkCandidate M))
      → DistinctPlaces content_hash cs
      → ((d : Text) (i : ℕ) (x : Text)
          → hash_of content_hash d i cs ≡ some x
          → stored d i rows ≡ some (some x))
      → outdated content_hash rows cs ≡ []
  unfolding outdated hash_of
  outdated-nil rows [] u h = refl
  outdated-nil rows (c ∷ cs) u h =
      let now : is_current content_hash (stored c.doc_id c.chunk_idx rows) c ≡ true =
        rw
          (h c.doc_id c.chunk_idx (content_hash c.chunk_text)
            (ground (arith, list_beq_iff c.doc_id c.doc_id)))
          (==_refl (content_hash c.chunk_text)) in
      rw now (
        outdated-nil rows cs u.1
          λ d i x found. h d i x (ground (arith, found, hash_of-same content_hash d i c cs, u.0)))
