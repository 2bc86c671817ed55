-- ===== src/Evals/Contexts/Corpus.antt =====
-- evals/trajectory.py over documents that nodes/retrieval.py shaped from chunk ids of the corpus.
use arush_adabala_tax_liabil.Prelude.{
  ℕ, ◌≡◌, refl, ap, ◌∙◌, ◌≢◌, true, false, none, some, List, [], ◌∷◌, ◌++◌, map, arith, ◌==◌, All,
  Result, ok, string_eq, nat_eq, list_eq,
}
use arush_adabala_tax_liabil.Prelude.Equality.{list_beq}
use arush_adabala_tax_liabil.Prelude.Text.{Text, codes}
use arush_adabala_tax_liabil.Prelude.Text.Decimal.{
  decimal, int-decimal, IsDigit, decimal-IsDigit, decimal-ne-nil,
}
use arush_adabala_tax_liabil.Agent.State.{Doc}
use arush_adabala_tax_liabil.Agent.Retrieval.{doc_id_of}
use arush_adabala_tax_liabil.Agent.Retrieval.DocIds.{doc_id_of-chunk_id_for, marked-occurs}
use arush_adabala_tax_liabil.Ai.Chunker.{chunk_id_for}
use arush_adabala_tax_liabil.Evals.Contexts.{
  after_last, all_digits, is_digit, tail_index, index_of, keys_of, Found, found, texts_of,
  read_texts, fetch_texts, hydrate_contexts,
}

abbrev mark : Text
mark = codes "-p"

digits-after_last : (s : Text) → All IsDigit s → after_last mark s ≡ none
unfolding after_last
digits-after_last [] h = refl
digits-after_last (c ∷ s) h = rw (digits-after_last s h.1) (ground arith)

marked-after_last : (d s : Text) → All IsDigit s → after_last mark (d ++ b'-' ∷ b'p' ∷ s) ≡ some s
unfolding after_last
marked-after_last [] s h = rw (digits-after_last s h) refl
marked-after_last (c ∷ d) s h = rw (marked-after_last d s h) refl

all_digits-true : (s : Text) → All IsDigit s → all_digits s ≡ true
unfolding all_digits
all_digits-true [] h = refl
all_digits-true (c ∷ s) h = rw (all_digits-true s h.1) (ground arith)

nonempty-is_digit : (s : Text) → s ≢ [] → all_digits s ≡ true → is_digit s ≡ true
unfolding is_digit
nonempty-is_digit [] h e = absurd (h refl)
nonempty-is_digit (c ∷ s) h e = e

is_digit-decimal : (n : ℕ) → is_digit (decimal n) ≡ true
is_digit-decimal n =
    nonempty-is_digit (decimal n) (decimal-ne-nil n)
      (all_digits-true (decimal n) (decimal-IsDigit n))

pub index_of-chunk_id_for : (d : Text) (n : ℕ) → index_of (chunk_id_for d n) ≡ n
unfolding index_of chunk_id_for tail_index
index_of-chunk_id_for d n =
    rw
      (
        marked-occurs (codes "chunk-" ++ d) (decimal n),
        marked-after_last (codes "chunk-" ++ d) (decimal n) (decimal-IsDigit n),
      )
      (rw (is_digit-decimal n) (int-decimal n))

-- A chunk of the corpus, as the retrieval node shapes its citation, with its text in the corpus.
pub record Chunk (F : Type 0) : Type 0 where
  pub document : Text
  pub ordinal : ℕ
  pub score : F
  pub words : Text

named : (d : Text) → d ≢ [] → (d == []) ≡ false
unfolding list_beq
named [] h = absurd (h refl)
named (c ∷ d) h = refl

fetched :
    (query : List (Text × ℕ) → Result (List Found)) (rows : List Found) (keys : List (Text × ℕ))
    → query keys ≡ ok rows
    → fetch_texts query keys ≡ texts_of keys rows
unfolding fetch_texts texts_of read_texts
fetched query rows [] h = refl
fetched query rows (k ∷ keys) h = rw h refl

module _ {F : Type 0} where
  abbrev pub doc_of : Chunk F → Doc F
  doc_of c =
      let chunk_id = chunk_id_for c.document c.ordinal in
      record { chunk_id = chunk_id; doc_id = doc_id_of chunk_id; score = c.score }

  abbrev pub row_of : Chunk F → Found
  row_of c = record { doc_id = c.document; chunk_idx = c.ordinal; chunk_text = c.words }

  abbrev pub key_of : Chunk F → Text × ℕ
  key_of c = (c.document, c.ordinal)

  -- Every document is named, and is found under its key with its own text.
  abbrev pub InCorpus : List Found → List (Chunk F) → Type 0
  InCorpus rows cs =
      All (λ c. (c.document ≢ []) × (found c.document c.ordinal rows ≡ some c.words)) cs

  keys_of-docs :
      (rows : List Found) (cs : List (Chunk F))
      → InCorpus rows cs
      → keys_of (map doc_of cs) ≡ map key_of cs
  unfolding keys_of
  keys_of-docs rows [] h = refl
  keys_of-docs rows (c ∷ cs) h =
      rw (doc_id_of-chunk_id_for c.document c.ordinal, index_of-chunk_id_for c.document c.ordinal)
        (rw (named c.document h.0.0)
          (ap (λ ks. (c.document, c.ordinal) ∷ ks) (keys_of-docs rows cs h.1)))

  texts_of-keys :
      (rows : List Found) (cs : List (Chunk F))
      → InCorpus rows cs
      → texts_of (map key_of cs) rows ≡ map (λ c. c.words) cs
  unfolding texts_of
  texts_of-keys rows [] h = refl
  texts_of-keys rows (c ∷ cs) h =
      rw (h.0.1, texts_of) (ap (λ ts. c.words ∷ ts) (texts_of-keys rows cs h.1))

  -- The judge is given the words of exactly the retrieved chunks, in retrieval order, where the corpus
  -- answers the query for their keys with them.
  pub hydrate_contexts-docs :
      (query : List (Text × ℕ) → Result (List Found)) (rows : List Found) (cs : List (Chunk F))
      → InCorpus rows cs
      → query (map key_of cs) ≡ ok rows
      → hydrate_contexts (some query) (map doc_of cs) ≡ map (λ c. c.words) cs
  unfolding hydrate_contexts
  hydrate_contexts-docs query rows cs h answers =
      rw (keys_of-docs rows cs h)
        (fetched query rows (map key_of cs) answers ∙ texts_of-keys rows cs h)
