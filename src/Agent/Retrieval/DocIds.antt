-- ===== src/Agent/Retrieval/DocIds.antt =====
-- Reading a document's id back from a chunk id of the corpus.
use arush_adabala_tax_liabil.Prelude.{
  ℕ, ◌≡◌, refl, true, none, some, [], ◌∷◌, ◌++◌, arith, All, string_eq, nat_eq, list_eq,
}
use arush_adabala_tax_liabil.Prelude.Text.{Text, occurs, before_last}
use arush_adabala_tax_liabil.Prelude.Text.Decimal.{decimal, IsDigit, decimal-IsDigit}
use arush_adabala_tax_liabil.Agent.Retrieval.{doc_id_of, page_mark, chunk_prefix}
use arush_adabala_tax_liabil.Ai.Chunker.{chunk_id_for}

digits-before_last : (s : Text) → All IsDigit s → before_last page_mark s ≡ none
unfolding before_last
digits-before_last [] h = refl
digits-before_last (c ∷ s) h = rw (digits-before_last s h.1) (ground arith)

tail-before_last : (s : Text) → All IsDigit s → before_last page_mark (b'-' ∷ b'p' ∷ s) ≡ some []
unfolding before_last
tail-before_last s h = rw (digits-before_last s h) (ground arith)

marked-before_last :
    (d s : Text) → All IsDigit s → before_last page_mark (d ++ b'-' ∷ b'p' ∷ s) ≡ some d
unfolding before_last
marked-before_last [] s h = tail-before_last s h
marked-before_last (c ∷ d) s h = rw (marked-before_last d s h) refl

pub marked-occurs : (d s : Text) → occurs page_mark (d ++ b'-' ∷ b'p' ∷ s) ≡ true
unfolding occurs
marked-occurs [] s = refl
marked-occurs (c ∷ d) s = rw (marked-occurs d s) (ground arith)

-- The document id is read back from the chunk id that the corpus builds of it, for every document id,
-- one that holds the page mark included, and every ordinal.
pub doc_id_of-chunk_id_for : (d : Text) (n : ℕ) → doc_id_of (chunk_id_for d n) ≡ d
unfolding doc_id_of chunk_id_for
doc_id_of-chunk_id_for d n =
    rw
      (
        marked-occurs (chunk_prefix ++ d) (decimal n),
        marked-before_last d (decimal n) (decimal-IsDigit n),
      )
      refl
