-- ===== src/Evals/Contexts/Tests.antt =====
-- Two retrieved chunks of a corpus of three.
use arush_adabala_tax_liabil.Prelude.{
  ℕ, ◌≡◌, refl, some, List, [], ◌∷◌, Result, ok, string_eq, nat_eq, list_eq,
}
use arush_adabala_tax_liabil.Prelude.Equality.{list_beq}
use arush_adabala_tax_liabil.Prelude.Text.{Text, codes}
use arush_adabala_tax_liabil.Evals.Contexts.{Found, found, hydrate_contexts}
use arush_adabala_tax_liabil.Evals.Contexts.Corpus.{
  Chunk, doc_of, row_of, InCorpus, hydrate_contexts-docs,
}

abbrev first : Chunk ℕ
first = record { document = codes "policy-p2"; ordinal = 3; score = 9; words = codes "penalties" }

abbrev second : Chunk ℕ
second = record { document = codes "filing"; ordinal = 0; score = 7; words = codes "deadlines" }

abbrev corpus : List Found
corpus =
    row_of second
    ∷ record { doc_id = codes "filing"; chunk_idx = 1; chunk_text = codes "forms" }
    ∷ row_of first
    ∷ []

abbrev query : List (Text × ℕ) → Result (List Found)
query keys = ok corpus

in_corpus : InCorpus corpus (first ∷ second ∷ [])
unfolding found list_beq
in_corpus = (((λ h. cc), refl), (((λ h. cc), refl), tt))

hydrate_contexts-docs_example :
    hydrate_contexts (some query) (doc_of first ∷ doc_of second ∷ [])
    ≡ codes "penalties" ∷ codes "deadlines" ∷ []
hydrate_contexts-docs_example =
    hydrate_contexts-docs query corpus (first ∷ second ∷ []) in_corpus refl
