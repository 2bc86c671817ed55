-- ===== src/Mcp/Rag/Citations.antt =====
-- tools/rag.py: the citations of an answer, read from a result of the pipeline over the corpus.
use arush_adabala_tax_liabil.Prelude.{
  ℕ, zero, suc, ◌≡◌, refl, sym, ap, ◌∙◌, some, List, [], ◌∷◌, map, arith, take, ok, bind-eq-ok,
  ok_injective, string_eq, nat_eq, list_eq,
}
use arush_adabala_tax_liabil.Prelude.Text.{Text}
use arush_adabala_tax_liabil.Agent.Retrieval
use arush_adabala_tax_liabil.Agent.Retrieval.DocIds.{doc_id_of-chunk_id_for}
use arush_adabala_tax_liabil.Ai.Chunker.{chunk_id_for}
use arush_adabala_tax_liabil.Mcp.Json.{
  str, real, arr, obj, Items, nil, cons, Fields, end, field, get,
}
use arush_adabala_tax_liabil.Mcp.Money.{to_score}
use arush_adabala_tax_liabil.Mcp.Llm.{Reader, str_of}
use arush_adabala_tax_liabil.Mcp.Rag.{
  Citation, RagAnswer, Sidecar, doc_id_of, score_of, cited, citations_of, listed, jaccard_of,
  shape_answer,
}

-- the server's copy of the function agrees with the agent's
doc_id_of-agrees : (t : Text) → doc_id_of t ≡ Retrieval.doc_id_of t
unfolding doc_id_of Retrieval.doc_id_of
doc_id_of-agrees t = ground arith

corpus_document : (d : Text) (n : ℕ) → doc_id_of (chunk_id_for d n) ≡ d
corpus_document d n = doc_id_of-agrees (chunk_id_for d n) ∙ doc_id_of-chunk_id_for d n

-- A hit of the pipeline: a chunk of the corpus, by its document and ordinal, and its score.
pub record Hit (F : Type 0) : Type 0 where
  pub document : Text
  pub ordinal : ℕ
  pub score : F

module _ {F : Type 0} where
  abbrev pub hit_fields : Hit F → Fields F
  hit_fields h =
      field "chunk_id" (str (chunk_id_for h.document h.ordinal)) (field "score" (real h.score) end)

  abbrev pub hit_items : List (Hit F) → Items F
  hit_items [] = nil
  hit_items (h ∷ hs) = cons (obj (hit_fields h)) (hit_items hs)

  abbrev pub citation : Hit F → Citation F
  citation h = record {
    chunk_id = chunk_id_for h.document h.ordinal;
    doc_id = h.document;
    score = h.score;
  }

  module _ (reader : Reader F) (sidecar : Sidecar F) where
    hit-cited :
        (h : Hit F) (cs : List (Citation F))
        → cited reader sidecar
            (str_of reader (get "chunk_id" (hit_fields h)))
            (score_of reader sidecar (get "score" (hit_fields h)))
            (ok cs)
          ≡ ok (citation h ∷ cs)
    unfolding cited str_of score_of to_score get
    hit-cited h cs = rw (corpus_document h.document h.ordinal) refl

    citations_of-hits :
        (k : ℕ) (hs : List (Hit F))
        → citations_of reader sidecar k (hit_items hs) ≡ ok (map citation (take k hs))
    unfolding citations_of
    citations_of-hits zero hs = refl
    citations_of-hits (suc k) [] = refl
    citations_of-hits (suc k) (h ∷ hs) =
        rw (citations_of-hits k hs) (hit-cited h (map citation (take k hs)))

    -- An answer over hits of the corpus cites the first `top_k` of them in their order, each with its
    -- score and with the document that it was cut from.
    pub shape_answer-hits :
        (top_k : ℕ) (hs : List (Hit F)) (result : Fields F) (answer : RagAnswer F)
        → get "citations" result ≡ some (arr (hit_items hs))
        → shape_answer reader sidecar top_k result ≡ ok answer
        → answer.citations ≡ map citation (take top_k hs)
    unfolding shape_answer listed
    shape_answer-hits top_k hs result answer cites shaped =
        let listed_ok : listed reader sidecar top_k (get "citations" result)
            ≡ ok (map citation (take top_k hs)) =
          rw cites (citations_of-hits top_k hs) in
        let (cs, found, rest) =
          bind-eq-ok (listed reader sidecar top_k (get "citations" result)) _ shaped in
        let (coverage, read, made) =
          bind-eq-ok (score_of reader sidecar (jaccard_of reader sidecar (get "coverage" result))) _
            rest in
        let same : cs ≡ map citation (take top_k hs) = ok_injective _ _ (sym found ∙ listed_ok) in
        ap (λ a. a.citations) (sym (ok_injective _ _ made)) ∙ same
