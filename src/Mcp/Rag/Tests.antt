-- ===== src/Mcp/Rag/Tests.antt =====
-- An answer over two hits, one in a document whose name holds the page mark.
use arush_adabala_tax_liabil.Prelude.{
  ℕ, ◌≡◌, refl, false, some, map, take, ok, string_eq, nat_eq, list_eq,
}
use arush_adabala_tax_liabil.Prelude.Text.{codes}
use arush_adabala_tax_liabil.Prelude.Text.{occurs, before_last}
use arush_adabala_tax_liabil.Prelude.Text.Decimal.{decimal}
use arush_adabala_tax_liabil.Ai.Chunker.{chunk_id_for}
use arush_adabala_tax_liabil.Mcp.Rag.{
  RagAnswer, shape_answer, listed, score_of, jaccard_of, citations_of, cited, doc_id_of,
}
use arush_adabala_tax_liabil.Mcp.Rag.Citations.{citation, shape_answer-hits, hit_items}
use arush_adabala_tax_liabil.Mcp.Money.{to_score}
use arush_adabala_tax_liabil.Mcp.Llm.{str_of}
use arush_adabala_tax_liabil.Mcp.Json.{get, arr}
use arush_adabala_tax_liabil.Mcp.Samples.{reader, sidecar, result, hits}

abbrev answer : RagAnswer ℕ
answer = record {
  answer = codes "answer";
  citations = map citation hits;
  coverage = 0;
  rerank_timed_out = false;
}

found : get "citations" result ≡ some (arr (hit_items hits))
unfolding get
found = refl

shaped : shape_answer reader sidecar 6 result ≡ ok answer
unfolding shape_answer listed citations_of cited str_of score_of jaccard_of get doc_id_of
    chunk_id_for decimal occurs before_last to_score
shaped = refl

shape_answer-hits_example : map citation hits ≡ map citation (take 6 hits)
shape_answer-hits_example = shape_answer-hits reader sidecar 6 hits result answer found shaped
