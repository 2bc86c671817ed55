-- ===== src/Ai/Rerank/Tests.antt =====
-- A rerank by Cohere of two candidates, one row of its reply out of range.
use arush_adabala_tax_liabil.Prelude.{
  ℕ, none, some, List, [], ◌∷◌, arith, ltb, ok, string_eq, nat_eq, list_eq,
}
use arush_adabala_tax_liabil.Prelude.Int.{pos}
use arush_adabala_tax_liabil.Prelude.Text.{codes}
use arush_adabala_tax_liabil.Ai.Sorting.{IsOrder}
use arush_adabala_tax_liabil.Ai.Rerank.{
  Metrics, Candidate, Services, Reply, rows, rerank_candidates,
}
use arush_adabala_tax_liabil.Ai.Rerank.Contract.{Contract, rerank_candidates-Contract}

abbrev reply : Reply ℕ
reply = rows (
    record { index = pos 9; relevance_score = none }
    ∷ record { index = pos 0; relevance_score = some 5 }
    ∷ record { index = pos 1; relevance_score = some 8 }
    ∷ [])

abbrev services : Services ℕ
services = record {
  gt = λ a b. ltb b a;
  of_int = λ n. n;
  predict = λ pairs. ok ([], 0);
  cohere_api_key = some (codes "key");
  post = λ query documents top_n timeout_ms. reply;
  reranker_env = some (codes "cohere");
  strip_lower = λ t. t;
}

order : IsOrder services.gt
order = record { asymmetric = λ a b h. ground arith; weak = λ a b c h k. ground arith }

abbrev candidates : List (Candidate ℕ)
candidates =
    record { chunk_id = codes "chunk-a-p0"; text = codes "a"; score = 2 }
    ∷ record { chunk_id = codes "chunk-b-p0"; text = codes "b"; score = 1 }
    ∷ []

abbrev counters : Metrics
counters = record { requests = 4; timeouts = 1 }

rerank_candidates-Contract_example :
    Contract services candidates 6 counters
      (rerank_candidates services (codes "q") candidates 6 300 none counters)
rerank_candidates-Contract_example =
    rerank_candidates-Contract services order (codes "q") candidates 6 300 none counters
