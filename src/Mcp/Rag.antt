-- ===== src/Mcp/Rag.antt =====
-- tools/rag.py: the pipeline under a deadline, and the shape of its result. The pipeline is a
-- parameter, with the deadline around it: a raise of `timeout_error` is a miss.
pub mod Citations
mod Tests
use arush_adabala_tax_liabil.Prelude.{
  ℕ, zero, suc, ◌+◌, ◌-◌, ◌*◌, ◌/◌, ◌%◌, ◌≤◌, ◌<◌, min, String, ◌≡◌, refl, sym, ap, ◌∙◌, ◌≢◌, ◌↔◌,
  ◌⊎◌, inl, inr, Bool, true, false, not, ◌&&◌, ◌||◌, Option, none, some, List, [], ◌∷◌, ◌++◌, map,
  arith, ltb, leb, if◌then◌else◌, Bool-cases, Option-cases, leb→le, lt→ltb, Eq, ◌==◌, ==_refl,
  length, take, get_elem?, length-append, length-take, length-map, any, All, All-append, All-take,
  contains, Exc, Result, ok, raised, bind, bind-eq-ok, Result-cases, ok_injective, ok_or,
  budget_exceeded, value_error, key_error, type_error, runtime_error, timeout_error,
  validation_error, dependency_unavailable, string_eq, nat_eq, list_eq, graph_recursion,
  http_timeout, http_error, cancelled, other,
}
use arush_adabala_tax_liabil.Prelude.Int.{ℤ, pos}
use arush_adabala_tax_liabil.Prelude.Text.{
  Text, codes, starts_with, occurs, drop_prefix, before_last,
}
use arush_adabala_tax_liabil.Prelude.Dict.{insert, get_or}
use arush_adabala_tax_liabil.Mcp.Errors.{
  Failure, mcp_error, rag_timeout, failure_of, Outcome, done, failed, bind_outcome,
}
use arush_adabala_tax_liabil.Mcp.Json.{
  Json, null, flag, whole, real, str, arr, obj, Items, nil, cons, Fields, end, field, get,
  fields_of, as_list,
}
use arush_adabala_tax_liabil.Mcp.Money.{to_score}
use arush_adabala_tax_liabil.Mcp.Tenancy.{Identity}
use arush_adabala_tax_liabil.Mcp.Observability.{
  Extra, number, text, switch, Span, Ran, Observed, observe, cost_source_unpriced,
}
use arush_adabala_tax_liabil.Mcp.Http.{unlogged}
use arush_adabala_tax_liabil.Mcp.Llm.{Reader, str_of, is_true}
use arush_adabala_tax_liabil.Mcp.Orders.Args.{tenants, within, check}

pub record RagArgs : Type 0 where
  pub question : Text
  pub tenant_id : Text
  pub top_k : ℕ

pub record Citation (F : Type 0) : Type 0 where
  pub chunk_id : Text
  pub doc_id : Text
  pub score : F

pub record RagAnswer (F : Type 0) : Type 0 where
  pub answer : Text
  pub citations : List (Citation F)
  pub coverage : F
  pub rerank_timed_out : Bool

unfoldable pub rag_args : Text → Text → ℕ → Outcome RagArgs
rag_args question tenant_id top_k =
    bind_outcome
      (check (within 2 2000 (length question) && contains tenant_id tenants && within 1 20 top_k))
      λ _. done (record { question = question; tenant_id = tenant_id; top_k = top_k })

unfoldable pub doc_id_of : Text → Text
doc_id_of chunk_id =
    let rest = drop_prefix (codes "chunk-") chunk_id in
    if not (starts_with (codes "chunk-") chunk_id) || not (occurs (codes "-p") chunk_id)
    then chunk_id
    else get_or (before_last (codes "-p") rest) rest

-- How a score is read, and the pipeline: question, tenant and width.
pub record Sidecar (F : Type 0) : Type 0 where
  pub of_whole : ℤ → Result F
  pub read : Text → Option F
  pub zero_score : F
  pub rag_fn : Text → Text → ℕ → Result (Fields F)

module _ {F : Type 0} (reader : Reader F) (sidecar : Sidecar F) where
  open sidecar use {of_whole, read, zero_score, rag_fn}

  unfoldable pub score_of : Option (Json F) → Result F
  score_of none = ok zero_score
  score_of (some v) = to_score of_whole read zero_score v

  unfoldable pub cited : Text → Result F → Result (List (Citation F)) → Result (List (Citation F))
  cited chunk_id score rest = bind score λ x.
      bind rest
        λ cs. ok (record { chunk_id = chunk_id; doc_id = doc_id_of chunk_id; score = x } ∷ cs)

  -- the first `k` items; one that is no mapping is passed over
  unfoldable pub citations_of : ℕ → Items F → Result (List (Citation F))
  citations_of zero items = ok []
  citations_of (suc k) nil = ok []
  citations_of (suc k) (cons (obj d) items) =
      cited (str_of reader (get "chunk_id" d)) (score_of (get "score" d)) (citations_of k items)
  citations_of (suc k) (cons v items) = citations_of k items

  unfoldable pub listed : ℕ → Option (Json F) → Result (List (Citation F))
  listed k (some (arr items)) = citations_of k items
  listed k v = ok []

  unfoldable pub jaccard_of : Option (Json F) → Option (Json F)
  jaccard_of (some (obj d)) = get "jaccard" d
  jaccard_of v = none

  unfoldable pub shape_answer : ℕ → Fields F → Result (RagAnswer F)
  shape_answer top_k result = bind (listed top_k (get "citations" result)) λ citations.
      bind (score_of (jaccard_of (get "coverage" result))) λ coverage. ok (record {
        answer = str_of reader (get "text" result);
        citations = citations;
        coverage = coverage;
        rerank_timed_out = elim (get "rerank_timed_out" result) [
          | none ↦ false
          | some v ↦ is_true reader v
        ];
      })

  unfoldable pub answered : Span → Result (RagAnswer F) → Ran (Unit {0}) (RagAnswer F)
  answered span (raised e) = record { outcome = failed (failure_of e); span = span; sent = tt ∷ [] }
  answered span (ok a) = record {
    outcome = done a;
    span =
        insert "rerank_timed_out" (switch a.rerank_timed_out)
          (insert "citations" (number (pos (length a.citations))) span);
    sent = tt ∷ [];
  }

  unfoldable pub settle_rag : ℕ → Text → Span → Result (Fields F) → Ran (Unit {0}) (RagAnswer F)
  settle_rag top_k message span (ok result) = answered span (shape_answer top_k result)
  settle_rag top_k message span (raised timeout_error) = record {
    outcome = failed (mcp_error (rag_timeout message));
    span = span;
    sent = tt ∷ [];
  }
  settle_rag top_k message span (raised e) = record {
    outcome = failed (failure_of e);
    span = span;
    sent = tt ∷ [];
  }

  module _ (message : Text) (who : Identity) where
    -- `message` names the deadline that was missed.
    unfoldable pub retrieve_and_generate : RagArgs → Observed (Unit {0}) (RagAnswer F)
    retrieve_and_generate args = observe who "rag.retrieve_and_generate" args.tenant_id λ span.
        settle_rag args.top_k message
          (insert "cost_source" (text cost_source_unpriced)
            (insert "top_k" (number (pos args.top_k)) span))
          (rag_fn args.question args.tenant_id args.top_k)

    unfoldable pub rag_retrieve_and_generate : Text → Text → ℕ → Observed (Unit {0}) (RagAnswer F)
    rag_retrieve_and_generate question tenant_id top_k =
        unlogged (rag_args question tenant_id top_k) retrieve_and_generate
