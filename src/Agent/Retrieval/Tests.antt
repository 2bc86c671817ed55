-- ===== src/Agent/Retrieval/Tests.antt =====
-- A run of the retrieval node: a rewrite that is billed, and a pipeline that is.
use arush_adabala_tax_liabil.Prelude.{
  ℕ, ◌+◌, ◌≤◌, ◌≡◌, refl, Option, none, some, [], ◌∷◌, arith, length, ok, string_eq, nat_eq,
  list_eq,
}
use arush_adabala_tax_liabil.Prelude.Text.{codes}
use arush_adabala_tax_liabil.Agent.Budget.{
  BudgetGuard, Usage, check_or_raise, record_call, record_usage, call_cost, usage_cost,
}
use arush_adabala_tax_liabil.Agent.State.{AgentState, Update, no_update}
use arush_adabala_tax_liabil.Agent.Retrieval.{
  top_k, doc_id_of, PipelineResult, shape_docs, record_pipeline_usage, Rewrite, Pipeline,
  settle_rewrite, settle_pipeline, checked, and_then, rewrite_query, run_and_bill, paid_calls,
  retrieval,
}
use arush_adabala_tax_liabil.Agent.Retrieval.DocIds.{doc_id_of-chunk_id_for}
use arush_adabala_tax_liabil.Agent.Retrieval.Billing.{
  OnlyCharged, charged_meanwhile, Billed, reply_cost, retrieval-Billed,
}
use arush_adabala_tax_liabil.Ai.Chunker.{chunk_id_for}

doc_id_of-chunk_id_for_example : doc_id_of (chunk_id_for (codes "doc-p3-x") 12) ≡ codes "doc-p3-x"
doc_id_of-chunk_id_for_example = doc_id_of-chunk_id_for (codes "doc-p3-x") 12

abbrev used : Option Usage
used = some (record { input_tokens = some 1000; output_tokens = none })

abbrev rewrite : Rewrite
rewrite = record { texts = codes "refund" ∷ codes "rules" ∷ []; usage = used }

abbrev result : PipelineResult ℕ
result = record {
  citations = some (none ∷ some (record { chunk_id = codes "chunk-a-p0"; score = 9 }) ∷ []);
  usage = used;
}

abbrev world : Pipeline ℕ
world = record {
  create = λ q. ok rewrite;
  strip = λ t. t;
  run_pipeline = λ query tenant_id k. ok result;
  during_create = λ g. record g { spent = g.spent + 50 };
  during_pipeline = λ g. g;
}

abbrev state : AgentState ℕ ℕ
state = record {
  question = codes "what are the rules";
  tenant_id = codes "mine";
  thread_id = codes "thread";
  docs = [];
  tool_results = none;
  answer = none;
  cost_usd_e5 = 0;
  visited_nodes = [];
}

abbrev before : BudgetGuard
before = record { ceiling = 1000; spent = 100 }

abbrev after : BudgetGuard
after = record { ceiling = 1000; spent = 750 }

abbrev update : Update ℕ ℕ
update = record no_update {
  docs = some (shape_docs result top_k);
  cost_usd_e5 = some 650;
  visited_nodes = some ("retrieval_agent" ∷ []);
}

ran : retrieval world state before ≡ (ok update, after)
unfolding retrieval paid_calls run_and_bill rewrite_query and_then checked settle_pipeline
    settle_rewrite check_or_raise record_call record_usage record_pipeline_usage call_cost
ran = refl

only_charged : OnlyCharged world
only_charged g = (omega arith, refl, omega arith, refl)

retrieval-Billed_example :
    (found : PipelineResult ℕ) × (between : BudgetGuard) × Billed world
      (codes "what are the rules")
      (codes "mine")
      before
      between
      found
      after
    × (some 650
        ≡ some (
            reply_cost (ok rewrite)
            + usage_cost found.usage
            + charged_meanwhile world before between))
    × (some (shape_docs result top_k) ≡ some (shape_docs found top_k))
    × (length (shape_docs found top_k) ≤ top_k)
retrieval-Billed_example = retrieval-Billed world state before after update only_charged ran
