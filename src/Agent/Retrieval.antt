-- ===== src/Agent/Retrieval.antt =====
-- nodes/retrieval.py: the rewrite of the question, the pipeline call, and the reduced citations.
-- `F` stands for floats, `J` for JSON values. The model's client, `str.strip` and the pipeline are
-- parameters, and so are the conversions `str` and `float` with their defaults. The guard is shared:
-- while the node awaits a reply the other leg may charge it, and what it is then is a parameter.
pub mod DocIds
pub mod Billing
mod Tests
use arush_adabala_tax_liabil.Prelude.{
  ℕ, zero, suc, ◌+◌, ◌-◌, ◌*◌, ◌/◌, ◌%◌, ◌≤◌, ◌<◌, min, String, ◌≡◌, refl, sym, ap, ◌∙◌, ◌≢◌, ◌↔◌,
  ◌⊎◌, inl, inr, Bool, true, false, not, ◌&&◌, ◌||◌, Option, none, some, List, [], ◌∷◌, ◌++◌, map,
  arith, ltb, leb, if◌then◌else◌, Bool-cases, Option-cases, leb→le, lt→ltb, Eq, ◌==◌, ==_refl,
  length, take, get_elem?, length-append, length-take, length-map, any, All, All-append, All-take,
  contains, Exc, Result, ok, raised, bind, bind-eq-ok, Result-cases, ok_injective, ok_or,
  budget_exceeded, value_error, key_error, type_error, runtime_error, timeout_error,
  validation_error, dependency_unavailable, string_eq, nat_eq, list_eq, graph_recursion,
  http_timeout, http_error, cancelled, other,
}
use arush_adabala_tax_liabil.Prelude.Dict.{Dict, get_or}
use arush_adabala_tax_liabil.Prelude.Text.{
  Text, codes, starts_with, occurs, drop_prefix, before_last,
}
use arush_adabala_tax_liabil.Agent.Budget.{
  BudgetGuard, Usage, check_or_raise, record_call, record_usage,
}
use arush_adabala_tax_liabil.Agent.State.{AgentState, Update, Doc, no_update}

abbrev pub top_k : ℕ
top_k = 8

abbrev pub chunk_prefix : Text
chunk_prefix = codes "chunk-"

abbrev pub page_mark : Text
page_mark = codes "-p"

-- a chunk id of another shape stands for itself
unfoldable pub doc_id_of : Text → Text
doc_id_of chunk_id =
    let rest = drop_prefix chunk_prefix chunk_id in
    if starts_with chunk_prefix chunk_id && occurs page_mark chunk_id
    then get_or (before_last page_mark rest) rest
    else chunk_id

-- A citation of the pipeline, its two fields after the conversions; `none` is an item that is no
-- mapping.
pub record Citation (F : Type 0) : Type 0 where
  pub chunk_id : Text
  pub score : F

-- The pipeline's result: `citations` is `none` where they are no list, `usage` where it is no mapping.
pub record PipelineResult (F : Type 0) : Type 0 where
  pub citations : Option (List (Option (Citation F)))
  pub usage : Option Usage

unfoldable pub shape_items : {F : Type 0} → List (Option (Citation F)) → List (Doc F)
shape_items [] = []
shape_items (none ∷ items) = shape_items items
shape_items (some c ∷ items) =
    record { chunk_id = c.chunk_id; doc_id = doc_id_of c.chunk_id; score = c.score }
    ∷ shape_items items

unfoldable pub shape_docs : {F : Type 0} → PipelineResult F → ℕ → List (Doc F)
shape_docs result k = elim result.citations [ none ↦ [] | some raw ↦ shape_items (take k raw) ]

unfoldable pub record_pipeline_usage : {F : Type 0} → PipelineResult F → BudgetGuard → BudgetGuard
record_pipeline_usage result guard = elim result.usage [
  | none ↦ guard
  | some u ↦ record_usage guard (get_or u.input_tokens 0) (get_or u.output_tokens 0)
]

-- The reply to the rewrite: the texts of its text blocks, and its usage.
pub record Rewrite : Type 0 where
  pub texts : List Text
  pub usage : Option Usage

-- `" ".join(parts)`
unfoldable pub join_spaces : List Text → Text
join_spaces [] = []
join_spaces (t ∷ []) = t
join_spaces (t ∷ u ∷ ts) = t ++ codes " " ++ join_spaces (u ∷ ts)

pub record Pipeline (F : Type 0) : Type 0 where
  pub create : Text → Result Rewrite
  pub strip : Text → Text
  pub run_pipeline : Text → Text → ℕ → Result (PipelineResult F)
  pub during_create : BudgetGuard → BudgetGuard
  pub during_pipeline : BudgetGuard → BudgetGuard

-- `rewritten or question`
abbrev or_question : Text → Text → Text
or_question [] question = question
or_question (c ∷ rewritten) question = c ∷ rewritten

-- What is made of the reply: a failed call returns the question, and a reply is billed before it is
-- read. `except Exception` lets a cancellation through.
unfoldable pub settle_rewrite :
    (Text → Text) → Text → BudgetGuard → Result Rewrite → Result Text × BudgetGuard
settle_rewrite strip question guard (raised cancelled) = (raised cancelled, guard)
settle_rewrite strip question guard (raised e) = (ok question, guard)
settle_rewrite strip question guard (ok resp) =
    (ok (or_question (strip (join_spaces resp.texts)) question), record_call guard resp.usage)

unfoldable pub settle_pipeline :
    {F : Type 0} → BudgetGuard → Result (PipelineResult F) → Result (PipelineResult F) × BudgetGuard
settle_pipeline guard (raised e) = (raised e, guard)
settle_pipeline guard (ok result) = (ok result, record_pipeline_usage result guard)

-- A paid call behind a check of the ceiling; the guard as it is left goes beside the outcome.
unfoldable pub checked :
    {A : Type 0} → BudgetGuard → Result A × BudgetGuard → Result A × BudgetGuard
checked guard call = elim (check_or_raise guard) [ raised e ↦ (raised e, guard) | ok _ ↦ call ]

unfoldable pub and_then :
    {A B : Type 0}
    → Result A × BudgetGuard
    → (A → BudgetGuard → Result B × BudgetGuard)
    → Result B × BudgetGuard
and_then (raised e, guard) f = (raised e, guard)
and_then (ok a, guard) f = f a guard

module _ {F : Type 0} (world : Pipeline F) where
  unfoldable pub rewrite_query : Text → BudgetGuard → Result Text × BudgetGuard
  rewrite_query question guard =
      settle_rewrite world.strip question (world.during_create guard) (world.create question)

  unfoldable pub run_and_bill : Text → Text → BudgetGuard → Result (PipelineResult F) × BudgetGuard
  run_and_bill query tenant_id guard =
      checked guard
        (settle_pipeline (world.during_pipeline guard) (world.run_pipeline query tenant_id top_k))

  -- Both paid calls, each behind its check.
  unfoldable pub paid_calls : Text → Text → BudgetGuard → Result (PipelineResult F) × BudgetGuard
  paid_calls question tenant_id guard =
      and_then (checked guard (rewrite_query question guard))
        λ query guard'. run_and_bill query tenant_id guard'

  unfoldable pub retrieval :
      {J : Type 0} → AgentState J F → BudgetGuard → Result (Update J F) × BudgetGuard
  retrieval state guard =
      and_then (paid_calls state.question state.tenant_id guard) λ result guard'. (
        ok (record no_update {
          docs = some (shape_docs result top_k);
          cost_usd_e5 = some (guard'.spent - guard.spent);
          visited_nodes = some ("retrieval_agent" ∷ []);
        }),
        guard',
      )
