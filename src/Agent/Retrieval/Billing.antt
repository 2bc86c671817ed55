-- ===== src/Agent/Retrieval/Billing.antt =====
-- What the two calls of the retrieval node cost, and what its contribution reports of them.
use arush_adabala_tax_liabil.Prelude.{
  ℕ, zero, suc, ◌+◌, ◌-◌, ◌≤◌, ◌<◌, ◌≡◌, refl, sym, ap, ◌∙◌, inl, inr, Option, none, some, List, [],
  ◌∷◌, arith, Option-cases, length, take, Result, ok, raised, string_eq, nat_eq, list_eq,
}
use mathlib.Core.Path.{subst}
use arush_adabala_tax_liabil.Prelude.Text.{Text}
use arush_adabala_tax_liabil.Agent.Budget.{
  BudgetGuard, Usage, check_or_raise, record_call, record_usage, usage_cost,
}
use arush_adabala_tax_liabil.Agent.State.{AgentState, Update, Doc}
use arush_adabala_tax_liabil.Agent.Retrieval.{
  top_k, PipelineResult, shape_docs, record_pipeline_usage, Rewrite, Pipeline, rewrite_query,
  run_and_bill, paid_calls, retrieval, settle_rewrite, settle_pipeline, checked, and_then, Citation,
  shape_items,
}

call_lem :
    (g : BudgetGuard) (u : Option Usage)
    → ((record_call g u).spent ≡ g.spent + usage_cost u) × ((record_call g u).ceiling ≡ g.ceiling)
unfolding record_call record_usage usage_cost
call_lem g none = ground arith
call_lem g (some u) = ground arith

pub reply_cost : Result Rewrite → ℕ
reply_cost (raised e) = 0
reply_cost (ok resp) = usage_cost resp.usage

settle_rewrite_lem :
    (strip : Text → Text) (q : Text) (g : BudgetGuard) (r : Result Rewrite)
    → ((settle_rewrite strip q g r).1.spent ≡ g.spent + reply_cost r)
      × ((settle_rewrite strip q g r).1.ceiling ≡ g.ceiling)
unfolding settle_rewrite reply_cost
settle_rewrite_lem strip q g (ok resp) = call_lem g resp.usage
settle_rewrite_lem strip q g (raised e) = ground arith

settle_pipeline_lem :
    {F : Type 0} (g : BudgetGuard) (r : Result (PipelineResult F)) (result : PipelineResult F)
    → (settle_pipeline g r).0 ≡ ok result
    → (r ≡ ok result) × ((settle_pipeline g r).1.spent ≡ g.spent + usage_cost result.usage)
unfolding settle_pipeline record_pipeline_usage record_usage usage_cost
settle_pipeline_lem g (raised e) result h = ground arith
settle_pipeline_lem g (ok r) result h = ground arith

checked_lem :
    {A : Type 0} (g : BudgetGuard) (call : Result A × BudgetGuard) (a : A) (g' : BudgetGuard)
    → checked g call ≡ (ok a, g')
    → (g.spent < g.ceiling) × (call ≡ (ok a, g'))
unfolding checked check_or_raise
checked_lem g call a g' h = ground arith

and_then_lem :
    {A B : Type 0} (m : Result A × BudgetGuard) (f : A → BudgetGuard → Result B × BudgetGuard)
    (b : B) (g : BudgetGuard)
    → and_then m f ≡ (ok b, g)
    → (a : A) × (g' : BudgetGuard) × (m ≡ (ok a, g')) × (f a g' ≡ (ok b, g))
unfolding and_then
and_then_lem (ok a, g') f b g h = (a, g', refl, h)
and_then_lem (raised e, g') f b g h = cc

length-shape_items :
    {F : Type 0} (k : ℕ) (items : List (Option (Citation F)))
    → length (shape_items (take k items)) ≤ k
unfolding shape_items
length-shape_items zero items = omega arith
length-shape_items (suc k) [] = omega arith
length-shape_items (suc k) (none ∷ items) = omega (arith, length-shape_items k items)
length-shape_items (suc k) (some c ∷ items) = omega (arith, length-shape_items k items)

length-shape_docs :
    {F : Type 0} (k : ℕ) (result : PipelineResult F) → length (shape_docs result k) ≤ k
unfolding shape_docs
length-shape_docs k result = elim (Option-cases result.citations) [
  | inl e ↦ rw e (omega arith)
  | inr (raw, e) ↦ rw e (length-shape_items k raw)
]

abbrev reported : {J F : Type 0} → Result (Update J F) → Option ℕ
reported (raised e) = none
reported (ok u) = u.cost_usd_e5

abbrev documents : {J F : Type 0} → Result (Update J F) → Option (List (Doc F))
documents (raised e) = none
documents (ok u) = u.docs

module _ {F : Type 0} (world : Pipeline F) where
  -- All that happens to the guard while a call is awaited is that the other leg is charged.
  abbrev pub OnlyCharged : Type 0
  OnlyCharged =
      (g : BudgetGuard)
      → (g.spent ≤ (world.during_create g).spent)
        × ((world.during_create g).ceiling ≡ g.ceiling)
        × (g.spent ≤ (world.during_pipeline g).spent)
        × ((world.during_pipeline g).ceiling ≡ g.ceiling)

  -- The tally when the rewrite has been billed.
  abbrev rewritten : Text → BudgetGuard → ℕ
  rewritten question g = (world.during_create g).spent + reply_cost (world.create question)

  -- The rewrite was asked for under the ceiling, and so was the pipeline, by the guard `between` them;
  -- both are in the tally.
  abbrev pub Billed :
      Text → Text → BudgetGuard → BudgetGuard → PipelineResult F → BudgetGuard → Type 0
  Billed question tenant_id g between result g' =
      (query : Text) × (world.run_pipeline query tenant_id top_k ≡ ok result)
      × (g.spent < g.ceiling)
      × (between.spent ≡ rewritten question g)
      × (between.ceiling ≡ g.ceiling)
      × (between.spent < g.ceiling)
      × (g'.spent ≡ (world.during_pipeline between).spent + usage_cost result.usage)

  paid_calls-Billed :
      (question tenant_id : Text) (g g' : BudgetGuard) (result : PipelineResult F)
      → OnlyCharged
      → paid_calls world question tenant_id g ≡ (ok result, g')
      → (between : BudgetGuard) × Billed question tenant_id g between result g'
  unfolding paid_calls run_and_bill rewrite_query
  paid_calls-Billed question tenant_id g g' result fair h =
      let (query, between, first, second) = and_then_lem _ _ result g' h in
      let (under, asked) = checked_lem g _ query between first in
      let (under', ran) = checked_lem between _ result g' second in
      let (found, spent) =
        settle_pipeline_lem (world.during_pipeline between)
          (world.run_pipeline query tenant_id top_k) result (ap (λ p. p.0) ran) in
      let sums =
        settle_rewrite_lem world.strip question (world.during_create g) (world.create question) in
      let left : between ≡ (rewrite_query world question g).1 = ap (λ p. p.1) (sym asked) in
      let before : (between.spent ≡ rewritten question g)
          × (between.ceiling ≡ (world.during_create g).ceiling) =
        rw left sums in
      let after : g'.spent ≡ (world.during_pipeline between).spent + usage_cost result.usage =
        rw (ap (λ p. p.1) ran) at spent in
      let kept : between.ceiling ≡ g.ceiling = before.1 ∙ (fair g).1 in
      (between, (query, found, under, before.0, kept, omega (arith, kept, under'), after))

  -- What the other leg was charged while the node awaited its two calls.
  abbrev pub charged_meanwhile : BudgetGuard → BudgetGuard → ℕ
  charged_meanwhile g between =
      ((world.during_create g).spent - g.spent)
      + ((world.during_pipeline between).spent - between.spent)

  -- While nothing happens to the guard but charges, a contribution of the retrieval node reports the
  -- cost of both its calls, each asked for under the ceiling, and on top of it what the other leg was
  -- charged while they were awaited; and at most `top_k` documents.
  pub retrieval-Billed :
      {J : Type 0} (state : AgentState J F) (g g' : BudgetGuard) (u : Update J F)
      → OnlyCharged
      → retrieval world state g ≡ (ok u, g')
      → (result : PipelineResult F) × (between : BudgetGuard) × Billed state.question
          state.tenant_id g between result g'
        × (u.cost_usd_e5
            ≡ some (
                reply_cost (world.create state.question)
                + usage_cost result.usage
                + charged_meanwhile g between))
        × (u.docs ≡ some (shape_docs result top_k))
        × (length (shape_docs result top_k) ≤ top_k)
  unfolding retrieval
  retrieval-Billed state g g' u fair h =
      let (result, after, paid, shaped) = and_then_lem _ _ u g' h in
      let (between, billed) =
        paid_calls-Billed state.question state.tenant_id g after result fair paid in
      let same : after ≡ g' = ap (λ p. p.1) shaped in
      let made = ap (λ p. p.0) shaped in
      (
        result,
        between,
        subst (λ x. Billed state.question state.tenant_id g between result x) same billed,
        sym (ap reported made)
            ∙ ap some (omega (arith, billed.3, billed.6, (fair g).0, (fair between).2)),
        sym (ap documents made),
        length-shape_docs top_k result,
      )
