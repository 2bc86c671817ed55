-- ===== src/Agent/Synthesis/Repair.antt =====
-- The repair loop: what it bills, how often it asks, and how it can end.
use arush_adabala_tax_liabil.Prelude.{
  ℕ, zero, suc, ◌+◌, ◌≤◌, ◌<◌, ◌≡◌, refl, sym, ap, ◌∙◌, ◌≢◌, ◌⊎◌, inl, inr, Option, none, some,
  List, [], ◌∷◌, ◌++◌, arith, length, Result, ok, raised, string_eq, nat_eq, list_eq,
}
use mathlib.Core.List.{append-nil, append_assoc}
use arush_adabala_tax_liabil.Prelude.Text.{Text}
use arush_adabala_tax_liabil.Agent.Budget.{
  BudgetGuard, Usage, check_or_raise, record_call, record_usage, usage_cost,
}
use arush_adabala_tax_liabil.Agent.Synthesis.{
  max_attempts, Message, Model, Run, Attempt, answered, invalid, failed, Ending, answer, unrepaired,
  crashed, no_answer, arguments_of, settle, finish, stream_once, permitted, attempt, after_attempt,
  repair_loop, open_run, synthesis,
}

pub received_cost : {J : Type 0} → List (Message J) → ℕ
received_cost [] = 0
received_cost (m ∷ ms) = usage_cost m.usage + received_cost ms

call_lem : (g : BudgetGuard) (u : Option Usage) → (record_call g u).spent ≡ g.spent + usage_cost u
unfolding record_call record_usage usage_cost
call_lem g none = ground arith
call_lem g (some u) = ground arith

module _ {J A E : Type 0} (model : Model J A E) where
  -- The verdict on a completion.
  abbrev pub verdict : Message J → A ⊎ E
  verdict m = model.model_validate (arguments_of model.empty m.content)

  -- How the completions that a run received explain its ending.
  abbrev pub Explains : List (Message J) → Option E → Ending A E → Type 0
  Explains [] last (answer a) = ⊥
  Explains [] last (unrepaired e) = last ≡ some e
  Explains [] last (crashed x) = Unit
  Explains [] last no_answer = last ≡ none
  Explains (m ∷ ms) last end =
      ((a : A) × (verdict m ≡ inl a) × (ms ≡ []) × (end ≡ answer a))
      ⊎ ((e : E) × (verdict m ≡ inr e) × Explains ms (some e) end)

  -- How many completions an ending takes, of at most `n`.
  abbrev pub Counted : ℕ → List (Message J) → Ending A E → Type 0
  Counted n ms (answer a) = (0 < length ms) × (length ms ≤ n)
  Counted n ms (crashed x) = length ms < n
  Counted n ms (unrepaired e) = length ms ≡ n
  Counted n ms no_answer = length ms ≡ n

  Counted-suc :
      (n : ℕ) (m : Message J) (ms : List (Message J)) (end : Ending A E)
      → Counted n ms end
      → Counted (suc n) (m ∷ ms) end
  Counted-suc n m ms (answer a) h = (omega arith, omega arith)
  Counted-suc n m ms (crashed x) h = omega arith
  Counted-suc n m ms (unrepaired e) h = omega arith
  Counted-suc n m ms no_answer h = omega arith

  abbrev Received : Run J E → Run J E → Message J → Type 0
  Received run run' m =
      (run'.received ≡ run.received ++ m ∷ [])
      × (run'.guard.spent ≡ run.guard.spent + usage_cost m.usage)

  Step : Run J E → Attempt A E → Run J E → Type 0
  Step run (failed x) run' = (run'.received ≡ run.received) × (run'.guard.spent ≡ run.guard.spent)
  Step run (answered a) run' = (m : Message J) × Received run run' m × (verdict m ≡ inl a)
  Step run (invalid e) run' = (m : Message J) × Received run run' m × (verdict m ≡ inr e)

  settle-Step :
      (run run' : Run J E) (m : Message J) (v : A ⊎ E)
      → Received run run' m
      → verdict m ≡ v
      → Step run (settle model run' m v).0 (settle model run' m v).1
  unfolding settle Step
  settle-Step run run' m (inl a) h e = (m, h, e)
  settle-Step run run' m (inr a) h e = (m, h, e)

  finish-Step :
      (run : Run J E) (sent : List Text) (end : Result (Message J))
      → Step run (finish model run sent end).0 (finish model run sent end).1
  unfolding finish Step
  finish-Step run sent (raised x) = (refl, refl)
  finish-Step run sent (ok m) =
      settle-Step run _ m (verdict m) (refl, call_lem run.guard m.usage) refl

  permitted-Step :
      (run : Run J E) (check : Result (Unit {0}))
      → Step run
          (permitted model run (stream_once model run) check).0
          (permitted model run (stream_once model run) check).1
  unfolding permitted stream_once Step
  permitted-Step run (raised x) = (refl, refl)
  permitted-Step run (ok u) = finish-Step run _ _

  attempt-Step : (run : Run J E) → Step run (attempt model run).0 (attempt model run).1
  unfolding attempt
  attempt-Step run = permitted-Step run (check_or_raise run.guard)

  Explained : ℕ → Option E → Run J E → Ending A E × Run J E → Type 0
  Explained n last run (end, run') =
      (ms : List (Message J)) × (run'.received ≡ run.received ++ ms)
      × (run'.guard.spent ≡ run.guard.spent + received_cost ms)
      × Explains ms last end
      × Counted n ms end

  after_attempt-Explained :
      (n : ℕ) (last : Option E) (run : Run J E) (tried : Attempt A E × Run J E)
      (again : E → Run J E → Ending A E × Run J E)
      → Step run tried.0 tried.1
      → ((e : E) (run' : Run J E) → Explained n (some e) run' (again e run'))
      → Explained (suc n) last run (after_attempt model again tried)
  unfolding after_attempt Explained Step received_cost
  after_attempt-Explained n last run (answered a, run') again (m, received, v) rest = (
    m ∷ [],
    received.0,
    (omega (arith, received.1)),
    inl (a, v, refl, refl),
    (omega arith, omega arith),
  )
  after_attempt-Explained n last run (failed x, run') again step rest =
      ([], step.0 ∙ sym (append-nil _), (omega (arith, step.1)), tt, omega arith)
  after_attempt-Explained n last run (invalid e, run') again (m, received, v) rest =
      let (ms, more, spent, why, count) = rest e run' in
      (
        m ∷ ms,
        more ∙ ap (λ r. r ++ ms) received.0 ∙ append_assoc run.received (m ∷ []) ms,
        (omega (arith, received.1, spent)),
        inr (e, v, why),
        Counted-suc n m ms _ count,
      )

  repair_loop-Explained :
      (n : ℕ) (last : Option E) (run : Run J E)
      → Explained n last run (repair_loop model n last run)
  unfolding repair_loop Explained received_cost
  repair_loop-Explained zero none run = ([], sym (append-nil _), omega arith, refl, refl)
  repair_loop-Explained zero (some e) run = ([], sym (append-nil _), omega arith, refl, refl)
  repair_loop-Explained (suc n) last run =
      after_attempt-Explained n last run (attempt model run) _ (attempt-Step run)
        (λ e run'. repair_loop-Explained n (some e) run')

  no_answer-absurd : (ms : List (Message J)) (e : E) → Explains ms (some e) no_answer → ⊥
  no_answer-absurd [] e h = ground arith
  no_answer-absurd (m ∷ ms) e (inl (a, v, none_left, h)) = ground arith
  no_answer-absurd (m ∷ ms) e (inr (e', v, h)) = no_answer-absurd ms e' h

  answered-lem : (ms : List (Message J)) → Explains ms none no_answer → Counted 3 ms no_answer → ⊥
  answered-lem [] h count = ground arith
  answered-lem (m ∷ ms) (inl (a, v, none_left, h)) count = ground arith
  answered-lem (m ∷ ms) (inr (e', v, h)) count = no_answer-absurd ms e' h

  -- Of every request: each completion that arrived is billed, whether or not it was usable; an answer
  -- is the verdict on the last of them and every earlier one was rejected; a validation error is
  -- raised after exactly three rejections, with the error of the last one; any other failure leaves at
  -- most two completions, all rejected; and the loop never ends without one of these.
  pub synthesis-Explained :
      (prompt : Text) (guard : BudgetGuard)
      → ((synthesis model prompt guard).1.guard.spent
          ≡ guard.spent + received_cost (synthesis model prompt guard).1.received)
        × Explains (synthesis model prompt guard).1.received none (synthesis model prompt guard).0
        × Counted max_attempts
            (synthesis model prompt guard).1.received
            (synthesis model prompt guard).0
        × ((synthesis model prompt guard).0 ≢ no_answer)
  unfolding synthesis Explained
  synthesis-Explained prompt guard =
      let (ms, received, spent, why, count) =
        repair_loop-Explained max_attempts none (open_run model prompt guard) in
      let same = sym received in
      (
        rw same at spent,
        rw same at why,
        rw same at count,
        λ e. answered-lem ms (rw e at why) (rw e at count),
      )
