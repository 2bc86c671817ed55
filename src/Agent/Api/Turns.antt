-- ===== src/Agent/Api/Turns.antt =====
-- What every run of the tool-use loop keeps: the boundary of each call, the protocol of the
-- conversation, and the budget.
use arush_adabala_tax_liabil.Prelude.{
  ℕ, zero, suc, ◌≤◌, ◌≡◌, refl, ◌∙◌, inl, inr, Bool, true, false, Option, List, [], ◌∷◌, ◌++◌,
  Bool-cases, Result, ok, Result-cases, string_eq, nat_eq, list_eq,
}
use arush_adabala_tax_liabil.Prelude.Text.{Text}
use arush_adabala_tax_liabil.Agent.Budget.{BudgetGuard, check_or_raise, usage_cost}
use arush_adabala_tax_liabil.Agent.Budget.Spend.{record_call_lem, Within, checked_call-Within}
use arush_adabala_tax_liabil.Agent.Api.{
  ToolParam, Args, Library, Block, text_block, tool_use, Completion, Turn, assistant, Call, World,
  Loop, make_call, run_blocks, answer_tools, awaited, billed, one_round, run_loop,
}

-- no completion of this world costs more than `limit`
abbrev pub Priced : {J : Type 0} → World J → ℕ → Type 0
Priced {J} world limit =
    (ms : List (Turn J)) (resp : Completion J)
    → world.create ms ≡ ok resp
    → usage_cost resp.usage ≤ limit

-- Nothing else charges the guard while the node awaits a reply.
abbrev pub Alone : {J : Type 0} → World J → Type 0
Alone {J} world =
    ((ms : List (Turn J)) (g : BudgetGuard) → world.during_create ms g ≡ g)
    × ((cs : List (Call J)) (g : BudgetGuard) → world.during_tool cs g ≡ g)

module _ {J : Type 0} (lib : Library J) (world : World J) (tools : List ToolParam)
    (tenant_id thread_id : Text) where
  -- The three pieces of the loop keep what each call and each write keeps.
  abbrev Blocks : List (Block J) → List (Text × J) → Loop J → Result (List (Text × J)) × Loop J
  Blocks = run_blocks lib world tools tenant_id thread_id

  abbrev pub Rounds : ℕ → Loop J → Result (Unit {0}) × Loop J
  Rounds = run_loop lib world tools tenant_id thread_id

  abbrev pub Round : Loop J → Result Bool × Loop J
  Round = one_round lib world tools tenant_id thread_id

  abbrev made : Text → Option (Args J) → Call J
  made = make_call lib world tools tenant_id thread_id

  abbrev Tools : List (Block J) → Loop J → Result Bool × Loop J
  Tools = answer_tools lib world tools tenant_id thread_id

  -- A round keeps what billing a completion keeps, and what its tool calls keep.
  round_inv :
      (P : Loop J → Type 0)
      → ((l : Loop J) → P l → P (awaited lib world tools tenant_id thread_id l))
      → ((l : Loop J) (resp : Completion J)
          → check_or_raise l.guard ≡ ok tt
          → world.create l.messages ≡ ok resp
          → P l
          → P (billed lib world tools tenant_id thread_id l resp))
      → ((bs : List (Block J)) (l : Loop J) → P l → P (Tools bs l).1)
      → (l : Loop J) → P l
      → P (Round l).1
  unfolding one_round
  round_inv P wait bill calls l h = elim (Result-cases (check_or_raise l.guard)) [
    | inr (x, e) ↦ rw (e, one_round) h
    | inl (tt, open_guard) ↦ elim (Result-cases (world.create l.messages)) [
      | inr (x, e) ↦ rw (open_guard, e, one_round) (wait l h)
      | inl (resp, e) ↦ elim (Bool-cases resp.stops_for_tool) [
        | inl more ↦
            rw (open_guard, e, more, one_round) (calls resp.content _ (bill l resp open_guard e h))
        | inr last ↦ rw (open_guard, e, last, one_round) (bill l resp open_guard e h)
      ]
    ]
  ]

  run_loop_inv :
      (P : Loop J → Type 0)
      → ((l : Loop J) → P l → P (Round l).1)
      → (n : ℕ) (l : Loop J) → P l
      → P (Rounds n l).1
  unfolding run_loop
  run_loop_inv P keep zero l h = h
  run_loop_inv P keep (suc n) l h =
      let kept = keep l h in
      elim (Result-cases (Round l).0) [
        | inl (true, e) ↦ rw (e, run_loop) (run_loop_inv P keep n (Round l).1 kept)
        | inl (false, e) ↦ rw (e, run_loop) kept
        | inr (x, e) ↦ rw (e, run_loop) kept
      ]

  -- The two turns that frame the calls touch the conversation alone.
  answer_tools_inv :
      (P : Loop J → Type 0)
      → ((l : Loop J) (ms : List (Turn J)) → P l → P (record l { messages = ms }))
      → ((bs : List (Block J)) (done : List (Text × J)) (l : Loop J) → P l → P (Blocks bs done l).1)
      → (bs : List (Block J)) (l : Loop J) → P l
      → P (Tools bs l).1
  unfolding answer_tools
  answer_tools_inv P frame calls bs l h =
      let asked : Loop J = record l { messages = l.messages ++ assistant bs ∷ [] } in
      let kept = calls bs [] asked (frame l _ h) in
      elim (Result-cases (Blocks bs [] asked).0) [
        | inl (done, e) ↦ rw (e, answer_tools) (frame _ _ kept)
        | inr (x, e) ↦ rw (e, answer_tools) kept
      ]

  blocks-guard :
      Alone world
      → (bs : List (Block J)) (done : List (Text × J)) (l : Loop J)
      → (Blocks bs done l).1.guard ≡ l.guard
  unfolding run_blocks
  blocks-guard alone [] done l = refl
  blocks-guard alone (text_block ∷ bs) done l = blocks-guard alone bs done l
  blocks-guard alone (tool_use id name input ∷ bs) done l =
      let calls : List (Call J) = l.calls ++ made name input ∷ [] in
      elim (Result-cases (world.call_tool calls)) [
        | inl (content, e) ↦ rw (e, run_blocks) (blocks-guard alone bs _ _ ∙ alone.1 calls l.guard)
        | inr (x, e) ↦ rw (e, run_blocks) (alone.1 calls l.guard)
      ]

  abbrev InBudget : ℕ → ℕ → Loop J → Type 0
  InBudget limit ceiling l = (l.guard.ceiling ≡ ceiling) × Within limit l.guard

  pub run_loop-InBudget :
      (limit ceiling : ℕ)
      → Priced world limit
      → Alone world
      → (n : ℕ) (l : Loop J) → InBudget limit ceiling l
      → InBudget limit ceiling (Rounds n l).1
  run_loop-InBudget limit ceiling priced alone = run_loop_inv (InBudget limit ceiling) (
      round_inv (InBudget limit ceiling) (λ l h. rw (alone.0 l.messages l.guard) h)
        (λ l resp o e h. rw (alone.0 l.messages l.guard) (
          (record_call_lem l.guard resp.usage).1 ∙ h.0,
          checked_call-Within limit l.guard resp.usage o (priced l.messages resp e),
        ))
        (answer_tools_inv (InBudget limit ceiling) (λ l ms h. h)
          (λ bs done l h. rw (blocks-guard alone bs done l) h)))
