-- ===== src/Agent/Api/Protocol.antt =====
-- The conversation that the loop of nodes/api.py builds, turn by turn.
use arush_adabala_tax_liabil.Prelude.{
  ℕ, zero, suc, ◌≡◌, refl, sym, ◌∙◌, inl, inr, true, false, Option, List, [], ◌∷◌, ◌++◌, map, arith,
  Bool-cases, Result, ok, Result-cases, string_eq, nat_eq, list_eq,
}
use mathlib.Core.List.{append-nil, append_assoc, map-append}
use arush_adabala_tax_liabil.Prelude.Text.{Text}
use arush_adabala_tax_liabil.Agent.Budget.{check_or_raise}
use arush_adabala_tax_liabil.Agent.Api.{
  ToolParam, Args, Library, Block, text_block, tool_use, Turn, user, assistant, results, Call,
  World, Loop, make_call, run_blocks, answer_tools, billed, one_round, run_loop,
}
use arush_adabala_tax_liabil.Agent.Api.Turns.{Rounds, Round}

pub call_ids : {J : Type 0} → List (Block J) → List Text
call_ids [] = []
call_ids (text_block ∷ bs) = call_ids bs
call_ids (tool_use id name input ∷ bs) = id ∷ call_ids bs

abbrev pub ids_of : {J : Type 0} → List (Text × J) → List Text
ids_of = map (λ r. r.0)

-- Turns in pairs; `messages` is the user's question and then such pairs.
abbrev pub Paired : {J : Type 0} → List (Turn J) → Type 0
Paired [] = Unit
Paired (assistant bs ∷ results rs ∷ rest) = (ids_of rs ≡ call_ids bs) × Paired rest
Paired _ = ⊥

abbrev pub Conversation : {J : Type 0} → List (Turn J) → Type 0
Conversation (user q ∷ rest) = Paired rest
Conversation _ = ⊥

Paired-append :
    {J : Type 0} (ms : List (Turn J)) (bs : List (Block J)) (rs : List (Text × J))
    → Paired ms
    → ids_of rs ≡ call_ids bs
    → Paired (ms ++ assistant bs ∷ results rs ∷ [])
Paired-append [] bs rs h e = (e, tt)
Paired-append (assistant cs ∷ results qs ∷ rest) bs rs h e = (h.0, Paired-append rest bs rs h.1 e)
Paired-append (assistant cs ∷ []) bs rs h e = elim h [ ]
Paired-append (assistant cs ∷ user q ∷ rest) bs rs h e = elim h [ ]
Paired-append (assistant cs ∷ assistant b ∷ rest) bs rs h e = elim h [ ]
Paired-append (user q ∷ rest) bs rs h e = elim h [ ]
Paired-append (results q ∷ rest) bs rs h e = elim h [ ]

Conversation-append :
    {J : Type 0} (ms : List (Turn J)) (bs : List (Block J)) (rs : List (Text × J))
    → Conversation ms
    → ids_of rs ≡ call_ids bs
    → Conversation ((ms ++ assistant bs ∷ []) ++ results rs ∷ [])
Conversation-append [] bs rs h e = elim h [ ]
Conversation-append (user q ∷ rest) bs rs h e = rw append_assoc (Paired-append rest bs rs h e)
Conversation-append (assistant b ∷ rest) bs rs h e = elim h [ ]
Conversation-append (results q ∷ rest) bs rs h e = elim h [ ]

module _ {J : Type 0} (lib : Library J) (world : World J) (tools : List ToolParam)
    (tenant_id thread_id : Text) where
  abbrev Blocks : List (Block J) → List (Text × J) → Loop J → Result (List (Text × J)) × Loop J
  Blocks = run_blocks lib world tools tenant_id thread_id

  abbrev made : Text → Option (Args J) → Call J
  made = make_call lib world tools tenant_id thread_id

  -- a turn's calls, when none raises, are answered under their ids, and write no message
  blocks_answer :
      (bs : List (Block J)) (done rs : List (Text × J)) (l : Loop J)
      → (Blocks bs done l).0 ≡ ok rs
      → (ids_of rs ≡ ids_of done ++ call_ids bs) × ((Blocks bs done l).1.messages ≡ l.messages)
  unfolding run_blocks call_ids
  blocks_answer [] done rs l h =
      let e : rs ≡ done = ground arith in (rw e (sym (append-nil _)), refl)
  blocks_answer (text_block ∷ bs) done rs l h = blocks_answer bs done rs l h
  blocks_answer (tool_use id name input ∷ bs) done rs l h =
      elim (Result-cases (world.call_tool (l.calls ++ made name input ∷ []))) [
        | inl (content, e) ↦
            let (ids, ms) =
              blocks_answer bs (done ++ (id, content) ∷ []) rs _ (rw (e, run_blocks) at h) in
            (ids ∙ simp (map-append, append_assoc), rw (e, run_blocks) ms)
        | inr (x, e) ↦ cc (rw (e, run_blocks) at h)
      ]

  tools_answer :
      (bs : List (Block J)) (l : Loop J)
      → (answer_tools lib world tools tenant_id thread_id bs l).0 ≡ ok true
      → Conversation l.messages
      → Conversation (answer_tools lib world tools tenant_id thread_id bs l).1.messages
  unfolding answer_tools
  tools_answer bs l h c =
      let asked : Loop J = record l { messages = l.messages ++ assistant bs ∷ [] } in
      elim (Result-cases (Blocks bs [] asked).0) [
        | inr (x, e) ↦ cc (rw (e, answer_tools) at h)
        | inl (rs, e) ↦
            let (ids, ms) = blocks_answer bs [] rs asked e in
            rw (e, answer_tools) (rw ms (Conversation-append l.messages bs rs c ids))
      ]

  -- a round that asks for another has added one answered pair
  round_answers :
      (l : Loop J)
      → (Round lib world tools tenant_id thread_id l).0 ≡ ok true
      → Conversation l.messages
      → Conversation (Round lib world tools tenant_id thread_id l).1.messages
  unfolding one_round answer_tools
  round_answers l h c = elim (Result-cases (check_or_raise l.guard)) [
    | inr (x, e) ↦ rw (e, one_round) c
    | inl (tt, open_guard) ↦ elim (Result-cases (world.create l.messages)) [
      | inr (x, e) ↦ rw (open_guard, e, one_round) c
      | inl (resp, e) ↦ elim (Bool-cases resp.stops_for_tool) [
        | inr last ↦ rw (open_guard, e, last, one_round) c
        | inl more ↦
            rw (open_guard, e, more, one_round)
              (tools_answer resp.content (billed lib world tools tenant_id thread_id l resp)
                (rw (open_guard, e, more, one_round) at h) c)
      ]
    ]
  ]

  -- a round that does not ask for another leaves the conversation
  round_last :
      (l : Loop J)
      → (Round lib world tools tenant_id thread_id l).0 ≡ ok false
      → (Round lib world tools tenant_id thread_id l).1.messages ≡ l.messages
  unfolding one_round answer_tools
  round_last l h = ground arith

  -- When the loop returns, the conversation is the user's question and then pairs of an assistant
  -- turn and the results of exactly its calls, in order.
  pub run_loop-Conversation :
      (n : ℕ) (l : Loop J)
      → (Rounds lib world tools tenant_id thread_id n l).0 ≡ ok tt
      → Conversation l.messages
      → Conversation (Rounds lib world tools tenant_id thread_id n l).1.messages
  unfolding run_loop
  run_loop-Conversation zero l h c = c
  run_loop-Conversation (suc n) l h c =
      elim (Result-cases (Round lib world tools tenant_id thread_id l).0) [
        | inl (true, e) ↦
            rw (e, run_loop)
              (run_loop-Conversation n (Round lib world tools tenant_id thread_id l).1
                (rw (e, run_loop) at h) (round_answers l e c))
        | inl (false, e) ↦ rw (e, run_loop) (rw (round_last l e) c)
        | inr (x, e) ↦ cc (rw (e, run_loop) at h)
      ]
