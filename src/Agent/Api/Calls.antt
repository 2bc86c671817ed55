-- ===== src/Agent/Api/Calls.antt =====
-- nodes/api.py: the calls that reach the server, against the calls of the conversation.
use arush_adabala_tax_liabil.Prelude.{
  ℕ, zero, suc, ◌≡◌, refl, sym, ap, ◌∙◌, ◌⊎◌, inl, inr, Bool, true, false, Option, List, [], ◌∷◌,
  ◌++◌, map, Bool-cases, Exc, Result, ok, raised, Result-cases, string_eq, nat_eq, list_eq,
}
use mathlib.Core.List.{append-nil, append_assoc, map-append}
use arush_adabala_tax_liabil.Prelude.Text.{Text}
use arush_adabala_tax_liabil.Agent.Budget.{check_or_raise}
use arush_adabala_tax_liabil.Agent.Api.{
  ToolParam, Args, Library, Block, text_block, tool_use, Turn, user, assistant, results, Call,
  World, Loop, make_call, run_blocks, answer_tools, billed, one_round, run_loop,
}
use arush_adabala_tax_liabil.Agent.Api.Turns.{Rounds, Round}

-- The calls of a completion, with their inputs, and those of a conversation.
pub uses : {J : Type 0} → List (Block J) → List (Text × Option (Args J))
uses [] = []
uses (text_block ∷ bs) = uses bs
uses (tool_use id name input ∷ bs) = (name, input) ∷ uses bs

abbrev pub uses_of : {J : Type 0} → List (Turn J) → List (Text × Option (Args J))
uses_of [] = []
uses_of (assistant bs ∷ ms) = uses bs ++ uses_of ms
uses_of (user q ∷ ms) = uses_of ms
uses_of (results rs ∷ ms) = uses_of ms

uses_of-append :
    {J : Type 0} (ms ns : List (Turn J)) → uses_of (ms ++ ns) ≡ uses_of ms ++ uses_of ns
uses_of-append [] ns = refl
uses_of-append (assistant bs ∷ ms) ns =
    rw (uses_of-append ms ns) (sym (append_assoc (uses bs) (uses_of ms) (uses_of ns)))
uses_of-append (user q ∷ ms) ns = uses_of-append ms ns
uses_of-append (results rs ∷ ms) ns = uses_of-append ms ns

module _ {J : Type 0} (lib : Library J) (world : World J) (tools : List ToolParam)
    (tenant_id thread_id : Text) where
  abbrev Use : Type 0
  Use = Text × Option (Args J)

  abbrev pub made : Use → Call J
  made u = make_call lib world tools tenant_id thread_id u.0 u.1

  abbrev Blocks : List (Block J) → List (Text × J) → Loop J → Result (List (Text × J)) × Loop J
  Blocks = run_blocks lib world tools tenant_id thread_id

  -- The calls made for the blocks are those of the first uses, and of all of them unless it raises.
  abbrev Ran : List (Block J) → Loop J → Result (List (Text × J)) × Loop J → Type 0
  Ran bs l p =
      (first : List Use) × (rest : List Use) × (uses bs ≡ first ++ rest)
      × (p.1.calls ≡ l.calls ++ map made first)
      × (p.1.messages ≡ l.messages)
      × ((rest ≡ []) ⊎ ((e : Exc) × (p.0 ≡ raised e)))

  blocks-Ran :
      (bs : List (Block J)) (done : List (Text × J)) (l : Loop J) → Ran bs l (Blocks bs done l)
  unfolding run_blocks uses
  blocks-Ran [] done l = ([], [], refl, sym (append-nil l.calls), refl, inl refl)
  blocks-Ran (text_block ∷ bs) done l = blocks-Ran bs done l
  blocks-Ran (tool_use id name input ∷ bs) done l =
      let calls : List (Call J) = l.calls ++ made (name, input) ∷ [] in
      elim (Result-cases (world.call_tool calls)) [
        | inl (content, e) ↦
            let (first, rest, listed, called, ms, ended) =
              blocks-Ran bs (done ++ (id, content) ∷ []) _ in
            rw (e, run_blocks)
              (
                (name, input) ∷ first,
                rest,
                ap (λ us. (name, input) ∷ us) listed,
                called ∙ append_assoc l.calls (made (name, input) ∷ []) (map made first),
                ms,
                ended,
              )
        | inr (x, e) ↦
            rw (e, run_blocks) ((name, input) ∷ [], uses bs, refl, refl, refl, inr (x, refl))
      ]

  abbrev Exact : Loop J → Type 0
  Exact l = l.calls ≡ map made (uses_of l.messages)

  -- The calls are those of the first uses of the conversation, and of all of them unless it raised.
  abbrev pub Leading : {A : Type 0} → Result A × Loop J → Type 0
  Leading p =
      (first : List Use) × (rest : List Use) × (uses_of p.1.messages ≡ first ++ rest)
      × (p.1.calls ≡ map made first)
      × ((rest ≡ []) ⊎ ((e : Exc) × (p.0 ≡ raised e)))

  abbrev Kept : Result Bool × Loop J → Type 0
  Kept p = Exact p.1 ⊎ ((e : Exc) × (p.0 ≡ raised e) × Leading p)

  Exact-Leading : {A : Type 0} (r : Result A) (l : Loop J) → Exact l → Leading (r, l)
  Exact-Leading r l h = (uses_of l.messages, [], sym (append-nil _), h, inl refl)

  tools-Kept :
      (bs : List (Block J)) (l : Loop J)
      → Exact l
      → Kept (answer_tools lib world tools tenant_id thread_id bs l)
  unfolding answer_tools
  tools-Kept bs l h =
      let asked : Loop J = record l { messages = l.messages ++ assistant bs ∷ [] } in
      let (first, rest, listed, called, ms, ended) = blocks-Ran bs [] asked in
      let turned : uses_of (l.messages ++ assistant bs ∷ []) ≡ uses_of l.messages ++ uses bs =
        uses_of-append l.messages (assistant bs ∷ [])
        ∙ ap (λ us. uses_of l.messages ++ us) (append-nil (uses bs)) in
      let all_called : (Blocks bs [] asked).1.calls ≡ map made (uses_of l.messages ++ first) =
        called
        ∙ ap (λ cs. cs ++ map made first) h
        ∙ sym (map-append made (uses_of l.messages) first) in
      elim (Result-cases (Blocks bs [] asked).0) [
        | inl (rs, e) ↦
            let turns : List (Turn J) = (Blocks bs [] asked).1.messages in
            let none_left : rest ≡ [] = elim ended [ inl z ↦ z | inr (x, k) ↦ cc ] in
            let all_used : uses_of (turns ++ results rs ∷ []) ≡ uses_of l.messages ++ first =
              uses_of-append turns (results rs ∷ [])
              ∙ append-nil (uses_of turns)
              ∙ ap uses_of ms
              ∙ turned
              ∙ ap (λ us. uses_of l.messages ++ us)
                  (listed ∙ ap (λ us. first ++ us) none_left ∙ append-nil first) in
            rw (e, answer_tools) (inl (all_called ∙ ap (map made) (sym all_used)))
        | inr (x, e) ↦
            rw (e, answer_tools)
              (inr (
                x,
                refl,
                (
                  uses_of l.messages ++ first,
                  rest,
                  rw ms (
                      turned
                      ∙ ap (λ us. uses_of l.messages ++ us) listed
                      ∙ sym (append_assoc (uses_of l.messages) first rest)),
                  all_called,
                  inr (x, refl),
                ),
              ))
      ]

  round-Kept : (l : Loop J) → Exact l → Kept (Round lib world tools tenant_id thread_id l)
  unfolding one_round
  round-Kept l h = elim (Result-cases (check_or_raise l.guard)) [
    | inr (x, e) ↦ rw (e, one_round) (inl h)
    | inl (tt, open_guard) ↦ elim (Result-cases (world.create l.messages)) [
      | inr (x, e) ↦ rw (open_guard, e, one_round) (inl h)
      | inl (resp, e) ↦ elim (Bool-cases resp.stops_for_tool) [
        | inl more ↦
            rw (open_guard, e, more, one_round)
              (tools-Kept resp.content (billed lib world tools tenant_id thread_id l resp) h)
        | inr last ↦ rw (open_guard, e, last, one_round) (inl h)
      ]
    ]
  ]

  raised-Leading :
      (x : Exc) (p : Result Bool × Loop J)
      → p.0 ≡ raised x
      → Leading p
      → Leading {A = Unit {0}} (raised x, p.1)
  raised-Leading x p e (first, rest, listed, called, ended) =
      (first, rest, listed, called, inr (x, refl))

  pub run_loop-Leading :
      (n : ℕ) (l : Loop J) → Exact l → Leading (Rounds lib world tools tenant_id thread_id n l)
  unfolding run_loop
  run_loop-Leading zero l h = Exact-Leading (ok tt) l h
  run_loop-Leading (suc n) l h =
      let after : Loop J = (Round lib world tools tenant_id thread_id l).1 in
      elim (round-Kept l h) [
        | inl exact ↦ elim (Result-cases (Round lib world tools tenant_id thread_id l).0) [
          | inl (true, e) ↦ rw (e, run_loop) (run_loop-Leading n after exact)
          | inl (false, e) ↦ rw (e, run_loop) (Exact-Leading (ok tt) after exact)
          | inr (x, e) ↦ rw (e, run_loop) (Exact-Leading (raised x) after exact)
        ]
        | inr (x, e, part) ↦
            rw (e, run_loop) (raised-Leading x (Round lib world tools tenant_id thread_id l) e part)
      ]
