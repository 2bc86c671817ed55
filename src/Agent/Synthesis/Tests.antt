-- ===== src/Agent/Synthesis/Tests.antt =====
-- A request whose first answer is rejected and whose second is taken, and a stream of three events.
use arush_adabala_tax_liabil.Prelude.{
  ℕ, ◌+◌, ◌≡◌, ◌≢◌, ◌⊎◌, inl, inr, none, some, List, [], ◌∷◌, ok, string_eq, nat_eq, list_eq,
}
use arush_adabala_tax_liabil.Prelude.Text.{Text, codes}
use arush_adabala_tax_liabil.Agent.Budget.{BudgetGuard}
use arush_adabala_tax_liabil.Agent.Synthesis.{
  max_attempts, StreamEvent, content_block_delta, other_event, PartialParser, Message, Turn, Model,
  tool_use, synthesis, tool_name, no_answer,
}
use arush_adabala_tax_liabil.Agent.Synthesis.Repair.{
  received_cost, Explains, Counted, synthesis-Explained,
}

abbrev parser : PartialParser Text
parser = record { from_json = λ t. some t; text_of = λ t. some t }

abbrev message : Text → Message Text
message input = record {
  content = tool_use (codes "call") tool_name input ∷ [];
  usage = some (record { input_tokens = some 1000; output_tokens = none });
}

abbrev validate : Text → ℕ ⊎ ℕ
validate [] = inr 0
validate (c ∷ t) = inl c

abbrev reply : List (Turn Text ℕ) → Text
reply (first ∷ []) = []
reply _ = codes "yes"

abbrev model : Model Text ℕ ℕ
model = record {
  stream =
      λ ms. (other_event ∷ content_block_delta (some (reply ms)) ∷ [], ok (message (reply ms)));
  parser = parser;
  empty = [];
  model_validate = validate;
}

abbrev guard : BudgetGuard
guard = record { ceiling = 1000; spent = 100 }

synthesis-Explained_example :
    ((synthesis model (codes "q") guard).1.guard.spent
      ≡ 100 + received_cost (synthesis model (codes "q") guard).1.received)
    × Explains model
        (synthesis model (codes "q") guard).1.received
        none
        (synthesis model (codes "q") guard).0
    × Counted model max_attempts
        (synthesis model (codes "q") guard).1.received
        (synthesis model (codes "q") guard).0
    × ((synthesis model (codes "q") guard).0 ≢ no_answer)
synthesis-Explained_example = synthesis-Explained model (codes "q") guard

abbrev events : List StreamEvent
events =
    content_block_delta (some (codes "Fi"))
    ∷ other_event
    ∷ content_block_delta (some (codes "le"))
    ∷ []
