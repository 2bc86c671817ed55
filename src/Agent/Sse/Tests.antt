-- ===== src/Agent/Sse/Tests.antt =====
-- A stream of events that ends in an exhausted budget, and two encoded frames.
use arush_adabala_tax_liabil.Prelude.{
  ℕ, ◌≡◌, refl, true, none, some, List, [], ◌∷◌, ◌++◌, All, budget_exceeded, string_eq, nat_eq,
  list_eq,
}
use arush_adabala_tax_liabil.Prelude.Text.{Text, codes}
use arush_adabala_tax_liabil.Agent.Synthesis.{
  StreamEvent, content_block_delta, other_event, stream_deltas,
}
use arush_adabala_tax_liabil.Agent.Sse.{
  answer_delta_event, GraphEvent, custom_event, unread_event, Frame, Json, event_stream,
}
use arush_adabala_tax_liabil.Agent.Sse.Stream.{
  shown, IsPayload, Ends, event_stream-Ends, dispatch, stream-shows,
}

abbrev frames : List (Text × Text)
frames = (codes "0", codes "{}") ∷ (codes "3", codes "[]") ∷ []

abbrev json : Json ℕ
json = record { loads = λ t. none; is_mapping = λ n. true; text_only = λ t. 0 }

abbrev events : List GraphEvent
events = unread_event ∷ custom_event answer_delta_event (some (codes "Hi")) ∷ []

event_stream-Ends_example :
    (body : List (Frame ℕ)) × (tail : List (Frame ℕ)) × ((event_stream json events
        (some (budget_exceeded 9 8))).0
      ≡ body ++ tail)
    × All (λ f. IsPayload f) body
    × Ends
        (some (budget_exceeded 9 8))
        tail
        (event_stream json events (some (budget_exceeded 9 8))).1
event_stream-Ends_example = event_stream-Ends json events (some (budget_exceeded 9 8))

abbrev streamed : List StreamEvent
streamed =
    content_block_delta (some (codes "Fi"))
    ∷ other_event
    ∷ content_block_delta (some (codes "le"))
    ∷ []

stream-shows_example :
    shown (event_stream json (dispatch json (stream_deltas (λ b. b) [] 0 streamed)) none).0
    ≡ codes "File"
stream-shows_example =
    stream-shows json (λ b. b) (codes "File") streamed none refl (refl, (refl, (refl, refl)))
