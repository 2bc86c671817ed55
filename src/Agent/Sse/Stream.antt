-- ===== src/Agent/Sse/Stream.antt =====
-- What a client sees of a request: its text, and how the stream ends.
use arush_adabala_tax_liabil.Prelude.{
  ℕ, ◌≡◌, refl, sym, ap, ◌∙◌, ◌≢◌, ◌⊎◌, inl, inr, Bool, true, false, Option, none, some, List, [],
  ◌∷◌, ◌++◌, map, if◌then◌else◌, All, All-append, Exc, budget_exceeded, string_eq, nat_eq, list_eq,
  graph_recursion, cancelled,
}
use mathlib.Core.List.{append_assoc}
use arush_adabala_tax_liabil.Prelude.Text.{Text}
use arush_adabala_tax_liabil.Agent.Synthesis.{StreamEvent, stream_deltas}
use arush_adabala_tax_liabil.Agent.Synthesis.Deltas.{concat, Grows, deltas_reveal}
use arush_adabala_tax_liabil.Agent.Sse.{
  answer_delta_event, GraphEvent, custom_event, chat_model_stream, chain_end, unread_event,
  ErrorCode, recursion_limit, budget_limit, internal, Frame, text_frame, data_frame, error_frame,
  Json, text_frames, data_frames, final_answer_payload, event_frames, handle, event_stream,
}

-- the text that a client has after the frames: it appends each text frame to what it shows
pub shown : {J : Type 0} → List (Frame J) → Text
shown [] = []
shown (text_frame t ∷ fs) = t ++ shown fs
shown (data_frame p ∷ fs) = shown fs
shown (error_frame c e ∷ fs) = shown fs

abbrev pub IsPayload : {J : Type 0} → Frame J → Type 0
IsPayload (text_frame t) = t ≢ []
IsPayload (data_frame p) = Unit
IsPayload (error_frame c e) = ⊥

-- The one code that each kind of raise is told by.
abbrev pub Coded : ErrorCode → Exc → Type 0
Coded recursion_limit e = e ≡ graph_recursion
Coded budget_limit e = (spent : ℕ) × (ceiling : ℕ) × (e ≡ budget_exceeded spent ceiling)
Coded internal e =
    (e ≢ graph_recursion)
    × (e ≢ cancelled)
    × ((spent ceiling : ℕ) → e ≢ budget_exceeded spent ceiling)

abbrev pub Ends : {J : Type 0} → Option Exc → List (Frame J) → Option Exc → Type 0
Ends none tail escaped = (tail ≡ []) × (escaped ≡ none)
Ends (some e) tail escaped =
    ((e ≡ cancelled) × (tail ≡ []) × (escaped ≡ some cancelled))
    ⊎ ((code : ErrorCode) × Coded code e × (tail ≡ error_frame code e ∷ []) × (escaped ≡ none))

module _ {J : Type 0} (json : Json J) where
  handle-Ends : (e : Exc) → Ends (some e) (handle json e).0 (handle json e).1
  unfolding handle
  handle-Ends graph_recursion = inr (recursion_limit, refl, refl, refl)
  handle-Ends (budget_exceeded s c) = inr (budget_limit, (s, c, refl), refl, refl)
  handle-Ends cancelled = inl (refl, refl, refl)
  handle-Ends e = inr (internal, ((λ h. cc), (λ h. cc), λ s c h. cc), refl, refl)

  text_frames-IsPayload : (d : Option Text) → All IsPayload (text_frames json d)
  text_frames-IsPayload none = tt
  text_frames-IsPayload (some []) = tt
  text_frames-IsPayload (some (c ∷ t)) = ((λ h. cc), tt)

  data_frames-IsPayload : (d : Option J) → All IsPayload (data_frames json d)
  data_frames-IsPayload none = tt
  data_frames-IsPayload (some p) = (tt, tt)

  if-IsPayload :
      (b : Bool) (fs : List (Frame J)) → All IsPayload fs → All IsPayload (if b then fs else [])
  if-IsPayload true fs h = h
  if-IsPayload false fs h = tt

  event_frames-IsPayload : (event : GraphEvent) → All IsPayload (event_frames json event)
  unfolding event_frames
  event_frames-IsPayload (custom_event name d) = if-IsPayload _ _ (text_frames-IsPayload d)
  event_frames-IsPayload (chat_model_stream d) = text_frames-IsPayload d
  event_frames-IsPayload (chain_end name o) =
      if-IsPayload _ _ (data_frames-IsPayload (final_answer_payload json o))
  event_frames-IsPayload unread_event = tt

  -- Every stream is its payload frames and then, after a raise that is not a cancellation, one
  -- error frame with the code of that raise; only a cancellation leaves the generator.
  pub event_stream-Ends :
      (events : List GraphEvent) (end : Option Exc)
      → (body : List (Frame J)) × (tail : List (Frame J)) × ((event_stream json events end).0
          ≡ body ++ tail)
        × All IsPayload body
        × Ends end tail (event_stream json events end).1
  unfolding event_stream
  event_stream-Ends [] none = ([], [], refl, tt, (refl, refl))
  event_stream-Ends [] (some e) = ([], (handle json e).0, refl, tt, handle-Ends e)
  event_stream-Ends (event ∷ events) end =
      let (body, tail, split, payloads, ends) = event_stream-Ends events end in
      (
        event_frames json event ++ body,
        tail,
        ap (λ t. event_frames json event ++ t) split
            ∙ sym (append_assoc (event_frames json event) body tail),
        All-append (λ f. IsPayload f) (event_frames json event) body (event_frames-IsPayload event)
            payloads,
        ends,
      )

  abbrev pub dispatch : List Text → List GraphEvent
  dispatch ts = map (λ t. custom_event answer_delta_event (some t)) ts

  shown-text_frames :
      (t : Text) (fs : List (Frame J)) → shown (text_frames json (some t) ++ fs) ≡ t ++ shown fs
  unfolding shown
  shown-text_frames [] fs = refl
  shown-text_frames (c ∷ t) fs = refl

  shown-handle : (e : Exc) → shown (handle json e).0 ≡ []
  unfolding shown handle
  shown-handle graph_recursion = refl
  shown-handle (budget_exceeded s c) = refl
  shown-handle cancelled = refl
  shown-handle e = refl

  shown-dispatch :
      (ts : List Text) (end : Option Exc)
      → shown (event_stream json (dispatch ts) end).0 ≡ concat ts
  unfolding event_stream event_frames shown concat
  shown-dispatch [] none = refl
  shown-dispatch [] (some e) = shown-handle e
  shown-dispatch (t ∷ ts) end = shown-text_frames t _ ∙ ap (λ r. t ++ r) (shown-dispatch ts end)

  -- The deltas of a synthesis stream, dispatched as they come, show the client the whole text, whether
  -- the request then ends or raises, where each partial text is a prefix of the whole one.
  pub stream-shows :
      (growing : Text → Text) (full : Text) (events : List StreamEvent) (end : Option Exc)
      → growing [] ≡ []
      → Grows growing full [] events
      → shown (event_stream json (dispatch (stream_deltas growing [] 0 events)) end).0 ≡ full
  stream-shows growing full events end empty grows =
      shown-dispatch (stream_deltas growing [] 0 events) end
      ∙ deltas_reveal growing full events empty grows
