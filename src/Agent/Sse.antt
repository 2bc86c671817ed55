-- ===== src/Agent/Sse.antt =====
-- sse.py: the bridge from the graph's events to the data-stream frames of the client. Parameters:
-- `json.loads` and `json.dumps`. `J` stands for JSON values. The graph is the sequence of events that
-- it yields and the way it ends; an event's `data` mapping is there, as the library documents.
pub mod Framing
pub mod Stream
mod Tests
use arush_adabala_tax_liabil.Prelude.{
  ℕ, zero, suc, ◌+◌, ◌-◌, ◌*◌, ◌/◌, ◌%◌, ◌≤◌, ◌<◌, min, String, ◌≡◌, refl, sym, ap, ◌∙◌, ◌≢◌, ◌↔◌,
  ◌⊎◌, inl, inr, Bool, true, false, not, ◌&&◌, ◌||◌, Option, none, some, List, [], ◌∷◌, ◌++◌, map,
  arith, ltb, leb, if◌then◌else◌, Bool-cases, Option-cases, leb→le, lt→ltb, Eq, ◌==◌, ==_refl,
  length, take, get_elem?, length-append, length-take, length-map, any, All, All-append, All-take,
  contains, Exc, Result, ok, raised, bind, bind-eq-ok, Result-cases, ok_injective, ok_or,
  budget_exceeded, value_error, key_error, type_error, runtime_error, timeout_error,
  validation_error, dependency_unavailable, string_eq, nat_eq, list_eq, graph_recursion,
  http_timeout, http_error, cancelled, other,
}
use arush_adabala_tax_liabil.Prelude.Text.{Text, codes}

abbrev pub answer_delta_event : String
answer_delta_event = "answer_delta"

abbrev pub synthesis_agent : String
synthesis_agent = "synthesis_agent"

-- A node's output: no mapping, or a mapping with its `answer` slot.
pub data Output : Type 0 where
  not_a_mapping : Output
  answer_slot : Option Text → Output

-- `custom_event` has its `delta`, `chat_model_stream` the content of its chunk.
pub data GraphEvent : Type 0 where
  custom_event : String → Option Text → GraphEvent
  chat_model_stream : Option Text → GraphEvent
  chain_end : String → Output → GraphEvent
  unread_event : GraphEvent

pub data ErrorCode : Type 0 where
  recursion_limit budget_limit internal : ErrorCode

-- A frame by its channel: `0:`, `2:` or `3:`.
pub data Frame (J : Type 0) : Type 0 where
  text_frame : Text → Frame J
  data_frame : J → Frame J
  error_frame : ErrorCode → Exc → Frame J

pub record Json (J : Type 0) : Type 0 where
  pub loads : Text → Option J
  pub is_mapping : J → Bool
  pub text_only : Text → J

module _ {J : Type 0} (json : Json J) where
  abbrev read_answer : Text → Option J → Option J
  read_answer raw none = some (json.text_only raw)
  read_answer raw (some parsed) = if json.is_mapping parsed then some parsed else none

  -- An answer that cannot be read degrades to its text.
  unfoldable pub final_answer_payload : Output → Option J
  final_answer_payload not_a_mapping = none
  final_answer_payload (answer_slot none) = none
  final_answer_payload (answer_slot (some [])) = none
  final_answer_payload (answer_slot (some (c ∷ raw))) = read_answer (c ∷ raw) (json.loads (c ∷ raw))

  -- an absent or empty delta yields nothing
  abbrev pub text_frames : Option Text → List (Frame J)
  text_frames none = []
  text_frames (some []) = []
  text_frames (some (c ∷ delta)) = text_frame (c ∷ delta) ∷ []

  abbrev pub data_frames : Option J → List (Frame J)
  data_frames none = []
  data_frames (some payload) = data_frame payload ∷ []

  unfoldable pub event_frames : GraphEvent → List (Frame J)
  event_frames (custom_event name delta) =
      if name == answer_delta_event then text_frames delta else []
  event_frames (chat_model_stream delta) = text_frames delta
  event_frames (chain_end name output) =
      if name == synthesis_agent then data_frames (final_answer_payload output) else []
  event_frames unread_event = []

  -- What the three handlers make of a raise; a cancellation passes through.
  unfoldable pub handle : Exc → List (Frame J) × Option Exc
  handle graph_recursion = (error_frame recursion_limit graph_recursion ∷ [], none)
  handle (budget_exceeded spent ceiling) =
      (error_frame budget_limit (budget_exceeded spent ceiling) ∷ [], none)
  handle cancelled = ([], some cancelled)
  handle e = (error_frame internal e ∷ [], none)

  -- The frames, and what escapes the generator.
  unfoldable pub event_stream : List GraphEvent → Option Exc → List (Frame J) × Option Exc
  event_stream [] none = ([], none)
  event_stream [] (some e) = handle e
  event_stream (event ∷ events) end =
      let (frames, escaped) = event_stream events end in (event_frames event ++ frames, escaped)

-- `frame`: the channel, a colon, the payload as `json.dumps` writes it, and a newline.
unfoldable pub encode : Text → Text → Text
encode channel dumped = channel ++ b':' ∷ (dumped ++ b'\n' ∷ [])
