-- ===== src/GroupStream/Events.antt =====
-- `subscribeGroupEvents` of frontend/src/services/groupChat.ts with the callbacks that
-- multiChatStore.ts gives it, which have no onUsage and take only the participant of
-- onParticipantDone. `read` is JSON.parse with the fields that the handlers read of the value; a
-- field is none where it is null or missing; the field `message` is a message in one event and a
-- text in the others, `text` here; a field that String or Number is applied to is what they return,
-- and `state` one of the three states. Only JSON.parse stands under a `try` of its own: a handler
-- that throws behind it ends the reading of the stream, with the text of its error.
use Prim.Native.String
use encore_hub.Chat.Frames.{ParsedSseEvent, drain_all, parse_event}
use encore_hub.Models.{Message}
use encore_hub.MultiChat.State.{MultiChatState, ParticipantStart, RunnerState, idle}
use encore_hub.MultiChat.Stream.{
  delta, GroupEvent, message_appended, on_group_event, participant_done, participant_error,
  participant_skipped, participant_started, queue_updated, runner_changed, stream_error,
}
use encore_hub.Shared.{
  List, Option, String, [], if◌then◌else◌, is_empty, mem, none, or_else, some, str_eq, ℕ, ◌∷◌,
}

-- A message as normalizeMessage takes it: it has a text and is normalized, or normalizeMessage
-- throws. The latter has an id, empty where it is missing, and the text of the error.
pub data MessagePayload : Type 0 where
  normal : Message → MessagePayload
  textless : String → String → MessagePayload

-- The field `assistant_messages`: null or missing, an array, or another value, whose `map` throws.
pub data MessagesPayload : Type 0 where
  no_messages : MessagesPayload
  message_list : List MessagePayload → MessagesPayload
  not_list : String → MessagesPayload

pub record GroupPayload : Type 0 where
  pub state : Option RunnerState
  pub pending : Option ℕ
  pub message : Option MessagePayload
  pub participant_id : Option String
  pub name : Option String
  pub avatar : Option String
  pub provider : Option String
  pub model : Option String
  pub position : Option ℕ
  pub content : Option String
  pub reasoning : Option String
  pub text : Option String
  pub code : Option String
  pub input_tokens : Option ℕ
  pub output_tokens : Option ℕ
  pub usage : Option (Option ℕ × Option ℕ)
  pub user_message : Option MessagePayload
  pub assistant_messages : MessagesPayload

-- What JSON.parse makes of a content: it throws, or the value is null, with the error of reading a
-- field of it, or any other value.
pub data GroupContent : Type 0 where
  unparsed : GroupContent
  null : String → GroupContent
  payload : GroupPayload → GroupContent

-- What a stretch of code leaves: its result, or the text of the error that it throws.
pub data Outcome {ℓ} (A : Type ℓ) : Type ℓ where
  returned : A → Outcome A
  thrown : String → Outcome A

-- `message?.id`, and normalizeMessage where it is not empty.
abbrev pub with_id : Option MessagePayload → Outcome (Option Message)
with_id none = returned none
with_id (some (normal m)) = returned (if is_empty m.id then none else some m)
with_id (some (textless id cause)) = if is_empty id then returned none else thrown cause

unfoldable pub participant_start : GroupPayload → ParticipantStart
participant_start p = record {
  participant_id = or_else p.participant_id "";
  name = or_else p.name "";
  avatar = or_else p.avatar "";
  provider = or_else p.provider "";
  model = or_else p.model "";
  position = or_else p.position 0;
}

abbrev pub appended_events : Outcome (Option Message) → Outcome (List GroupEvent)
appended_events (thrown cause) = thrown cause
appended_events (returned none) = returned []
appended_events (returned (some m)) = returned (message_appended m ∷ [])

abbrev pub known_group_events : List String
known_group_events =
    "runner_state" ∷ "queue_updated" ∷ "message_appended" ∷ "participant_started" ∷ "delta"
    ∷ "reasoning" ∷ "participant_done" ∷ "participant_skipped" ∷ "participant_error" ∷ "error" ∷ []

-- The switch of `handleEvent`.
unfoldable pub payload_events : String → GroupPayload → Outcome (List GroupEvent)
unfolding participant_start
payload_events name p =
    let id = or_else p.participant_id "" in
    if str_eq name "runner_state"
    then returned (runner_changed (or_else p.state idle) (or_else p.pending 0) ∷ [])
    else if str_eq name "queue_updated"
    then returned (queue_updated (or_else p.pending 0) ∷ [])
    else if str_eq name "message_appended"
    then appended_events (with_id p.message)
    else if str_eq name "participant_started"
    then returned (participant_started (participant_start p) ∷ [])
    else if str_eq name "delta"
    then returned (delta id (or_else p.content "") ∷ [])
    else if str_eq name "reasoning"
    then returned (GroupEvent.reasoning id (or_else p.content "") ∷ [])
    else if str_eq name "participant_done"
    then returned (participant_done id ∷ [])
    else if str_eq name "participant_skipped"
    then returned (participant_skipped id ∷ [])
    else if str_eq name "participant_error"
    then returned (participant_error id (or_else p.text "Provider request failed") ∷ [])
    else if str_eq name "error"
    then returned (stream_error (or_else p.text "Group runner failed") ∷ [])
    else returned []

-- A case of the switch reads a field of null, which throws; `default` reads none, and neither does
-- "usage", since `callbacks.onUsage` is undefined and its arguments are not evaluated.
unfoldable pub content_events : String → GroupContent → Outcome (List GroupEvent)
unfolding payload_events
content_events name unparsed = returned []
content_events name (null cause) = if mem name known_group_events then thrown cause else returned []
content_events name (payload p) = payload_events name p

-- How a stream ends: the reader is done, it throws with a message, or the fetch is aborted.
pub data StreamEnd : Type 0 where
  completed abort_error : StreamEnd
  broken : String → StreamEnd

-- What the Gateway answers: a status that is not ok with the text of the body, no body, or a body
-- that is read in chunks.
pub data GroupResponse : Type 0 where
  unsent : StreamEnd → GroupResponse
  refused : String → String → GroupResponse
  bodiless : GroupResponse
  streamed : List String → StreamEnd → GroupResponse

unfoldable pub apply_events : MultiChatState → List GroupEvent → MultiChatState
unfolding on_group_event
apply_events s [] = s
apply_events s (e ∷ es) = apply_events (on_group_event s e) es

-- The catch: an abort is silent.
unfoldable pub end_stream : MultiChatState → StreamEnd → MultiChatState
unfolding on_group_event
end_stream s (broken message) = on_group_event s (stream_error message)
end_stream s _ = s

-- The store, and the error that the reading has stopped at.
pub record Reading : Type 0 where
  pub room : MultiChatState
  pub halted : Option String

abbrev pub reading : MultiChatState → Reading
reading s = record { room = s; halted = none }

abbrev pub apply_outcome : MultiChatState → Outcome (List GroupEvent) → Reading
apply_outcome s (returned es) = reading (apply_events s es)
apply_outcome s (thrown cause) = record { room = s; halted = some cause }

-- A throw goes to the catch of subscribeGroupEvents, and the stream's own end is not reached.
abbrev pub finished_reading : Reading → StreamEnd → MultiChatState
finished_reading r e = elim r.halted [
  | none ↦ end_stream r.room e
  | some cause ↦ end_stream r.room (broken cause)
]

module _ (read : String → GroupContent) where
  abbrev pub parsed_events : Option ParsedSseEvent → Outcome (List GroupEvent)
  parsed_events none = returned []
  parsed_events (some ev) = content_events ev.event (read ev.content)

  -- `handleEvent` on the store.
  unfoldable pub apply_block : MultiChatState → String → Reading
  unfolding content_events apply_events
  apply_block s block = apply_outcome s (parsed_events (parse_event block))

  abbrev pub apply_next : Option String → Reading → String → Reading
  apply_next none r block = apply_block r.room block
  apply_next (some cause) r block = r

  -- The inner loop, which a throw leaves.
  unfoldable pub apply_blocks : Reading → List String → Reading
  unfolding apply_block
  apply_blocks r [] = r
  apply_blocks r (block ∷ blocks) = apply_blocks (apply_next r.halted r block) blocks

  -- The loop over the chunks, with the buffer: the blocks that a chunk completes are handled before
  -- the next chunk is read, and after a throw no chunk is.
  unfoldable pub receive_chunks : Reading → String → List String → Reading
  unfolding apply_blocks
  receive_chunks r buffer [] = r
  receive_chunks r buffer (chunk ∷ chunks) =
      let (blocks, left) = drain_all (String.◌++◌ buffer chunk) in
      receive_chunks (apply_blocks r blocks) left chunks

  -- What stands in the buffer when the reader is done is dropped.
  unfoldable pub subscribe_group_events : MultiChatState → GroupResponse → MultiChatState
  unfolding receive_chunks end_stream
  subscribe_group_events s (unsent e) = end_stream s e
  subscribe_group_events s (refused status body) =
      on_group_event s (stream_error (String.◌++◌ "Event stream failed (" (String.◌++◌ status ")")))
  subscribe_group_events s bodiless =
      on_group_event s (stream_error "Gateway returned no event stream")
  subscribe_group_events s (streamed chunks e) =
      finished_reading (receive_chunks (reading s) "" chunks) e
