-- ===== src/GroupStream/Turn.antt =====
-- `sendGroupMessageStream` of frontend/src/services/groupChat.ts: the callbacks of one turn of a
-- group.
use Prim.Native.String
use encore_hub.Chat.Frames.{ParsedSseEvent, drain_all, parse_event}
use encore_hub.GroupStream.Events.{
  GroupContent, GroupPayload, GroupResponse, MessagePayload, MessagesPayload, Outcome, StreamEnd,
  bodiless, broken, completed, message_list, no_messages, normal, not_list, null, participant_start,
  payload, refused, returned, streamed, textless, thrown, unparsed, unsent, with_id,
}
use encore_hub.Models.{Message}
use encore_hub.MultiChat.State.{ParticipantStart}
use encore_hub.Shared.{
  Bool, List, Option, String, [], false, if◌then◌else◌, is_empty, keep, map, mem, none, not,
  or_else, some, str_eq, true, ℕ, ◌&&◌, ◌++◌, ◌||◌, ◌∷◌,
}

-- `GroupStreamDonePayload`
pub record GroupTurnDone : Type 0 where
  pub user_message : Message
  pub assistant_messages : List Message
  pub input_tokens : ℕ
  pub output_tokens : ℕ

-- `GroupStreamErrorPayload`
pub record GroupTurnError : Type 0 where
  pub code : String
  pub message : String
  pub user_message : Option Message
  pub assistant_messages : Option (List Message)

-- The callbacks of `GroupStreamCallbacks`.
pub data GroupTurnEvent : Type 0 where
  turn_opened : Message → GroupTurnEvent
  member_started : ParticipantStart → GroupTurnEvent
  member_delta member_reasoning : String → String → GroupTurnEvent
  member_usage : String → ℕ → ℕ → GroupTurnEvent
  member_done : String → String → String → GroupTurnEvent
  member_skipped : String → GroupTurnEvent
  member_failed : String → String → GroupTurnEvent
  turn_done : GroupTurnDone → GroupTurnEvent
  turn_error : GroupTurnError → GroupTurnEvent

-- `if (provider && key) headers[...] = key`
unfoldable pub provider_headers : List (String × String) → List (String × String)
provider_headers keys =
    map (λ pair. (String.◌++◌ "X-" (String.◌++◌ pair.0 "-Key"), pair.1))
      (keep (λ pair. not (is_empty pair.0) && not (is_empty pair.1)) keys)

unfoldable pub turn_failure : String → String → GroupTurnEvent
turn_failure code message =
    turn_error
      (record { code = code; message = message; user_message = none; assistant_messages = none })

-- What follows a result; an error is passed on.
abbrev pub and_then {ℓ κ} : {A : Type ℓ} {B : Type κ} → Outcome A → (A → Outcome B) → Outcome B
and_then (returned a) f = f a
and_then (thrown cause) f = thrown cause

abbrev pub normalized : MessagePayload → Outcome Message
normalized (normal m) = returned m
normalized (textless id cause) = thrown cause

abbrev pub normalized_option : Option MessagePayload → Outcome (Option Message)
normalized_option none = returned none
normalized_option (some m) = and_then (normalized m) (λ x. returned (some x))

-- `normalizeMessages` of an array
unfoldable pub normalize_messages : List MessagePayload → Outcome (List Message)
normalize_messages [] = returned []
normalize_messages (m ∷ ms) =
    and_then (normalized m) (λ x. and_then (normalize_messages ms) (λ xs. returned (x ∷ xs)))

-- `Array.isArray(...)`
abbrev pub listed_messages : MessagesPayload → Outcome (Option (List Message))
listed_messages (message_list ms) = and_then (normalize_messages ms) (λ xs. returned (some xs))
listed_messages _ = returned none

-- `(payload ?? []).map(...)`
abbrev pub all_messages : MessagesPayload → Outcome (List Message)
all_messages no_messages = returned []
all_messages (message_list ms) = normalize_messages ms
all_messages (not_list cause) = thrown cause

unfoldable pub group_error_event : GroupPayload → Outcome GroupTurnEvent
unfolding normalize_messages
group_error_event p = and_then (normalized_option p.user_message) (λ user.
    and_then (listed_messages p.assistant_messages) (λ messages. returned (
      turn_error (record {
        code = or_else p.code "group_error";
        message = or_else p.text "Group chat failed";
        user_message = user;
        assistant_messages = messages;
      }))))

abbrev pub done_counts : Option (Option ℕ × Option ℕ) → ℕ × ℕ
done_counts none = (0, 0)
done_counts (some (input, output)) = (or_else input 0, or_else output 0)

abbrev pub done_of : GroupPayload → Option Message → Outcome GroupTurnEvent
done_of p none =
    returned (turn_failure "malformed_done" "Gateway done event omitted the user message")
done_of p (some user) = and_then (all_messages p.assistant_messages) (λ messages. returned (
    turn_done (record {
      user_message = user;
      assistant_messages = messages;
      input_tokens = (done_counts p.usage).0;
      output_tokens = (done_counts p.usage).1;
    })))

unfoldable pub group_done_event : GroupPayload → Outcome GroupTurnEvent
unfolding turn_failure normalize_messages
group_done_event p = and_then (with_id p.user_message) (done_of p)

abbrev pub opened_events : Option Message → List GroupTurnEvent
opened_events none = []
opened_events (some user) = turn_opened user ∷ []

abbrev pub turn_opening : Outcome (Option Message) → Outcome (List GroupTurnEvent)
turn_opening (thrown cause) = thrown cause
turn_opening (returned user) = returned (opened_events user)

-- The events that do not end the turn; an unknown one has no callback.
unfoldable pub member_events : String → GroupPayload → Outcome (List GroupTurnEvent)
unfolding participant_start
member_events name p =
    let id = or_else p.participant_id "" in
    if str_eq name "turn_started"
    then turn_opening (with_id p.user_message)
    else if str_eq name "participant_started"
    then returned (member_started (participant_start p) ∷ [])
    else if str_eq name "delta"
    then returned (member_delta id (or_else p.content "") ∷ [])
    else if str_eq name "reasoning"
    then returned (member_reasoning id (or_else p.content "") ∷ [])
    else if str_eq name "usage"
    then returned (member_usage id (or_else p.input_tokens 0) (or_else p.output_tokens 0) ∷ [])
    else if str_eq name "participant_done"
    then returned (member_done id (or_else p.content "") (or_else p.reasoning "") ∷ [])
    else if str_eq name "participant_skipped"
    then returned (member_skipped id ∷ [])
    else if str_eq name "participant_error"
    then returned (member_failed id (or_else p.text "Provider request failed") ∷ [])
    else returned []

-- The callbacks made, `terminalReceived`, and the error that the reading has stopped at.
pub record TurnReading : Type 0 where
  pub events : List GroupTurnEvent
  pub received : Bool
  pub halted : Option String

abbrev pub ongoing : Outcome (List GroupTurnEvent) → TurnReading
ongoing (returned es) = record { events = es; received = false; halted = none }
ongoing (thrown cause) = record { events = []; received = false; halted = some cause }

-- `terminalReceived` is set before the fields are read.
abbrev pub ending : Outcome GroupTurnEvent → TurnReading
ending (returned e) = record { events = e ∷ []; received = true; halted = none }
ending (thrown cause) = record { events = []; received = true; halted = some cause }

-- The switch of `handleEvent`.
unfoldable pub turn_events : String → GroupPayload → TurnReading
unfolding group_error_event group_done_event member_events
turn_events name p =
    if str_eq name "error"
    then ending (group_error_event p)
    else if str_eq name "done"
    then ending (group_done_event p)
    else ongoing (member_events name p)

abbrev pub member_event_names : List String
member_event_names =
    "turn_started" ∷ "participant_started" ∷ "delta" ∷ "reasoning" ∷ "usage" ∷ "participant_done"
    ∷ "participant_skipped" ∷ "participant_error" ∷ []

-- Every case of the switch reads a field of null, which throws; `default` reads none. All callbacks
-- are given.
unfoldable pub null_events : String → String → TurnReading
null_events name cause =
    if str_eq name "error" || str_eq name "done"
    then ending (thrown cause)
    else ongoing (if mem name member_event_names then thrown cause else returned [])

unfoldable pub content_turn : String → GroupContent → TurnReading
unfolding turn_events null_events
content_turn name unparsed = ongoing (returned [])
content_turn name (null cause) = null_events name cause
content_turn name (payload p) = turn_events name p

-- The catch: an abort is silent.
unfoldable pub caught : StreamEnd → List GroupTurnEvent
unfolding turn_failure
caught (broken message) = turn_failure "network_error" message ∷ []
caught _ = []

-- What follows the loop over the chunks; a throw goes to the catch, and the stream's own end is not
-- reached.
unfoldable pub turn_end : Option String → Bool → StreamEnd → List GroupTurnEvent
unfolding turn_failure caught
turn_end (some cause) received e = caught (broken cause)
turn_end none received completed =
    if received
    then []
    else turn_failure "stream_incomplete" "Stream ended without a terminal event" ∷ []
turn_end none received e = caught e

abbrev pub turn_begun : TurnReading
turn_begun = record { events = []; received = false; halted = none }

abbrev pub followed_by : TurnReading → TurnReading → TurnReading
followed_by r next = record next { events = r.events ++ next.events }

module _ (read : String → GroupContent) where
  -- `handleEvent` where nothing was thrown yet and no terminal event received.
  abbrev pub turn_next : Option String → Bool → TurnReading → Option ParsedSseEvent → TurnReading
  turn_next (some cause) received r ev = r
  turn_next none true r ev = r
  turn_next none false r none = r
  turn_next none false r (some ev) = followed_by r (content_turn ev.event (read ev.content))

  -- The inner loop, which a throw leaves.
  unfoldable pub turn_blocks : TurnReading → List String → TurnReading
  unfolding content_turn
  turn_blocks r [] = r
  turn_blocks r (block ∷ blocks) =
      turn_blocks (turn_next r.halted r.received r (parse_event block)) blocks

  -- The loop over the chunks, with the buffer.
  unfoldable pub turn_chunks : TurnReading → List String → String → TurnReading
  unfolding turn_blocks
  turn_chunks r [] buffer = r
  turn_chunks r (chunk ∷ chunks) buffer =
      let (blocks, left) = drain_all (String.◌++◌ buffer chunk) in
      turn_chunks (turn_blocks r blocks) chunks left

  -- `reason` gives `parsed.error ?? parsed.message` of the text of an answer that is not ok.
  unfoldable pub send_group_message_stream :
      (String → Option String) → GroupResponse → List GroupTurnEvent
  unfolding turn_chunks turn_end caught turn_failure
  send_group_message_stream reason (unsent e) = caught e
  send_group_message_stream reason (refused status body) =
      let message = String.◌++◌ "Request failed (" (String.◌++◌ status ")") in
      turn_failure "http_error" (or_else (reason body) message) ∷ []
  send_group_message_stream reason bodiless =
      turn_failure "empty_stream" "Gateway returned no response body" ∷ []
  send_group_message_stream reason (streamed chunks e) =
      let r = turn_chunks turn_begun chunks "" in r.events ++ turn_end r.halted r.received e
