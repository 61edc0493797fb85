-- ===== src/Chat/Dispatch.antt =====
-- `handleEvent` of chat.ts and the end of `sendMessageStream`. `read` is JSON.parse with the fields
-- that the handlers read of the result. `summarized` says whether the conversation has a
-- model-written summary when the turn is done.
use encore_hub.Shared.{
  String, Bool, true, false, ◌||◌, Option, none, some, List, [], ◌∷◌, ◌++◌, is_empty, str_eq, trim,
  if◌then◌else◌,
}
use encore_hub.ConversationStore.Turn.{StreamEvent}
use encore_hub.Chat.Frames.{ParsedSseEvent, parse_event}
use encore_hub.Chat.Payload.{
  Payload, turn_started_events, delta_events, reasoning_events, tool_call_events,
  tool_result_events, usage_events, warning_events, title_update_events, title_error_events,
  error_event, done_event, failure, starts_brace,
}

-- `if (buffer.trim()) handleEvent(buffer)`
abbrev pub flushed : String → List String
flushed left = if is_empty (trim left) then [] else left ∷ []

module _ (read : String → Option Payload) (summarized : Bool) where
  -- The callbacks of an event that does not end the turn; an unknown event has none.
  unfoldable pub open_events : ParsedSseEvent → List StreamEvent
  unfolding turn_started_events delta_events reasoning_events tool_call_events tool_result_events
      usage_events warning_events title_update_events title_error_events
  open_events ev =
      let payload = read ev.content in
      if str_eq ev.event "turn_started"
      then turn_started_events payload
      else if str_eq ev.event "delta"
      then delta_events ev.content (if starts_brace ev.content then payload else none)
      else if str_eq ev.event "reasoning"
      then reasoning_events payload
      else if str_eq ev.event "tool_call"
      then tool_call_events payload
      else if str_eq ev.event "tool_result"
      then tool_result_events payload
      else if str_eq ev.event "usage"
      then usage_events payload
      else if str_eq ev.event "warning"
      then warning_events ev.content payload
      else if str_eq ev.event "title_update"
      then title_update_events payload
      else if str_eq ev.event "title_error"
      then title_error_events payload
      else []

  -- The callbacks of an event, and whether it is terminal.
  unfoldable pub event_callbacks : ParsedSseEvent → List StreamEvent × Bool
  unfolding error_event done_event open_events
  event_callbacks ev =
      if str_eq ev.event "error"
      then (error_event (read ev.content) ∷ [], true)
      else if str_eq ev.event "done"
      then (done_event summarized (read ev.content) ∷ [], true)
      else (open_events ev, false)

  abbrev pub handle_parsed : Option ParsedSseEvent → Bool → List StreamEvent × Bool
  handle_parsed none received = ([], received)
  handle_parsed (some ev) received = if received then ([], true) else event_callbacks ev

  -- `handleEvent`; the Boolean is `terminalReceived`.
  unfoldable pub handle_event : String → Bool → List StreamEvent × Bool
  unfolding event_callbacks
  handle_event block received = handle_parsed (parse_event block) received

  unfoldable pub handle_blocks : List String → Bool → List StreamEvent × Bool
  unfolding handle_event
  handle_blocks [] received = ([], received)
  handle_blocks (block ∷ blocks) received =
      let (es, seen) = handle_event block received in
      let (rest, last) = handle_blocks blocks seen in (es ++ rest, last)

  -- The end of the stream, with `signal.aborted`.
  unfoldable pub finished_callbacks : List String → String → Bool → List StreamEvent
  unfolding handle_blocks failure
  finished_callbacks blocks left aborted =
      let (es, received) = handle_blocks (blocks ++ flushed left) false in
      es
      ++ (if received || aborted
          then []
          else failure "stream_incomplete" "Stream ended before the turn was finalized" ∷ [])

  -- The reader throws: an abort is silent, any other error is reported.
  unfoldable pub broken_callbacks : List String → Option String → List StreamEvent
  unfolding handle_blocks failure
  broken_callbacks blocks none = (handle_blocks blocks false).0
  broken_callbacks blocks (some message) =
      (handle_blocks blocks false).0 ++ failure "transport_error" message ∷ []
