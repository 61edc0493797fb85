-- ===== src/Chat/Payload.antt =====
-- The callbacks that `handleEvent` of chat.ts makes for the content of an event. A field of the
-- parsed content is none where it is null or missing.
use encore_hub.Shared.{
  ℕ, String, Bool, false, Option, none, some, List, [], ◌∷◌, ◌++◌, is_empty, or_else, str_eq,
  if◌then◌else◌,
}
use encore_hub.Models.{Message, CallStatus, success}
use encore_hub.ConversationStore.Turn.{
  StreamEvent, turn_started, delta, reasoning, tool_call, tool_result, telemetry, warning,
  title_update, title_error, done, error,
}

pub record Payload : Type 0 where
  pub user_message : Option Message
  pub assistant_message : Option Message
  pub content : Option String
  pub text : Option String
  pub duration_ms : Option ℕ
  pub index : Option ℕ
  pub id : Option String
  pub name : Option String
  pub arguments : Option String
  pub result : Option String
  pub status : Option CallStatus
  pub input_tokens : Option ℕ
  pub output_tokens : Option ℕ
  pub usage : Option (ℕ × ℕ)
  pub message : Option String
  pub code : Option String
  pub conversation_id : Option String
  pub title : Option String

-- A message with an id: `parsed.user_message?.id`
abbrev pub persisted : Option Message → Option Message
persisted none = none
persisted (some m) = if is_empty m.id then none else some m

unfoldable pub failure : String → String → StreamEvent
failure code message =
    error (record { code = code; message = message; user_message = none; assistant_message = none })

unfoldable pub timing : Option ℕ → List StreamEvent
timing none = []
timing (some d) = telemetry d ∷ []

abbrev pub started : Option Message → List StreamEvent
started none = []
started (some m) = turn_started m ∷ []

unfoldable pub turn_started_events : Option Payload → List StreamEvent
turn_started_events none = []
turn_started_events (some p) = started (persisted p.user_message)

unfoldable pub delta_text : String → List StreamEvent
delta_text text = if is_empty text then [] else delta text ∷ []

-- The text that `{` does not begin, or that does not parse, is taken as it is.
unfoldable pub delta_events : String → Option Payload → List StreamEvent
unfolding delta_text timing
delta_events content none = delta_text content
delta_events content (some p) =
    timing p.duration_ms ++ delta_text (or_else p.content (or_else p.text ""))

abbrev pub starts_brace : String → Bool
starts_brace String.[] = false
starts_brace (String.◌∷◌ c s) = str_eq (String.◌∷◌ c "") "{"

unfoldable pub reasoning_events : Option Payload → List StreamEvent
unfolding timing
reasoning_events none = []
reasoning_events (some p) =
    let text = or_else p.content "" in
    (if is_empty text then [] else reasoning text ∷ []) ++ timing p.duration_ms

unfoldable pub tool_call_events : Option Payload → List StreamEvent
tool_call_events none = []
tool_call_events (some p) =
    tool_call
      (record { index = or_else p.index 0; id = p.id; name = p.name; arguments = p.arguments })
    ∷ []

unfoldable pub tool_result_events : Option Payload → List StreamEvent
tool_result_events none = []
tool_result_events (some p) =
    tool_result (or_else p.id "") (or_else p.result "") (or_else p.status success) ∷ []

unfoldable pub usage_events : Option Payload → List StreamEvent
unfolding timing
usage_events none = []
usage_events (some p) =
    StreamEvent.usage (or_else p.input_tokens 0) (or_else p.output_tokens 0) ∷ timing p.duration_ms

unfoldable pub warning_events : String → Option Payload → List StreamEvent
warning_events content none = warning content ∷ []
warning_events content (some p) = warning (or_else p.message content) ∷ []

unfoldable pub title_update_events : Option Payload → List StreamEvent
title_update_events none = []
title_update_events (some p) = title_update (or_else p.conversation_id "") (or_else p.title "") ∷ []

unfoldable pub title_error_events : Option Payload → List StreamEvent
title_error_events none = title_error "Failed to generate title" ∷ []
title_error_events (some p) = title_error (or_else p.message "Failed to generate title") ∷ []

unfoldable pub error_event : Option Payload → StreamEvent
unfolding failure
error_event none = failure "malformed_error" "Gateway returned a malformed stream error"
error_event (some p) = error (record {
  code = or_else p.code "stream_error";
  message = or_else p.message "Gateway stream failed";
  user_message = p.user_message;
  assistant_message = p.assistant_message;
})

abbrev pub done_with : Bool → ℕ × ℕ → Option Message → Option Message → StreamEvent
done_with summarized (input, output) (some u) (some a) =
    done
      (record {
        user_message = u;
        assistant_message = some a;
        input_tokens = input;
        output_tokens = output;
      })
      summarized
done_with summarized counts _ _ =
    failure "malformed_done" "Gateway completion was not authoritative"

unfoldable pub done_event : Bool → Option Payload → StreamEvent
unfolding failure
done_event summarized none = failure "malformed_done" "Gateway completion was not authoritative"
done_event summarized (some p) =
    done_with summarized (or_else p.usage (0, 0)) (persisted p.user_message)
      (persisted p.assistant_message)
