-- ===== src/ConversationStore/Turn/Types.antt =====
-- The data of a turn of `sendMessage` (conversationStore.ts, chat.ts). The variables that the
-- callbacks close over are the record `Turn`.
use encore_hub.Shared.{ℕ, String, Bool, false, Option, none, some, List, []}
use encore_hub.Models.{Message, CallStatus}
use encore_hub.ConversationStore.Cache.{Patch}

pub record Turn : Type 0 where
  pub conv_id : String
  pub optimistic_id : String
  pub previous_messages : List Message
  pub replaces : Bool
  pub controller : ℕ
  pub model_key : String
  pub authoritative_turn_id : Option String
  pub should_reconcile : Bool
  pub usage_input_tokens : ℕ
  pub usage_output_tokens : ℕ
  pub usage_duration_ms : ℕ
  pub usage_recorded : Bool
  -- whether auto compaction is on, the window known and the estimate at its threshold
  pub near_limit : Bool

pub record StreamDone : Type 0 where
  pub user_message : Message
  pub assistant_message : Option Message
  pub input_tokens : ℕ
  pub output_tokens : ℕ

pub record StreamError : Type 0 where
  pub code : String
  pub message : String
  pub user_message : Option Message
  pub assistant_message : Option Message

-- A fragment of a tool call.
pub record ToolFragment : Type 0 where
  pub index : ℕ
  pub id : Option String
  pub name : Option String
  pub arguments : Option String

-- The callbacks of `StreamCallbacks`. `done` also carries whether the conversation has a
-- model-written summary at that time.
pub data StreamEvent : Type 0 where
  turn_started : Message → StreamEvent
  delta : String → StreamEvent
  reasoning : String → StreamEvent
  tool_call : ToolFragment → StreamEvent
  tool_result : String → String → CallStatus → StreamEvent
  usage : ℕ → ℕ → StreamEvent
  telemetry : ℕ → StreamEvent
  warning : String → StreamEvent
  title_update : String → String → StreamEvent
  title_error : String → StreamEvent
  done : StreamDone → Bool → StreamEvent
  error : StreamError → StreamEvent

-- The patch that ends a stream, with the messages to show.
abbrev pub settled : Option (List Message) → Patch
settled messages = record {
  messages = messages;
  streaming = some false;
  streaming_content = some "";
  streaming_reasoning = some "";
  streaming_duration_ms = some 0;
  streaming_tool_calls = some [];
  abort_controller = some none;
}
