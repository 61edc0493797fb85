-- ===== src/ConversationStore/State.antt =====
-- The state of the conversation store (conversationStore.ts). An abort controller is the number
-- under which it was made; `aborted` holds those on which `abort()` was called. The module's collections
-- `conversationLoads` (the ids in flight), `transientPrefetchClaims` and `summarizingConversations`
-- are fields of the state. What a handler asks of the Gateway or of another store is appended to
-- `outbox` in the order of the calls.
use encore_hub.Shared.{ℕ, String, Bool, false, Option, none, List, [], ◌∷◌, ◌++◌, Assoc}
use encore_hub.Models.{Message, StreamToolCall, Conversation}

pub record ConvCacheEntry : Type 0 where
  pub messages : List Message
  pub streaming : Bool
  pub streaming_content : String
  pub streaming_reasoning : String
  pub streaming_duration_ms : ℕ
  pub streaming_tool_calls : List StreamToolCall
  pub abort_controller : Option ℕ

-- `ConversationDetail`: what the handlers read of the Engine's answer.
pub record ConversationDetail : Type 0 where
  pub messages : List Message
  pub summary : Option String
  pub summary_start_message_id : Option String
  pub summary_end_message_id : Option String

pub data UsageStatus : Type 0 where
  completed failed stopped : UsageStatus

-- The calls that the store makes of the Gateway and of the other stores.
pub data Call : Type 0 where
  get_conversation : String → Call
  restore_compaction : String → ConversationDetail → Call
  toast_error : String → Call
  toast_warning : String → ℕ → Call
  set_summarized_compaction : String → String → ℕ → String → String → List Message → Call
  record_usage : String → String → ℕ → ℕ → ℕ → UsageStatus → Call
  learn_from_snapshot : String → List Message → Call
  summarize_context : String → Call
  send_message_stream : String → String → Option String → Call

unfoldable pub empty_cache_entry : List Message → ConvCacheEntry
empty_cache_entry messages = record {
  messages = messages;
  streaming = false;
  streaming_content = "";
  streaming_reasoning = "";
  streaming_duration_ms = 0;
  streaming_tool_calls = [];
  abort_controller = none;
}

pub record ConversationState : Type 0 where
  pub conversations : List Conversation
  pub active_id : Option String
  pub list_loading : Bool
  pub list_error : Option String
  -- the top-level view fields
  pub messages : List Message
  pub loading : Bool
  pub streaming : Bool
  pub streaming_content : String
  pub streaming_reasoning : String
  pub streaming_duration_ms : ℕ
  pub streaming_tool_calls : List StreamToolCall
  pub error : Option String
  pub abort_controller : Option ℕ
  pub pending_draft : Option String
  pub editing_message_id : Option String
  pub drafts : Assoc String
  pub scroll_positions : Assoc ℕ
  -- the per-conversation state pool
  pub conv_cache : Assoc ConvCacheEntry
  pub prefetched_conversation_ids : List String
  -- module-level state
  pub conversation_loads : List String
  pub transient_prefetch_claims : List String
  pub summarizing_conversations : List String
  pub aborted : List ℕ
  pub outbox : List Call

unfoldable pub initial_state : ConversationState
initial_state = record {
  conversations = [];
  active_id = none;
  list_loading = false;
  list_error = none;
  messages = [];
  loading = false;
  streaming = false;
  streaming_content = "";
  streaming_reasoning = "";
  streaming_duration_ms = 0;
  streaming_tool_calls = [];
  error = none;
  abort_controller = none;
  pending_draft = none;
  editing_message_id = none;
  drafts = [];
  scroll_positions = [];
  conv_cache = [];
  prefetched_conversation_ids = [];
  conversation_loads = [];
  transient_prefetch_claims = [];
  summarizing_conversations = [];
  aborted = [];
  outbox = [];
}

unfoldable pub current_view_entry : ConversationState → ConvCacheEntry
current_view_entry s = record {
  messages = s.messages;
  streaming = s.streaming;
  streaming_content = s.streaming_content;
  streaming_reasoning = s.streaming_reasoning;
  streaming_duration_ms = s.streaming_duration_ms;
  streaming_tool_calls = s.streaming_tool_calls;
  abort_controller = s.abort_controller;
}

-- One more call.
unfoldable pub post : ConversationState → Call → ConversationState
post s call = record s { outbox = s.outbox ++ call ∷ [] }
