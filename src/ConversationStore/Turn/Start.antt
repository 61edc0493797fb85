-- ===== src/ConversationStore/Turn/Start.antt =====
-- `sendMessage` of conversationStore.ts up to the stream.
use encore_hub.Shared.{
  ℕ, String, Bool, true, false, not, ◌&&◌, Option, none, some, List, [], ◌∷◌, ◌++◌, lookup, insert,
  find_index, take, is_some, is_empty, str_eq, if◌then◌else◌,
}
use encore_hub.Models.{Message, user, TurnStatus, is_user}
use encore_hub.ConversationStore.State.{
  ConversationState, send_message_stream, empty_cache_entry, post,
}
use encore_hub.ConversationStore.Cache.{Patch, cache_update}
use encore_hub.ConversationStore.Browse.{entry_messages}
use encore_hub.ConversationStore.Edit.{clear_conversation_draft}
use encore_hub.ConversationStore.Turn.Types.{Turn}

abbrev pub streaming_patch : List Message → ℕ → Patch
streaming_patch messages controller = record {
  messages = some messages;
  streaming = some true;
  streaming_content = some "";
  streaming_reasoning = some "";
  streaming_duration_ms = some 0;
  streaming_tool_calls = some [];
  abort_controller = some (some controller);
}

unfoldable pub user_message : String → ℕ → String → Message
user_message id now content = record {
  id = id;
  role = user;
  content = content;
  reasoning = none;
  parent_id = none;
  sender_character_id = none;
  tool_calls = [];
  context_input_tokens = none;
  context_output_tokens = none;
  status = TurnStatus.pending;
  created_at = now;
}

unfoldable pub ensure_cache_entry : ConversationState → String → ConversationState
ensure_cache_entry s id =
    if is_some (lookup id s.conv_cache)
    then s
    else record s { conv_cache = insert id (empty_cache_entry s.messages) s.conv_cache }

-- The messages that stay before the optimistic one: those in front of the message replaced, none
-- if that is not a user message of the conversation. An empty id replaces nothing.
abbrev base_at : List Message → Option ℕ → Option (List Message)
base_at messages none = none
base_at messages (some i) = some (take i messages)

unfoldable pub optimistic_base : List Message → Option String → Option (List Message)
optimistic_base messages none = some messages
optimistic_base messages (some id) =
    if is_empty id
    then some messages
    else base_at messages (find_index (λ m. str_eq m.id id && is_user m.role) messages)

abbrev replaces_message : Option String → Bool
replaces_message none = false
replaces_message (some id) = not (is_empty id)

unfoldable pub send_optimistic :
    ConversationState
    → String
    → String
    → String
    → ℕ
    → Option String
    → ℕ
    → String
    → Bool
    → Option (List Message)
    → ConversationState × Option Turn
unfolding user_message
send_optimistic s id content user_id now replace controller model_key near_limit none = (s, none)
send_optimistic s id content user_id now replace controller model_key near_limit (some base) =
    let previous = entry_messages (lookup id s.conv_cache) s.messages in
    let shown =
      cache_update s id
        (streaming_patch (base ++ user_message user_id now content ∷ []) controller) in
    (
      post (record shown { error = none }) (send_message_stream id content replace),
      some (record {
        conv_id = id;
        optimistic_id = user_id;
        previous_messages = previous;
        replaces = replaces_message replace;
        controller = controller;
        model_key = model_key;
        authoritative_turn_id = none;
        should_reconcile = false;
        usage_input_tokens = 0;
        usage_output_tokens = 0;
        usage_duration_ms = 0;
        usage_recorded = false;
        near_limit = near_limit;
      }),
    )

-- `sendMessage` on the conversation `id` up to the stream: no turn where it returns early.
unfoldable pub send_start :
    ConversationState
    → String
    → String
    → String
    → ℕ
    → Option String
    → ℕ
    → String
    → Bool
    → ConversationState × Option Turn
unfolding ensure_cache_entry optimistic_base send_optimistic
send_start s id content user_id now replace controller model_key near_limit =
    let t = ensure_cache_entry (clear_conversation_draft s (some id)) id in
    let previous = entry_messages (lookup id t.conv_cache) t.messages in
    send_optimistic t id content user_id now replace controller model_key near_limit
      (optimistic_base previous replace)
