-- ===== src/ConversationStore/Cache.antt =====
-- `cacheUpdate`, `saveActiveViewToCache` and `reconcileTurnMessages` of conversationStore.ts.
use encore_hub.Shared.{
  ℕ, String, Bool, not, ◌&&◌, Option, none, some, List, [], ◌∷◌, ◌++◌, Assoc, lookup, insert, keep,
  or_else, opt_is, str_eq, if◌then◌else◌,
}
use encore_hub.Models.{Message, StreamToolCall}
use encore_hub.ConversationStore.State.{ConvCacheEntry, ConversationState, current_view_entry}

-- `Partial<ConvCacheEntry>`: a field that is none is absent from the patch.
pub record Patch : Type 0 where
  pub messages : Option (List Message)
  pub streaming : Option Bool
  pub streaming_content : Option String
  pub streaming_reasoning : Option String
  pub streaming_duration_ms : Option ℕ
  pub streaming_tool_calls : Option (List StreamToolCall)
  pub abort_controller : Option (Option ℕ)

abbrev pub no_patch : Patch
no_patch = record {
  messages = none;
  streaming = none;
  streaming_content = none;
  streaming_reasoning = none;
  streaming_duration_ms = none;
  streaming_tool_calls = none;
  abort_controller = none;
}

-- `{ ...prev, ...patch }`
unfoldable pub apply_patch : ConvCacheEntry → Patch → ConvCacheEntry
apply_patch prev patch = record {
  messages = or_else patch.messages prev.messages;
  streaming = or_else patch.streaming prev.streaming;
  streaming_content = or_else patch.streaming_content prev.streaming_content;
  streaming_reasoning = or_else patch.streaming_reasoning prev.streaming_reasoning;
  streaming_duration_ms = or_else patch.streaming_duration_ms prev.streaming_duration_ms;
  streaming_tool_calls = or_else patch.streaming_tool_calls prev.streaming_tool_calls;
  abort_controller = or_else patch.abort_controller prev.abort_controller;
}

-- `view[key] = updated[key]` for the keys of the patch.
abbrev pub pick {ℓ κ} : {A : Type ℓ} {B : Type κ} → Option A → B → B → B
pick none updated old = old
pick (some a) updated old = updated

unfoldable pub mirror_patch : ConversationState → Patch → ConvCacheEntry → ConversationState
mirror_patch s patch updated = record s {
  messages = pick patch.messages updated.messages s.messages;
  streaming = pick patch.streaming updated.streaming s.streaming;
  streaming_content = pick patch.streaming_content updated.streaming_content s.streaming_content;
  streaming_reasoning =
      pick patch.streaming_reasoning updated.streaming_reasoning s.streaming_reasoning;
  streaming_duration_ms =
      pick patch.streaming_duration_ms updated.streaming_duration_ms s.streaming_duration_ms;
  streaming_tool_calls =
      pick patch.streaming_tool_calls updated.streaming_tool_calls s.streaming_tool_calls;
  abort_controller = pick patch.abort_controller updated.abort_controller s.abort_controller;
}

-- The state after `set(cacheUpdate(s, convId, patch))`.
unfoldable pub cache_update_at :
    ConversationState → String → Patch → Option ConvCacheEntry → ConversationState
unfolding apply_patch mirror_patch
cache_update_at s conv_id patch none = s
cache_update_at s conv_id patch (some prev) =
    let updated = apply_patch prev patch in
    let cached = record s { conv_cache = insert conv_id updated s.conv_cache } in
    if opt_is s.active_id conv_id then mirror_patch cached patch updated else cached

unfoldable pub cache_update : ConversationState → String → Patch → ConversationState
unfolding cache_update_at
cache_update s conv_id patch = cache_update_at s conv_id patch (lookup conv_id s.conv_cache)

-- `saveActiveViewToCache`. `!s.activeId` also holds of the empty string.
abbrev pub save_at : ConversationState → String → Option ConvCacheEntry → Assoc ConvCacheEntry
save_at s id none = s.conv_cache
save_at s id (some _) = insert id (current_view_entry s) s.conv_cache

abbrev pub save_active : ConversationState → Option String → Assoc ConvCacheEntry
save_active s none = s.conv_cache
save_active s (some id) =
    if str_eq id "" then s.conv_cache else save_at s id (lookup id s.conv_cache)

unfoldable pub save_active_view_to_cache : ConversationState → Assoc ConvCacheEntry
unfolding current_view_entry
save_active_view_to_cache s = save_active s s.active_id

abbrev pub assistant_id : Option Message → Option String
assistant_id none = none
assistant_id (some m) = some m.id

abbrev pub tail_messages : Message → Option Message → List Message
tail_messages user_message none = user_message ∷ []
tail_messages user_message (some m) = user_message ∷ m ∷ []

-- The filter of `reconcileTurnMessages`.
unfoldable pub outside_turn : String → Message → Option Message → Message → Bool
outside_turn optimistic_id user_message assistant_message m =
    not (str_eq m.id optimistic_id)
    && not (str_eq m.id user_message.id)
    && not (opt_is m.parent_id user_message.id)
    && not (opt_is (assistant_id assistant_message) m.id)

unfoldable pub reconcile_turn_messages :
    List Message → String → Message → Option Message → List Message
unfolding outside_turn
reconcile_turn_messages messages optimistic_id user_message assistant_message =
    keep (outside_turn optimistic_id user_message assistant_message) messages
    ++ tail_messages user_message assistant_message
