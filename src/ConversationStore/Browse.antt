-- ===== src/ConversationStore/Browse.antt =====
-- The handlers of conversationStore.ts that list, prefetch, open, create and delete conversations.
-- An asynchronous handler is one function for each stretch between two `await`s: `_start` runs up
-- to the first, `_done` and `_failed` go on from its result.
use encore_hub.Shared.{
  ℕ, String, Bool, true, false, not, ◌||◌, Option, none, some, List, [], ◌∷◌, map, Assoc, lookup,
  insert, remove, mem, add, without, any, length, ltb, opt_is, is_some, is_empty, str_eq,
  if◌then◌else◌,
}
use encore_hub.Models.{Message, Conversation}
use encore_hub.ConversationStore.State.{
  ConvCacheEntry, ConversationState, ConversationDetail, get_conversation, restore_compaction,
  toast_error, set_summarized_compaction, empty_cache_entry, post,
}
use encore_hub.ConversationStore.Cache.{save_active_view_to_cache}

-- `loadConversationDetail`: one request for each id in flight.
unfoldable pub load_conversation_detail : ConversationState → String → ConversationState
load_conversation_detail s id =
    if mem id s.conversation_loads
    then s
    else post (record s { conversation_loads = add id s.conversation_loads }) (get_conversation id)

unfoldable pub detail_loaded : ConversationState → String → ConversationDetail → ConversationState
detail_loaded s id detail =
    post (record s { conversation_loads = without id s.conversation_loads })
      (restore_compaction id detail)

unfoldable pub detail_failed : ConversationState → String → ConversationState
detail_failed s id = record s { conversation_loads = without id s.conversation_loads }

unfoldable pub load_list_start : ConversationState → ConversationState
load_list_start s = record s { list_loading = true; list_error = none }

unfoldable pub load_list_done : ConversationState → List Conversation → ConversationState
load_list_done s conversations = record s {
  conversations = conversations;
  list_loading = false;
  list_error = none;
}

unfoldable pub load_list_failed : ConversationState → ConversationState
load_list_failed s = record s {
  list_loading = false;
  list_error = some "Failed to load conversations";
}

-- `controller?.abort()`
unfoldable pub abort_option : Option ℕ → List ℕ → List ℕ
abort_option none aborted = aborted
abort_option (some c) aborted = c ∷ aborted

unfoldable pub reload_after_data_change : ConversationState → ConversationState
unfolding load_list_start abort_option
reload_after_data_change s = load_list_start (record s {
  transient_prefetch_claims = [];
  aborted = abort_option s.abort_controller s.aborted;
  active_id = none;
  messages = [];
  loading = false;
  streaming = false;
  streaming_content = "";
  streaming_reasoning = "";
  streaming_duration_ms = 0;
  streaming_tool_calls = [];
  error = none;
  abort_controller = none;
  pending_draft = none;
  editing_message_id = none;
  conv_cache = [];
  prefetched_conversation_ids = [];
})

unfoldable pub prefetch_start : ConversationState → String → ConversationState
unfolding load_conversation_detail
prefetch_start s id =
    if is_empty id || opt_is s.active_id id || is_some (lookup id s.conv_cache)
    then s
    else load_conversation_detail
        (record s { transient_prefetch_claims = add id s.transient_prefetch_claims }) id

unfoldable pub prefetch_done : ConversationState → String → List Message → ConversationState
prefetch_done s id messages =
    if not (mem id s.transient_prefetch_claims) || opt_is s.active_id id
    then s
    else if is_some (lookup id s.conv_cache)
    then s
    else record s {
      conv_cache = insert id (empty_cache_entry messages) s.conv_cache;
      prefetched_conversation_ids = add id s.prefetched_conversation_ids;
    }

unfoldable pub prefetch_failed : ConversationState → String → ConversationState
prefetch_failed s id = record s {
  transient_prefetch_claims = without id s.transient_prefetch_claims;
}

unfoldable pub release_prefetch : ConversationState → String → ConversationState
release_prefetch s id =
    let t = record s { transient_prefetch_claims = without id s.transient_prefetch_claims } in
    if not (mem id s.prefetched_conversation_ids) || opt_is s.active_id id then t else record t {
      conv_cache = remove id s.conv_cache;
      prefetched_conversation_ids = without id s.prefetched_conversation_ids;
    }

-- The conversation's own messages, or those of the view.
abbrev pub entry_messages : Option ConvCacheEntry → List Message → List Message
entry_messages none shown = shown
entry_messages (some entry) shown = entry.messages

-- `summarizeContext` up to its request: none where the handler returns early, else the state with
-- the conversation marked and the messages that the request is about.
unfoldable pub summarize_start :
    ConversationState → String → Option (ConversationState × List Message)
summarize_start s id =
    let messages = entry_messages (lookup id s.conv_cache) s.messages in
    if mem id s.summarizing_conversations
    then none
    else if not (any (λ item. str_eq item.id id) s.conversations) || ltb (length messages) 4
    then none
    else some
        (record s { summarizing_conversations = add id s.summarizing_conversations }, messages)

unfoldable pub summarize_done :
    ConversationState → String → String → ℕ → String → String → List Message → ConversationState
summarize_done s id text keep_recent start_id end_id messages =
    post (record s { summarizing_conversations = without id s.summarizing_conversations })
      (set_summarized_compaction id text keep_recent start_id end_id messages)

unfoldable pub summarize_failed : ConversationState → String → ConversationState
summarize_failed s id = record s {
  summarizing_conversations = without id s.summarizing_conversations;
}

-- `selectConversation` up to its request. The view shows what is cached; where nothing is, its
-- stream fields are cleared, and `messages` and `abortController` are left as they are.
unfoldable pub select_at :
    ConversationState → String → Assoc ConvCacheEntry → Option ConvCacheEntry → ConversationState
unfolding load_conversation_detail
select_at s id conv_cache (some cached) = record s {
  active_id = some id;
  messages = cached.messages;
  streaming = cached.streaming;
  streaming_content = cached.streaming_content;
  streaming_reasoning = cached.streaming_reasoning;
  streaming_duration_ms = cached.streaming_duration_ms;
  streaming_tool_calls = cached.streaming_tool_calls;
  abort_controller = cached.abort_controller;
  loading = false;
  error = none;
  editing_message_id = none;
  conv_cache = conv_cache;
  prefetched_conversation_ids = without id s.prefetched_conversation_ids;
}
select_at s id conv_cache none =
    load_conversation_detail
      (record s {
        active_id = some id;
        loading = true;
        streaming = false;
        streaming_content = "";
        streaming_reasoning = "";
        streaming_duration_ms = 0;
        streaming_tool_calls = [];
        error = none;
        editing_message_id = none;
        conv_cache = conv_cache;
        prefetched_conversation_ids = without id s.prefetched_conversation_ids;
      })
      id

unfoldable pub select_start : ConversationState → String → ConversationState
unfolding select_at
select_start s id =
    let t = record s { transient_prefetch_claims = without id s.transient_prefetch_claims } in
    let conv_cache = save_active_view_to_cache t in select_at t id conv_cache (lookup id conv_cache)

unfoldable pub select_done : ConversationState → String → List Message → ConversationState
select_done s id messages =
    let t = record s { conv_cache = insert id (empty_cache_entry messages) s.conv_cache } in
    if opt_is s.active_id id then record t { messages = messages; loading = false } else t

unfoldable pub select_failed : ConversationState → String → ConversationState
select_failed s id =
    post
      (if opt_is s.active_id id
        then record s { loading = false; error = some "Failed to load conversation" }
        else s)
      (toast_error "conversation.loadFailed")

abbrev pub new_conversation_draft_key : String
new_conversation_draft_key = "__new_conversation__"

-- The draft typed before the conversation had an id moves to it.
unfoldable pub migrate_draft : Bool → String → Assoc String → Option String → Assoc String
migrate_draft true id drafts (some draft) =
    remove new_conversation_draft_key (insert id draft drafts)
migrate_draft _ id drafts _ = drafts

unfoldable pub upsert_conversation : Conversation → List Conversation → List Conversation
upsert_conversation conv conversations =
    if any (λ item. str_eq item.id conv.id) conversations
    then map (λ item. if str_eq item.id conv.id then conv else item) conversations
    else conv ∷ conversations

-- `newConversation` after `createConversation` and `loadList`; `migrate` was read before them.
unfoldable pub new_conversation_done : ConversationState → Bool → Conversation → ConversationState
unfolding migrate_draft upsert_conversation
new_conversation_done s migrate conv = record s {
  conversations = upsert_conversation conv s.conversations;
  active_id = some conv.id;
  messages = [];
  loading = false;
  streaming = false;
  streaming_content = "";
  streaming_reasoning = "";
  streaming_duration_ms = 0;
  streaming_tool_calls = [];
  abort_controller = none;
  editing_message_id = none;
  error = none;
  drafts = migrate_draft migrate conv.id s.drafts (lookup new_conversation_draft_key s.drafts);
  conv_cache = insert conv.id (empty_cache_entry []) (save_active_view_to_cache s);
}

unfoldable pub new_conversation_failed : ConversationState → ConversationState
new_conversation_failed s =
    post (record s { error = some "Failed to create conversation" })
      (toast_error "conversation.createFailed")

unfoldable pub delete_conversation_start : ConversationState → String → ConversationState
delete_conversation_start s id = record s {
  transient_prefetch_claims = without id s.transient_prefetch_claims;
}

-- What is kept under the id goes, and the view is cleared if it showed the conversation.
unfoldable pub delete_conversation_done : ConversationState → String → ConversationState
unfolding load_list_start
delete_conversation_done s id =
    let t = record s {
      conv_cache = remove id s.conv_cache;
      prefetched_conversation_ids = without id s.prefetched_conversation_ids;
      drafts = remove id s.drafts;
      scroll_positions = remove id s.scroll_positions;
    } in
    load_list_start (
      if opt_is s.active_id id
      then record t {
        active_id = none;
        messages = [];
        loading = false;
        streaming = false;
        streaming_content = "";
        streaming_reasoning = "";
        streaming_duration_ms = 0;
        streaming_tool_calls = [];
        abort_controller = none;
        editing_message_id = none;
      }
      else t)

unfoldable pub delete_conversation_failed : ConversationState → ConversationState
delete_conversation_failed s =
    post (record s { error = some "Failed to delete conversation" })
      (toast_error "conversation.deleteFailed")
