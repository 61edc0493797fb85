-- ===== src/ConversationStore/Edit.antt =====
-- The handlers of conversationStore.ts that rename a conversation, change its model or character,
-- delete and edit messages, and keep drafts and scroll positions.
use Prim.Native.String
use encore_hub.Shared.{
  ℕ, String, Bool, not, ◌&&◌, ◌||◌, Option, none, some, List, [], ◌∷◌, ◌++◌, map, lookup, insert,
  remove, any, find, keep, or_else, or_option, opt_is, is_some, is_empty, trim, trim_end, str_eq,
  if◌then◌else◌,
}
use encore_hub.Models.{Message, Conversation, system, completed, is_user, is_assistant}
use encore_hub.ConversationStore.State.{ConversationState, toast_error, post}
use encore_hub.ConversationStore.Cache.{no_patch, cache_update}
use encore_hub.ConversationStore.Browse.{
  load_list_start, entry_messages, new_conversation_draft_key,
}

-- `conversations.map(c => c.id === id ? f(c) : c)`
abbrev pub map_id : String → (Conversation → Conversation) → List Conversation → List Conversation
map_id id f conversations = map (λ c. if str_eq c.id id then f c else c) conversations

abbrev pub find_id : String → List Conversation → Option Conversation
find_id id conversations = find (λ c. str_eq c.id id) conversations

abbrev pub title_of : Option Conversation → Option String
title_of none = none
title_of (some c) = some c.title

-- The optimistic part of `renameConversation`, with the title that it replaces.
unfoldable pub rename_start :
    ConversationState → String → String → ConversationState × Option String
rename_start s id title = if is_empty (trim title) then (s, none) else (
  record s { conversations = map_id id (λ c. record c { title = trim title }) s.conversations },
  title_of (find_id id s.conversations),
)

unfoldable pub restore_title : String → Option String → List Conversation → List Conversation
restore_title id none conversations = conversations
restore_title id (some prev) conversations =
    map_id id (λ c. record c { title = prev }) conversations

unfoldable pub rename_failed : ConversationState → String → Option String → ConversationState
unfolding restore_title
rename_failed s id prev =
    post
      (record s {
        conversations = restore_title id prev s.conversations;
        error = some "Rename failed";
      })
      (toast_error "conversation.renameFailed")

-- The conversation whose model `updateConversationModel` changes, if it does not return early.
abbrev pub unless_same : String → String → Option Conversation → Option Conversation
unless_same provider model none = none
unless_same provider model (some c) =
    if str_eq c.provider provider && str_eq c.model model then none else some c

unfoldable pub model_update_previous :
    ConversationState → String → String → String → Option Conversation
model_update_previous s id provider model =
    if is_empty id || is_empty (trim provider) || is_empty (trim model)
    then none
    else unless_same (trim provider) (trim model) (find_id id s.conversations)

unfoldable pub model_update_start : ConversationState → String → String → String → ConversationState
unfolding model_update_previous
model_update_start s id provider model =
    if is_some (model_update_previous s id provider model)
    then record s {
      conversations =
          map_id id (λ c. record c { provider = trim provider; model = trim model })
            s.conversations;
      error = none;
    }
    else s

-- `{ ...conversation, ...updated }`
unfoldable pub merge_conversation : Conversation → Conversation → Conversation
merge_conversation c updated = record {
  id = updated.id;
  title = updated.title;
  provider = updated.provider;
  model = updated.model;
  character_snapshot = or_option updated.character_snapshot c.character_snapshot;
  reply_mode = or_option updated.reply_mode c.reply_mode;
  participants = or_option updated.participants c.participants;
  group_settings = or_option updated.group_settings c.group_settings;
}

unfoldable pub model_update_done : ConversationState → String → Conversation → ConversationState
unfolding merge_conversation
model_update_done s id updated = record s {
  conversations = map_id id (λ c. merge_conversation c updated) s.conversations;
}

-- The roll-back applies only where the optimistic values still stand.
unfoldable pub model_update_failed :
    ConversationState → String → Conversation → String → String → ConversationState
model_update_failed s id previous provider model =
    post
      (record s {
        conversations =
            map_id id
              (λ c.
                if str_eq c.provider (trim provider) && str_eq c.model (trim model)
                then record c { provider = previous.provider; model = previous.model }
                else c)
              s.conversations;
        error = some "Failed to update conversation model";
      })
      (toast_error "conversation.modelUpdateFailed")

unfoldable pub upgrade_character_done :
    ConversationState → String → Conversation → ConversationState
upgrade_character_done s id updated = record s {
  conversations = map_id id (λ c. updated) s.conversations;
  error = none;
}

unfoldable pub upgrade_character_failed : ConversationState → ConversationState
upgrade_character_failed s = record s {
  error = some "Failed to upgrade the conversation character";
}

-- `removedIds` of `deleteMessage`: the message and those that answer it.
unfoldable pub in_removal : String → Message → Bool
in_removal id m = str_eq m.id id || opt_is m.parent_id id

unfoldable pub without_removed : String → List Message → List Message
unfolding in_removal
without_removed id messages =
    keep (λ m. not (any (λ r. in_removal id r && str_eq r.id m.id) messages)) messages

-- `deleteMessage` after the Engine has deleted; `active` is the active id read before.
unfoldable pub delete_message_done : ConversationState → String → String → ConversationState
unfolding without_removed load_list_start
delete_message_done s active id =
    let current = entry_messages (lookup active s.conv_cache) s.messages in
    let t =
      cache_update s active (record no_patch { messages = some (without_removed id current) }) in
    load_list_start
      (if opt_is s.editing_message_id id then record t { editing_message_id = none } else t)

unfoldable pub find_user : String → List Message → Option Message
find_user id messages = find (λ m. str_eq m.id id && is_user m.role) messages

unfoldable pub start_editing_message : ConversationState → String → ConversationState
unfolding find_user
start_editing_message s id =
    if not (is_some (find_user id s.messages)) || s.streaming
    then s
    else record s { editing_message_id = some id }

unfoldable pub cancel_editing_message : ConversationState → ConversationState
cancel_editing_message s = record s { editing_message_id = none }

-- What `submitEditedMessage` sends in place of the message, if it sends.
abbrev changed_content : String → Option Message → Option String
changed_content next none = none
changed_content next (some m) =
    if is_empty next || str_eq next (trim m.content) then none else some next

unfoldable pub submit_edited_message :
    ConversationState → String → String → ConversationState × Option String
unfolding find_user
submit_edited_message s id content =
    let sent = changed_content (trim content) (find_user id s.messages) in
    (if is_some sent then record s { editing_message_id = none } else s, sent)

-- The user message that `regenerateMessage` deletes and sends again.
abbrev parent_user : List Message → Option Message → Option Message
parent_user messages none = none
parent_user messages (some m) = elim m.parent_id [
  | none ↦ none
  | some parent ↦
      if is_empty parent then none else find (λ u. str_eq u.id parent && is_user u.role) messages
]

unfoldable pub regenerate_source : ConversationState → String → Option Message
regenerate_source s id =
    if s.streaming
    then none
    else parent_user s.messages (find (λ m. str_eq m.id id && is_assistant m.role) s.messages)

-- `pushSystemMessage` at the clock reading `now`, written `stamp`.
unfoldable pub system_message : String → ℕ → String → Message
system_message stamp now content = record {
  id = String.◌++◌ "sys-" stamp;
  role = system;
  content = content;
  reasoning = none;
  parent_id = none;
  sender_character_id = none;
  tool_calls = [];
  context_input_tokens = none;
  context_output_tokens = none;
  status = completed;
  created_at = now;
}

abbrev pub push_at : ConversationState → Message → Option String → ConversationState
push_at s msg none = record s { messages = s.messages ++ msg ∷ [] }
push_at s msg (some id) =
    if is_empty id
    then record s { messages = s.messages ++ msg ∷ [] }
    else cache_update s id (record no_patch {
      messages = some (entry_messages (lookup id s.conv_cache) s.messages ++ msg ∷ []);
    })

unfoldable pub push_system_message : ConversationState → String → ℕ → String → ConversationState
unfolding system_message
push_system_message s stamp now content = push_at s (system_message stamp now content) s.active_id

unfoldable pub set_draft : ConversationState → String → ConversationState
set_draft s content = record s { pending_draft = some content }

abbrev appended : Option String → String → String
appended none content = content
appended (some draft) content =
    if is_empty draft then content else String.◌++◌ (trim_end draft) (String.◌++◌ "\n\n" content)

unfoldable pub append_draft : ConversationState → String → ConversationState
append_draft s content = record s { pending_draft = some (appended s.pending_draft content) }

unfoldable pub clear_draft : ConversationState → ConversationState
clear_draft s = record s { pending_draft = none }

unfoldable pub set_conversation_draft :
    ConversationState → Option String → String → ConversationState
set_conversation_draft s id content =
    let key = or_else id new_conversation_draft_key in
    record s {
      drafts = if is_empty content then remove key s.drafts else insert key content s.drafts;
    }

unfoldable pub clear_conversation_draft : ConversationState → Option String → ConversationState
clear_conversation_draft s id =
    let key = or_else id new_conversation_draft_key in
    if is_some (lookup key s.drafts) then record s { drafts = remove key s.drafts } else s

-- `setConversationScrollPosition` at a finite position, cut off at 0 where it is negative.
unfoldable pub set_scroll_position : ConversationState → String → ℕ → ConversationState
set_scroll_position s id scroll_top =
    if is_empty id
    then s
    else record s { scroll_positions = insert id scroll_top s.scroll_positions }

unfoldable pub generate_title_done : ConversationState → Conversation → ConversationState
generate_title_done s conv = record s {
  conversations = map_id conv.id (λ c. record c { title = conv.title }) s.conversations;
}

unfoldable pub generate_title_failed : ConversationState → ConversationState
generate_title_failed s = post s (toast_error "conversation.titleFailed")

unfoldable pub clear_error : ConversationState → ConversationState
clear_error s = record s { error = none }
