-- ===== src/MultiChat/Handlers.antt =====
-- The handlers of multiChatStore.ts. One with an `await` is one function for each stretch.
use encore_hub.Shared.{
  ℕ, String, Bool, true, false, not, Option, none, some, List, [], ◌∷◌, keep, or_else, opt_is,
  is_empty, trim, str_eq, if◌then◌else◌,
}
use encore_hub.Models.{
  Message, Conversation, ConversationParticipant, ReplyMode, sequential, GroupChatSettings,
}
use encore_hub.MultiChat.State.{
  GroupMemberSelection, MultiChatState, ask, create_conversation, is_group_conversation, idle,
  running, get_conversation, update_reply_mode, update_settings, enqueue, toast_error,
}
use encore_hub.MultiChat.Stream.{upsert_by_id}

unfoldable pub load_conversations_start : MultiChatState → MultiChatState
load_conversations_start s = record s { list_loading = true }

unfoldable pub load_conversations_done : MultiChatState → List Conversation → MultiChatState
unfolding is_group_conversation
load_conversations_done s conversations = record s {
  conversations = keep is_group_conversation conversations;
  list_loading = false;
}

unfoldable pub load_conversations_failed : MultiChatState → String → MultiChatState
load_conversations_failed s message = ask (record s { list_loading = false }) (toast_error message)

-- `eventsController?.abort()`
unfoldable pub abort_events : MultiChatState → MultiChatState
abort_events s = elim s.events_controller [
  | none ↦ s
  | some c ↦ record s { aborted = c ∷ s.aborted }
]

unfoldable pub open_conversation_start : MultiChatState → String → MultiChatState
unfolding abort_events
open_conversation_start s id =
    ask (record (abort_events s) { active_id = some id; segments = []; events_controller = none })
      (get_conversation id)

-- `subscribe` up to the connection; `controller` is the one that it makes.
unfoldable pub subscribe : MultiChatState → ℕ → MultiChatState
unfolding abort_events
subscribe s controller = record (abort_events s) { events_controller = some controller }

-- What `openConversation` reads of the Engine's answer.
pub record GroupDetail : Type 0 where
  pub participants : Option (List ConversationParticipant)
  pub reply_mode : Option ReplyMode
  pub group_settings : Option GroupChatSettings
  pub messages : List Message

unfoldable pub open_conversation_done : MultiChatState → String → GroupDetail → ℕ → MultiChatState
unfolding subscribe
open_conversation_done s id detail controller =
    subscribe
      (record s {
        active_id = some id;
        participants = or_else detail.participants [];
        reply_mode = or_else detail.reply_mode sequential;
        group_settings = detail.group_settings;
        messages = detail.messages;
        segments = [];
      })
      controller

unfoldable pub open_conversation_failed : MultiChatState → String → MultiChatState
open_conversation_failed s message = ask s (toast_error message)

-- `createGroup` up to its request, and the stretch after the answer: the settings are sent if there
-- are any, and else, or when they are saved, the list is loaded. The group is opened when that is
-- done, by `open_conversation_start`.
unfoldable pub create_group_start :
    MultiChatState → String → ReplyMode → List GroupMemberSelection → MultiChatState
create_group_start s title mode members = ask s (create_conversation title mode members)

unfoldable pub create_group_done :
    MultiChatState → String → Option GroupChatSettings → MultiChatState
unfolding load_conversations_start
create_group_done s id none = load_conversations_start s
create_group_done s id (some settings) = ask s (update_settings id settings)

unfoldable pub close_conversation : MultiChatState → MultiChatState
unfolding abort_events
close_conversation s = record (abort_events s) {
  active_id = none;
  participants = [];
  group_settings = none;
  messages = [];
  segments = [];
  runner_state = idle;
  pending = 0;
  events_controller = none;
}

unfoldable pub remove_conversation_start : MultiChatState → String → MultiChatState
unfolding close_conversation
remove_conversation_start s id = if opt_is s.active_id id then close_conversation s else s

unfoldable pub remove_conversation_done : MultiChatState → String → MultiChatState
remove_conversation_done s id = record s {
  conversations = keep (λ c. not (str_eq c.id id)) s.conversations;
}

-- `!activeId`
abbrev pub active_group : MultiChatState → Option String
active_group s = elim s.active_id [ none ↦ none | some id ↦ if is_empty id then none else some id ]

-- `setReplyMode`, with the mode that it replaces where it makes a request.
unfoldable pub set_reply_mode_start : MultiChatState → ReplyMode → MultiChatState × Option ReplyMode
set_reply_mode_start s mode = elim (active_group s) [
  | none ↦ (s, none)
  | some id ↦ (ask (record s { reply_mode = mode }) (update_reply_mode id mode), some s.reply_mode)
]

unfoldable pub set_reply_mode_failed : MultiChatState → ReplyMode → String → MultiChatState
set_reply_mode_failed s previous message =
    ask (record s { reply_mode = previous }) (toast_error message)

unfoldable pub save_group_settings_start :
    MultiChatState → GroupChatSettings → MultiChatState × Option (Option GroupChatSettings)
save_group_settings_start s settings = elim (active_group s) [
  | none ↦ (s, none)
  | some id ↦ (
    ask (record s { group_settings = some settings }) (update_settings id settings),
    some s.group_settings,
  )
]

unfoldable pub save_group_settings_done :
    MultiChatState → GroupChatSettings → Option GroupChatSettings → MultiChatState
save_group_settings_done s settings updated = record s {
  group_settings = some (or_else updated settings);
}

unfoldable pub save_group_settings_failed :
    MultiChatState → Option GroupChatSettings → String → MultiChatState
save_group_settings_failed s previous message =
    ask (record s { group_settings = previous }) (toast_error message)

-- `sendMessage` up to its request, which is what it appends to the outbox.
unfoldable pub send_group_start : MultiChatState → String → List String → MultiChatState
send_group_start s content mentions = elim (active_group s) [
  | none ↦ s
  | some id ↦ if is_empty (trim content) then s else ask s (enqueue id (trim content) mentions)
]

abbrev pub has_command : Option String → Bool
has_command none = false
has_command (some c) = not (is_empty c)

abbrev pub queue_message : MultiChatState → Option ℕ → Option Message → MultiChatState
queue_message s queued none = s
queue_message s queued (some message) = record s {
  messages = upsert_by_id s.messages message;
  pending = or_else queued s.pending;
  runner_state = running;
}

-- A command changes nothing here; its effect comes with the runner's events.
unfoldable pub send_group_done :
    MultiChatState → Option String → Option ℕ → Option Message → MultiChatState
unfolding upsert_by_id
send_group_done s command queued message =
    if has_command command then s else queue_message s queued message

unfoldable pub send_group_failed : MultiChatState → String → MultiChatState
send_group_failed s message = ask s (toast_error message)

unfoldable pub stop_group : MultiChatState → MultiChatState
stop_group s = elim (active_group s) [ none ↦ s | some id ↦ ask s (enqueue id "/stop" []) ]

unfoldable pub stop_group_failed : MultiChatState → String → MultiChatState
stop_group_failed s message = ask s (toast_error message)
