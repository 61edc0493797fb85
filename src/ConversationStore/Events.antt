-- ===== src/ConversationStore/Events.antt =====
-- The handlers of conversationStore.ts as the events of one machine: any order of the stretches
-- between `await`s, with any answers, is a list of events. A stretch that goes on with a value read
-- earlier (a turn, a replaced title, the conversation before the change) has it as an argument.
use encore_hub.Shared.{ℕ, String, Bool, Option, List, [], ◌∷◌}
use encore_hub.Models.{Message, Conversation}
use encore_hub.ConversationStore.State.{ConversationState, ConversationDetail}
use encore_hub.ConversationStore.Browse.{
  detail_loaded, detail_failed, load_list_start, load_list_done, load_list_failed,
  reload_after_data_change, prefetch_start, prefetch_done, prefetch_failed, release_prefetch,
  summarize_start, summarize_done, summarize_failed, select_start, select_done, select_failed,
  new_conversation_done, new_conversation_failed, delete_conversation_start,
  delete_conversation_done, delete_conversation_failed,
}
use encore_hub.ConversationStore.Edit.{
  rename_start, rename_failed, model_update_start, model_update_done, model_update_failed,
  upgrade_character_done, upgrade_character_failed, delete_message_done, start_editing_message,
  cancel_editing_message, submit_edited_message, push_system_message, set_draft, append_draft,
  clear_draft, set_conversation_draft, clear_conversation_draft, set_scroll_position,
  generate_title_done, generate_title_failed, clear_error,
}
use encore_hub.ConversationStore.Turn.{
  Turn, StreamEvent, send_start, on_event, begin_summary, stop_streaming, after_stream,
  reconcile_answer, reconcile_timer,
}

pub data Event : Type 0 where
  list_start : Event
  list_done : (conversations : List Conversation) → Event
  list_failed : Event
  reload : Event
  loaded : (id : String) (detail : ConversationDetail) → Event
  load_failed : (id : String) → Event
  prefetch : (id : String) → Event
  prefetched : (id : String) (messages : List Message) → Event
  prefetch_lost : (id : String) → Event
  release : (id : String) → Event
  summarize : (id : String) → Event
  summarized :
      (id text : String) (keep_recent : ℕ) (start_id end_id : String) (messages : List Message)
      → Event
  summary_lost : (id : String) → Event
  select : (id : String) → Event
  selected : (id : String) (messages : List Message) → Event
  select_lost : (id : String) → Event
  created : (migrate : Bool) (conv : Conversation) → Event
  create_lost : Event
  delete : (id : String) → Event
  deleted : (id : String) → Event
  delete_lost : Event
  rename : (id title : String) → Event
  rename_lost : (id : String) (prev : Option String) → Event
  set_model : (id provider model : String) → Event
  model_set : (id : String) (updated : Conversation) → Event
  model_lost : (id : String) (previous : Conversation) (provider model : String) → Event
  upgraded : (id : String) (updated : Conversation) → Event
  upgrade_lost : Event
  message_deleted : (active id : String) → Event
  edit : (id : String) → Event
  cancel_edit : Event
  submit_edit : (id content : String) → Event
  push_system : (stamp : String) (now : ℕ) (content : String) → Event
  draft : (content : String) → Event
  quote : (content : String) → Event
  drop_draft : Event
  save_draft : (id : Option String) (content : String) → Event
  forget_draft : (id : Option String) → Event
  scroll : (id : String) (scroll_top : ℕ) → Event
  titled : (conv : Conversation) → Event
  title_lost : Event
  dismiss_error : Event
  send :
      (id content user_id : String) (now : ℕ) (replace : Option String) (controller : ℕ)
      (model_key : String) (near_limit : Bool)
      → Event
  stream : (t : Turn) (e : StreamEvent) → Event
  stop : Event
  stream_ended : (t : Turn) → Event
  reconciled : (t : Turn) (answer : Option (List Message)) → Event
  reconcile_waited : (attempts : ℕ) → Event

unfoldable pub step : ConversationState → Event → ConversationState
step s list_start = load_list_start s
step s (list_done conversations) = load_list_done s conversations
step s list_failed = load_list_failed s
step s reload = reload_after_data_change s
step s (loaded id detail) = detail_loaded s id detail
step s (load_failed id) = detail_failed s id
step s (prefetch id) = prefetch_start s id
step s (prefetched id messages) = prefetch_done s id messages
step s (prefetch_lost id) = prefetch_failed s id
step s (release id) = release_prefetch s id
step s (summarize id) = begin_summary s id (summarize_start s id)
step s (summarized id text keep_recent start_id end_id messages) =
    summarize_done s id text keep_recent start_id end_id messages
step s (summary_lost id) = summarize_failed s id
step s (select id) = select_start s id
step s (selected id messages) = select_done s id messages
step s (select_lost id) = select_failed s id
step s (created migrate conv) = new_conversation_done s migrate conv
step s create_lost = new_conversation_failed s
step s (delete id) = delete_conversation_start s id
step s (deleted id) = delete_conversation_done s id
step s delete_lost = delete_conversation_failed s
step s (rename id title) = (rename_start s id title).0
step s (rename_lost id prev) = rename_failed s id prev
step s (set_model id provider model) = model_update_start s id provider model
step s (model_set id updated) = model_update_done s id updated
step s (model_lost id previous provider model) = model_update_failed s id previous provider model
step s (upgraded id updated) = upgrade_character_done s id updated
step s upgrade_lost = upgrade_character_failed s
step s (message_deleted active id) = delete_message_done s active id
step s (edit id) = start_editing_message s id
step s cancel_edit = cancel_editing_message s
step s (submit_edit id content) = (submit_edited_message s id content).0
step s (push_system stamp now content) = push_system_message s stamp now content
step s (draft content) = set_draft s content
step s (quote content) = append_draft s content
step s drop_draft = clear_draft s
step s (save_draft id content) = set_conversation_draft s id content
step s (forget_draft id) = clear_conversation_draft s id
step s (scroll id scroll_top) = set_scroll_position s id scroll_top
step s (titled conv) = generate_title_done s conv
step s title_lost = generate_title_failed s
step s dismiss_error = clear_error s
step s (send id content user_id now replace controller model_key near_limit) =
    (send_start s id content user_id now replace controller model_key near_limit).0
step s (stream t e) = (on_event e s t).0
step s stop = stop_streaming s
step s (stream_ended t) = (after_stream s t).0
step s (reconciled t answer) = (reconcile_answer s t answer).0
step s (reconcile_waited attempts) = (reconcile_timer attempts s).0

unfoldable pub run : ConversationState → List Event → ConversationState
run s [] = s
run s (e ∷ es) = run (step s e) es
