-- ===== src/ConversationStore/Mirror/Runs.antt =====
-- The mirror over every handler of conversationStore.ts, and where it breaks.
use encore_hub.Shared.{
  ℕ, String, false, ◌≡◌, ◌∙◌, Option, none, some, List, [], ◌∷◌, Assoc, without, lookup-insert,
  eq_refl, lookup, arith,
}
use encore_hub.Models.{Message}
use encore_hub.ConversationStore.State.{
  ConvCacheEntry, ConversationState, ConversationDetail, initial_state, current_view_entry,
  empty_cache_entry, post,
}
use encore_hub.ConversationStore.Cache.{save_active, save_active_view_to_cache}
use encore_hub.ConversationStore.Browse.{
  detail_loaded, detail_failed, load_list_start, load_list_done, load_list_failed,
  reload_after_data_change, prefetch_failed, summarize_done, summarize_failed, select_start,
  select_at, select_done, load_conversation_detail, new_conversation_failed,
  delete_conversation_start, delete_conversation_failed,
}
use encore_hub.ConversationStore.Edit.{
  rename_start, rename_failed, model_update_start, model_update_done, model_update_failed,
  upgrade_character_done, upgrade_character_failed, start_editing_message, cancel_editing_message,
  submit_edited_message, set_draft, append_draft, clear_draft, set_conversation_draft,
  set_scroll_position, generate_title_done, generate_title_failed, clear_error,
}
use encore_hub.ConversationStore.Turn.{stop_streaming}
use encore_hub.ConversationStore.Events.{Event, step, run}
use encore_hub.ConversationStore.Growth.{is_cached}
use encore_hub.ConversationStore.Mirror.{Mirrors, IsQuiet}
use encore_hub.ConversationStore.Mirror.Handlers.{
  prefetch_start-Mirrors, prefetch_done-Mirrors, release_prefetch-Mirrors, select_start-Mirrors,
  select_done-Mirrors, select_failed-Mirrors, new_conversation_done-Mirrors,
  delete_conversation_done-Mirrors, delete_message_done-Mirrors, push_system_message-Mirrors,
}
use encore_hub.ConversationStore.Mirror.Turns.{
  begin_summary-Mirrors, on_event-Mirrors, send_start-Mirrors, after_stream-Mirrors,
  reconcile_answer-Mirrors, reconcile_timer-Mirrors, clear_conversation_draft-Mirrors,
}

-- An answer for the active conversation, and a message sent on it while it has no entry, find the
-- view without a stream and without an abort controller.
abbrev pub IsTimely : ConversationState → Event → Type 0
IsTimely s (Event.selected id messages) = s.active_id ≡ some id → IsQuiet s
IsTimely s (Event.send id content user_id now replace controller model_key near_limit) =
    s.active_id ≡ some id → is_cached s id ≡ false → IsQuiet s
IsTimely s _ = Unit

abbrev pub AreTimely : ConversationState → List Event → Type 0
AreTimely s [] = Unit
AreTimely s (e ∷ es) = IsTimely s e × AreTimely (step s e) es

-- Any handler, at a time when an answer finds a quiet view, keeps the view and the active entry
-- equal.
pub step-Mirrors :
    (s : ConversationState) (e : Event) → IsTimely s e → Mirrors s → Mirrors (step s e)
unfolding step post load_list_start load_list_done load_list_failed reload_after_data_change
    detail_loaded detail_failed prefetch_failed summarize_done summarize_failed
    new_conversation_failed delete_conversation_start delete_conversation_failed rename_failed
    model_update_start model_update_done model_update_failed upgrade_character_done
    upgrade_character_failed start_editing_message cancel_editing_message submit_edited_message
    set_draft append_draft clear_draft set_conversation_draft set_scroll_position
    generate_title_done generate_title_failed clear_error stop_streaming current_view_entry
    rename_start
step-Mirrors s Event.list_start q h = record { shows = h.shows }
step-Mirrors s (Event.list_done conversations) q h = record { shows = h.shows }
step-Mirrors s Event.list_failed q h = record { shows = h.shows }
step-Mirrors s Event.reload q h = record { shows = λ j e n a l. cc }
step-Mirrors s (Event.loaded id detail) q h = record { shows = h.shows }
step-Mirrors s (Event.load_failed id) q h = record { shows = h.shows }
step-Mirrors s (Event.prefetch id) q h = prefetch_start-Mirrors s id h
step-Mirrors s (Event.prefetched id messages) q h = prefetch_done-Mirrors s id messages h
step-Mirrors s (Event.prefetch_lost id) q h = record { shows = h.shows }
step-Mirrors s (Event.release id) q h = release_prefetch-Mirrors s id h
step-Mirrors s (Event.summarize id) q h = begin_summary-Mirrors s id h
step-Mirrors s (Event.summarized id text keep_recent start_id end_id messages) q h = record {
  shows = h.shows;
}
step-Mirrors s (Event.summary_lost id) q h = record { shows = h.shows }
step-Mirrors s (Event.select id) q h = select_start-Mirrors s id
step-Mirrors s (Event.selected id messages) q h = select_done-Mirrors s id messages q h
step-Mirrors s (Event.select_lost id) q h = select_failed-Mirrors s id h
step-Mirrors s (Event.created migrate conv) q h = new_conversation_done-Mirrors s migrate conv
step-Mirrors s Event.create_lost q h = record { shows = h.shows }
step-Mirrors s (Event.delete id) q h = record { shows = h.shows }
step-Mirrors s (Event.deleted id) q h = delete_conversation_done-Mirrors s id h
step-Mirrors s Event.delete_lost q h = record { shows = h.shows }
step-Mirrors s (Event.rename id title) q h = record {
  shows = λ j e n a l. ground (arith, h.shows j e);
}
step-Mirrors s (Event.rename_lost id prev) q h = record { shows = h.shows }
step-Mirrors s (Event.set_model id provider model) q h = record {
  shows = λ j e n a l. ground (arith, h.shows j e);
}
step-Mirrors s (Event.model_set id updated) q h = record { shows = h.shows }
step-Mirrors s (Event.model_lost id previous provider model) q h = record { shows = h.shows }
step-Mirrors s (Event.upgraded id updated) q h = record { shows = h.shows }
step-Mirrors s Event.upgrade_lost q h = record { shows = h.shows }
step-Mirrors s (Event.message_deleted active id) q h = delete_message_done-Mirrors s active id h
step-Mirrors s (Event.edit id) q h = record { shows = λ j e n a l. ground (arith, h.shows j e) }
step-Mirrors s Event.cancel_edit q h = record { shows = h.shows }
step-Mirrors s (Event.submit_edit id content) q h = record {
  shows = λ j e n a l. ground (arith, h.shows j e);
}
step-Mirrors s (Event.push_system stamp now content) q h =
    push_system_message-Mirrors s stamp now content h
step-Mirrors s (Event.draft content) q h = record { shows = h.shows }
step-Mirrors s (Event.quote content) q h = record { shows = h.shows }
step-Mirrors s Event.drop_draft q h = record { shows = h.shows }
step-Mirrors s (Event.save_draft id content) q h = record { shows = h.shows }
step-Mirrors s (Event.forget_draft id) q h = clear_conversation_draft-Mirrors s id h
step-Mirrors s (Event.scroll id scroll_top) q h = record {
  shows = λ j e n a l. ground (arith, h.shows j e);
}
step-Mirrors s (Event.titled conv) q h = record { shows = h.shows }
step-Mirrors s Event.title_lost q h = record { shows = h.shows }
step-Mirrors s Event.dismiss_error q h = record { shows = h.shows }
step-Mirrors s (Event.send id content user_id now replace controller model_key near_limit) q h =
    send_start-Mirrors s id content user_id now replace controller model_key near_limit q h
step-Mirrors s (Event.stream t e) q h = on_event-Mirrors e s t h
step-Mirrors s Event.stop q h = record { shows = λ j e n a l. ground (arith, h.shows j e) }
step-Mirrors s (Event.stream_ended t) q h = after_stream-Mirrors s t h
step-Mirrors s (Event.reconciled t answer) q h = reconcile_answer-Mirrors s t answer h
step-Mirrors s (Event.reconcile_waited attempts) q h = reconcile_timer-Mirrors attempts s h

run-Mirrors :
    (s : ConversationState) (es : List Event) → AreTimely s es → Mirrors s → Mirrors (run s es)
unfolding run
run-Mirrors s [] q h = h
run-Mirrors s (e ∷ es) (q, qs) h = run-Mirrors (step s e) es qs (step-Mirrors s e q h)

initial_state-Mirrors : Mirrors initial_state
unfolding initial_state
initial_state-Mirrors = record { shows = λ j e n a l. cc }

-- From the first state, after any handlers in any order, the top-level fields are those of the
-- cache entry of the active conversation, if it has an entry and its id is not empty. The run is
-- timely: where the messages of the active conversation are answered, and where a message is sent
-- on it before it has an entry, the view shows nothing of a stream and holds no abort controller.
-- So no claim is made of a run in which a conversation without an entry is opened while the view
-- holds the controller of another one's stream, and is then answered or written to.
pub view-Mirrors : (es : List Event) → AreTimely initial_state es → Mirrors (run initial_state es)
view-Mirrors es q = run-Mirrors initial_state es q initial_state-Mirrors

select_at_keeps :
    (s : ConversationState) (id : String) (d : Assoc ConvCacheEntry) (o : Option ConvCacheEntry)
    → o ≡ none
    → ((select_at s id d o).active_id ≡ some id)
      × ((select_at s id d o).abort_controller ≡ s.abort_controller)
unfolding select_at load_conversation_detail post
select_at_keeps s id d o h = ground arith

select_start_keeps :
    (s : ConversationState) (id : String)
    → lookup id (save_active_view_to_cache s) ≡ none
    → ((select_start s id).active_id ≡ some id)
      × ((select_start s id).abort_controller ≡ s.abort_controller)
unfolding select_start save_active_view_to_cache
select_start_keeps s id u =
    let t = record s { transient_prefetch_claims = without id s.transient_prefetch_claims } in
    select_at_keeps t id (save_active t t.active_id) (lookup id (save_active t t.active_id)) u

select_done_keeps :
    (s : ConversationState) (id : String) (messages : List Message)
    → ((select_done s id messages).active_id ≡ s.active_id)
      × ((select_done s id messages).abort_controller ≡ s.abort_controller)
      × (lookup id (select_done s id messages).conv_cache ≡ some (empty_cache_entry messages))
unfolding select_done
select_done_keeps s id messages = (
  ground arith,
  ground arith,
  ground (arith, lookup-insert id id (empty_cache_entry messages) s.conv_cache, eq_refl id),
)

-- Where the view has an abort controller, opening a conversation that has no entry leaves it
-- there: once the answer has come, the conversation is active, the view has the old controller,
-- and the new entry has none.
pub select-stale_controller :
    (s : ConversationState) (id : String) (detail : ConversationDetail) (c : ℕ)
    → s.abort_controller ≡ some c
    → lookup id (save_active_view_to_cache s) ≡ none
    → let t =
        run s (Event.select id ∷ Event.loaded id detail ∷ Event.selected id detail.messages ∷ []) in
      (t.active_id ≡ some id)
      × (t.abort_controller ≡ some c)
      × (lookup id t.conv_cache ≡ some (empty_cache_entry detail.messages))
unfolding run step detail_loaded post
select-stale_controller s id detail c h u =
    let (a, b) = select_start_keeps s id u in
    let (x, y, z) =
      select_done_keeps (detail_loaded (select_start s id) id detail) id detail.messages in
    (x ∙ a, y ∙ b ∙ h, z)
