-- ===== src/ConversationStore/Prefetch.antt =====
-- Prefetched conversations and the cache (conversationStore.ts).
use encore_hub.Shared.{
  String, Bool, true, false, not, ◌||◌, ◌≡◌, Option, none, some, List, [], ◌∷◌, lookup, remove, mem,
  without, is_some, opt_is, if◌then◌else◌, arith, lookup-insert, lookup-remove, mem-add,
  mem-without,
}
use encore_hub.Models.{Message}
use encore_hub.ConversationStore.State.{
  ConvCacheEntry, ConversationState, initial_state, post, empty_cache_entry,
}
use encore_hub.ConversationStore.Cache.{save_active_view_to_cache, save_active}
use encore_hub.ConversationStore.Browse.{
  prefetch_done, release_prefetch, select_start, select_at, delete_conversation_done,
  load_list_start, load_list_done, load_list_failed, detail_loaded, detail_failed, prefetch_failed,
  summarize_done, summarize_failed, new_conversation_failed, delete_conversation_start,
  delete_conversation_failed, reload_after_data_change,
}
use encore_hub.ConversationStore.Growth.{
  is_cached, Grows, load_conversation_detail-Grows, save_active-more, prefetch_start-Grows,
  begin_summary-Grows, select_done-Grows, select_failed-Grows, new_conversation_done-Grows,
  rename_start-Grows, model_update_start-Grows, delete_message_done-Grows,
  push_system_message-Grows,
}
use encore_hub.ConversationStore.Growth.Turns.{
  send_start-Grows, on_event-Grows, after_stream-Grows, reconcile_answer-Grows,
  reconcile_timer-Grows,
}
use encore_hub.ConversationStore.Edit.{
  rename_failed, model_update_done, model_update_failed, upgrade_character_done,
  upgrade_character_failed, start_editing_message, cancel_editing_message, submit_edited_message,
  set_draft, append_draft, clear_draft, set_conversation_draft, clear_conversation_draft,
  set_scroll_position, generate_title_done, generate_title_failed, clear_error,
}
use encore_hub.ConversationStore.Turn.{stop_streaming}
use encore_hub.ConversationStore.Events.{Event, step, run}

pub record IsBacked (s : ConversationState) : Type 0 where
  pub backed : (id : String) → mem id s.prefetched_conversation_ids ≡ true → is_cached s id ≡ true

Grows-IsBacked : {s t : ConversationState} → Grows s t → IsBacked s → IsBacked t
Grows-IsBacked g b = record { backed = λ id m. g.more id (b.backed id (rw (← g.same) m)) }

IsBacked-list : {s : ConversationState} → IsBacked s → IsBacked (load_list_start s)
unfolding load_list_start
IsBacked-list h = record { backed = h.backed }

IsBacked-if :
    {s t : ConversationState} (b : Bool) → IsBacked s → IsBacked t → IsBacked (if b then s else t)
IsBacked-if true h k = h
IsBacked-if false h k = k

prefetch_done-IsBacked :
    (s : ConversationState) (id : String) (messages : List Message)
    → IsBacked s
    → IsBacked (prefetch_done s id messages)
unfolding prefetch_done
prefetch_done-IsBacked s id messages h =
    IsBacked-if (not (mem id s.transient_prefetch_claims) || opt_is s.active_id id) h (
      IsBacked-if (is_some (lookup id s.conv_cache)) h (record {
        backed = λ j m.
            rw (lookup-insert id j (empty_cache_entry messages) s.conv_cache)
              (ground (arith, h.backed j, mem-add id j s.prefetched_conversation_ids));
      }))

-- Marks and entries go together.
both_removed :
    (s : ConversationState) (id j : String)
    → IsBacked s
    → mem j (without id s.prefetched_conversation_ids) ≡ true
    → is_some (lookup j (remove id s.conv_cache)) ≡ true
both_removed s id j h m =
    rw (lookup-remove id j s.conv_cache)
      (ground (arith, h.backed j, mem-without id j s.prefetched_conversation_ids))

mark_removed :
    (s : ConversationState) (id j : String)
    → IsBacked s
    → mem j (without id s.prefetched_conversation_ids) ≡ true
    → is_cached s j ≡ true
mark_removed s id j h m = ground (arith, h.backed j, mem-without id j s.prefetched_conversation_ids)

release_prefetch-IsBacked :
    (s : ConversationState) (id : String) → IsBacked s → IsBacked (release_prefetch s id)
unfolding release_prefetch
release_prefetch-IsBacked s id h =
    IsBacked-if (not (mem id s.prefetched_conversation_ids) || opt_is s.active_id id)
      (record { backed = h.backed }) (record { backed = λ j. both_removed s id j h })

select_at-IsBacked :
    (s : ConversationState) (id : String) (o : Option ConvCacheEntry)
    → IsBacked s
    → IsBacked (select_at s id (save_active s s.active_id) o)
unfolding select_at
select_at-IsBacked s id (some cached) h = record {
  backed = λ j m. save_active-more s s.active_id j (mark_removed s id j h m);
}
select_at-IsBacked s id none h =
    Grows-IsBacked (load_conversation_detail-Grows _ id)
      (record { backed = λ j m. save_active-more s s.active_id j (mark_removed s id j h m) })

select_start-IsBacked :
    (s : ConversationState) (id : String) → IsBacked s → IsBacked (select_start s id)
unfolding select_start save_active_view_to_cache
select_start-IsBacked s id h =
    let t = record s { transient_prefetch_claims = without id s.transient_prefetch_claims } in
    select_at-IsBacked t id (lookup id (save_active t t.active_id)) (record { backed = h.backed })

delete_conversation_done-IsBacked :
    (s : ConversationState) (id : String) → IsBacked s → IsBacked (delete_conversation_done s id)
unfolding delete_conversation_done load_list_start
delete_conversation_done-IsBacked s id h = IsBacked-list (
    IsBacked-if (opt_is s.active_id id) (record { backed = λ j. both_removed s id j h })
      (record { backed = λ j. both_removed s id j h }))

-- Every handler, in any state where each mark has an entry, keeps it so.
pub step-IsBacked : (s : ConversationState) (e : Event) → IsBacked s → IsBacked (step s e)
unfolding step post load_list_start load_list_done load_list_failed reload_after_data_change
    detail_loaded detail_failed prefetch_failed summarize_done summarize_failed
    new_conversation_failed delete_conversation_start delete_conversation_failed rename_failed
    model_update_done model_update_failed upgrade_character_done upgrade_character_failed
    start_editing_message cancel_editing_message submit_edited_message set_draft append_draft
    clear_draft set_conversation_draft clear_conversation_draft set_scroll_position
    generate_title_done generate_title_failed clear_error stop_streaming
step-IsBacked s Event.list_start h = record { backed = h.backed }
step-IsBacked s (Event.list_done conversations) h = record { backed = h.backed }
step-IsBacked s Event.list_failed h = record { backed = h.backed }
step-IsBacked s Event.reload h = record { backed = λ j m. cc }
step-IsBacked s (Event.loaded id detail) h = record { backed = h.backed }
step-IsBacked s (Event.load_failed id) h = record { backed = h.backed }
step-IsBacked s (Event.prefetch id) h = Grows-IsBacked (prefetch_start-Grows s id) h
step-IsBacked s (Event.prefetched id messages) h = prefetch_done-IsBacked s id messages h
step-IsBacked s (Event.prefetch_lost id) h = record { backed = h.backed }
step-IsBacked s (Event.release id) h = release_prefetch-IsBacked s id h
step-IsBacked s (Event.summarize id) h = Grows-IsBacked (begin_summary-Grows s id) h
step-IsBacked s (Event.summarized id text keep_recent start_id end_id messages) h = record {
  backed = h.backed;
}
step-IsBacked s (Event.summary_lost id) h = record { backed = h.backed }
step-IsBacked s (Event.select id) h = select_start-IsBacked s id h
step-IsBacked s (Event.selected id messages) h = Grows-IsBacked (select_done-Grows s id messages) h
step-IsBacked s (Event.select_lost id) h = Grows-IsBacked (select_failed-Grows s id) h
step-IsBacked s (Event.created migrate conv) h =
    Grows-IsBacked (new_conversation_done-Grows s migrate conv) h
step-IsBacked s Event.create_lost h = record { backed = h.backed }
step-IsBacked s (Event.delete id) h = record { backed = h.backed }
step-IsBacked s (Event.deleted id) h = delete_conversation_done-IsBacked s id h
step-IsBacked s Event.delete_lost h = record { backed = h.backed }
step-IsBacked s (Event.rename id title) h = Grows-IsBacked (rename_start-Grows s id title) h
step-IsBacked s (Event.rename_lost id prev) h = record { backed = h.backed }
step-IsBacked s (Event.set_model id provider model) h =
    Grows-IsBacked (model_update_start-Grows s id provider model) h
step-IsBacked s (Event.model_set id updated) h = record { backed = h.backed }
step-IsBacked s (Event.model_lost id previous provider model) h = record { backed = h.backed }
step-IsBacked s (Event.upgraded id updated) h = record { backed = h.backed }
step-IsBacked s Event.upgrade_lost h = record { backed = h.backed }
step-IsBacked s (Event.message_deleted active id) h =
    Grows-IsBacked (delete_message_done-Grows s active id) h
step-IsBacked s (Event.edit id) h = record { backed = λ j m. ground (arith, h.backed j) }
step-IsBacked s Event.cancel_edit h = record { backed = h.backed }
step-IsBacked s (Event.submit_edit id content) h = record {
  backed = λ j m. ground (arith, h.backed j);
}
step-IsBacked s (Event.push_system stamp now content) h =
    Grows-IsBacked (push_system_message-Grows s stamp now content) h
step-IsBacked s (Event.draft content) h = record { backed = h.backed }
step-IsBacked s (Event.quote content) h = record { backed = h.backed }
step-IsBacked s Event.drop_draft h = record { backed = h.backed }
step-IsBacked s (Event.save_draft id content) h = record { backed = h.backed }
step-IsBacked s (Event.forget_draft id) h = record { backed = λ j m. ground (arith, h.backed j) }
step-IsBacked s (Event.scroll id scroll_top) h = record {
  backed = λ j m. ground (arith, h.backed j);
}
step-IsBacked s (Event.titled conv) h = record { backed = h.backed }
step-IsBacked s Event.title_lost h = record { backed = h.backed }
step-IsBacked s Event.dismiss_error h = record { backed = h.backed }
step-IsBacked s (Event.send id content user_id now replace controller model_key near_limit) h =
    Grows-IsBacked
      (send_start-Grows s id content user_id now replace controller model_key near_limit) h
step-IsBacked s (Event.stream t e) h = Grows-IsBacked (on_event-Grows e s t) h
step-IsBacked s Event.stop h = record { backed = λ j m. ground (arith, h.backed j) }
step-IsBacked s (Event.stream_ended t) h = Grows-IsBacked (after_stream-Grows s t) h
step-IsBacked s (Event.reconciled t answer) h = Grows-IsBacked (reconcile_answer-Grows s t answer) h
step-IsBacked s (Event.reconcile_waited attempts) h =
    Grows-IsBacked (reconcile_timer-Grows attempts s) h

pub run-IsBacked : (s : ConversationState) (es : List Event) → IsBacked s → IsBacked (run s es)
unfolding run
run-IsBacked s [] h = h
run-IsBacked s (e ∷ es) h = run-IsBacked (step s e) es (step-IsBacked s e h)

initial_state-IsBacked : IsBacked initial_state
unfolding initial_state
initial_state-IsBacked = record { backed = λ j m. cc }

-- From the first state, after any handlers in any order with any answers, a conversation that is
-- marked as prefetched has a cache entry.
pub prefetched-IsBacked : (es : List Event) → IsBacked (run initial_state es)
prefetched-IsBacked es = run-IsBacked initial_state es initial_state-IsBacked
