-- ===== src/ConversationStore/Growth.antt =====
-- Handlers of conversationStore.ts that keep every cache entry and every prefetch mark.
pub mod Turns
use encore_hub.Shared.{
  is_empty, add, ℕ, String, Bool, Bool-cases, true, false, ◌||◌, ◌≡◌, ◌∙◌, refl, inl, inr, Option,
  none, some, List, [], lookup, insert, mem, is_some, opt_is, str_eq, if◌then◌else◌, arith,
  lookup-insert,
}
use encore_hub.Models.{Message, Conversation}
use encore_hub.ConversationStore.State.{
  Call, get_conversation, toast_error, empty_cache_entry, ConvCacheEntry, ConversationState, post,
}
use encore_hub.ConversationStore.Browse.{
  load_conversation_detail, prefetch_start, summarize_start, select_done, select_failed,
  new_conversation_done, entry_messages, load_list_start,
}
use encore_hub.ConversationStore.Edit.{
  rename_start, model_update_start, model_update_previous, delete_message_done, without_removed,
  push_system_message, system_message, push_at,
}
use encore_hub.ConversationStore.Turn.{begin_summary}
use encore_hub.ConversationStore.Cache.{
  no_patch, Patch, cache_update, cache_update_at, save_active_view_to_cache, save_at, save_active,
}

abbrev pub is_cached : ConversationState → String → Bool
is_cached s id = is_some (lookup id s.conv_cache)

-- `t` has the marks of `s`, and at least its entries.
pub record Grows (s t : ConversationState) : Type 0 where
  pub same : t.prefetched_conversation_ids ≡ s.prefetched_conversation_ids
  pub more : (id : String) → is_cached s id ≡ true → is_cached t id ≡ true

pub Grows-refl : (s : ConversationState) → Grows s s
Grows-refl s = record { same = refl; more = λ id h. h }

pub Grows-trans : {s t u : ConversationState} → Grows s t → Grows t u → Grows s u
Grows-trans g h = record { same = h.same ∙ g.same; more = λ id c. h.more id (g.more id c) }

-- A choice between two states that grow from one.
pub Grows-if :
    {s t u : ConversationState} (b : Bool) → Grows s t → Grows s u → Grows s (if b then t else u)
Grows-if true g h = g
Grows-if false g h = h

pub is_cached-insert :
    (k j : String) (v : ConvCacheEntry) (s : ConversationState)
    → is_cached s j ≡ true
    → is_some (lookup j (insert k v s.conv_cache)) ≡ true
is_cached-insert k j v s h = rw (lookup-insert k j v s.conv_cache) (ground arith)

cache_update_at-Grows :
    (s : ConversationState) (id : String) (p : Patch) (o : Option ConvCacheEntry)
    → Grows s (cache_update_at s id p o)
unfolding cache_update_at
cache_update_at-Grows s id p none = Grows-refl s
cache_update_at-Grows s id p (some prev) =
    Grows-if (opt_is s.active_id id) (record { same = refl; more = λ j. is_cached-insert id j _ s })
      (record { same = refl; more = λ j. is_cached-insert id j _ s })

pub cache_update-Grows :
    (s : ConversationState) (id : String) (p : Patch) → Grows s (cache_update s id p)
unfolding cache_update
cache_update-Grows s id p = cache_update_at-Grows s id p (lookup id s.conv_cache)

-- Saving the view keeps every entry.
save_at-more :
    (s : ConversationState) (id j : String) (o : Option ConvCacheEntry)
    → is_cached s j ≡ true
    → is_some (lookup j (save_at s id o)) ≡ true
save_at-more s id j none h = h
save_at-more s id j (some _) h = is_cached-insert id j _ s h

pub save_active-more :
    (s : ConversationState) (o : Option String) (j : String)
    → is_cached s j ≡ true
    → is_some (lookup j (save_active s o)) ≡ true
save_active-more s none j h = h
save_active-more s (some id) j h = elim (Bool-cases (str_eq id "")) [
  | inl e ↦ rw e h
  | inr e ↦ rw e (save_at-more s id j (lookup id s.conv_cache) h)
]

pub Grows-post : {s t : ConversationState} (c : Call) → Grows s t → Grows s (post t c)
unfolding post
Grows-post c g = record { same = g.same; more = g.more }

pub load_conversation_detail-Grows :
    (s : ConversationState) (id : String) → Grows s (load_conversation_detail s id)
unfolding load_conversation_detail
load_conversation_detail-Grows s id =
    Grows-if (mem id s.conversation_loads) (Grows-refl s)
      (Grows-post (get_conversation id) (record { same = refl; more = λ j h. h }))

pub prefetch_start-Grows : (s : ConversationState) (id : String) → Grows s (prefetch_start s id)
unfolding prefetch_start
prefetch_start-Grows s id =
    Grows-if (is_empty id || opt_is s.active_id id || is_some (lookup id s.conv_cache))
      (Grows-refl s)
      (Grows-trans {t = record s { transient_prefetch_claims = add id s.transient_prefetch_claims }}
        (record { same = refl; more = λ j h. h }) (load_conversation_detail-Grows _ id))

pub begin_summary-Grows :
    (s : ConversationState) (id : String) → Grows s (begin_summary s id (summarize_start s id))
unfolding begin_summary summarize_start post
begin_summary-Grows s id = record { same = ground arith; more = λ j h. ground arith }

pub select_done-Grows :
    (s : ConversationState) (id : String) (messages : List Message)
    → Grows s (select_done s id messages)
unfolding select_done
select_done-Grows s id messages =
    Grows-if (opt_is s.active_id id) (record { same = refl; more = λ j. is_cached-insert id j _ s })
      (record { same = refl; more = λ j. is_cached-insert id j _ s })

pub select_failed-Grows : (s : ConversationState) (id : String) → Grows s (select_failed s id)
unfolding select_failed
select_failed-Grows s id =
    Grows-post (toast_error "conversation.loadFailed")
      (Grows-if (opt_is s.active_id id) (record { same = refl; more = λ j h. h }) (Grows-refl s))

pub new_conversation_done-Grows :
    (s : ConversationState) (migrate : Bool) (conv : Conversation)
    → Grows s (new_conversation_done s migrate conv)
unfolding new_conversation_done save_active_view_to_cache
new_conversation_done-Grows s migrate conv = record {
  same = refl;
  more = λ j h.
      is_cached-insert conv.id j (empty_cache_entry [])
        (record s { conv_cache = save_active s s.active_id }) (save_active-more s s.active_id j h);
}

pub rename_start-Grows :
    (s : ConversationState) (id title : String) → Grows s (rename_start s id title).0
unfolding rename_start
rename_start-Grows s id title = record { same = ground arith; more = λ j h. ground arith }

pub model_update_start-Grows :
    (s : ConversationState) (id provider model : String)
    → Grows s (model_update_start s id provider model)
unfolding model_update_start
model_update_start-Grows s id provider model =
    Grows-if (is_some (model_update_previous s id provider model))
      (record { same = refl; more = λ j h. h }) (Grows-refl s)

pub delete_message_done-Grows :
    (s : ConversationState) (active id : String) → Grows s (delete_message_done s active id)
unfolding delete_message_done load_list_start
delete_message_done-Grows s active id =
    let p = record no_patch {
      messages = some (without_removed id (entry_messages (lookup active s.conv_cache) s.messages));
    } in
    let g = cache_update-Grows s active p in
    Grows-trans
      {t = if opt_is s.editing_message_id id
        then record (cache_update s active p) { editing_message_id = none }
        else cache_update s active p}
      (Grows-if (opt_is s.editing_message_id id) (record { same = g.same; more = g.more }) g)
      (record { same = refl; more = λ j h. h })

pub push_system_message-Grows :
    (s : ConversationState) (stamp : String) (now : ℕ) (content : String)
    → Grows s (push_system_message s stamp now content)
unfolding push_system_message
push_system_message-Grows s stamp now content = push (system_message stamp now content) s.active_id
  where
    push : (m : Message) (o : Option String) → Grows s (push_at s m o)
    push m none = record { same = refl; more = λ j h. h }
    push m (some id) =
        Grows-if (is_empty id) (record { same = refl; more = λ j h. h }) (cache_update-Grows s id _)
