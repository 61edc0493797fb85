-- ===== src/ConversationStore/Mirror/Handlers.antt =====
-- The handlers that open, create, delete and prefetch conversations, delete messages and push
-- notes (conversationStore.ts) keep the view and the active entry equal.
use encore_hub.Shared.{
  ℕ, String, Bool, Bool-cases, true, false, not, ◌||◌, ◌≡◌, ◌≢◌, ◌∙◌, ap, refl, inl, inr, Option,
  none, some, List, [], ◌∷◌, ◌++◌, lookup, remove, mem, add, without, is_empty, is_some, opt_is,
  arith, lookup-remove,
}
use encore_hub.Models.{Message, Conversation}
use encore_hub.ConversationStore.State.{
  ConvCacheEntry, ConversationState, current_view_entry, empty_cache_entry, toast_error,
}
use encore_hub.ConversationStore.Cache.{no_patch, save_active, save_active_view_to_cache}
use encore_hub.ConversationStore.Browse.{
  load_conversation_detail, prefetch_start, prefetch_done, release_prefetch, select_at,
  select_start, select_done, select_failed, new_conversation_done, delete_conversation_done,
  entry_messages, load_list_start,
}
use encore_hub.ConversationStore.Edit.{
  delete_message_done, without_removed, push_system_message, push_at, system_message,
}
use encore_hub.ConversationStore.Mirror.{
  Mirrors, Mirrors-if, Mirrors-post, cache_update-Mirrors, other_patch-Mirrors, IsQuiet, insert_hit,
  opt_is-some,
}

load_conversation_detail-Mirrors :
    (s : ConversationState) (id : String) → Mirrors s → Mirrors (load_conversation_detail s id)
unfolding load_conversation_detail current_view_entry
load_conversation_detail-Mirrors s id h =
    Mirrors-if (mem id s.conversation_loads) h (Mirrors-post _ (record { shows = h.shows }))

pub prefetch_start-Mirrors :
    (s : ConversationState) (id : String) → Mirrors s → Mirrors (prefetch_start s id)
unfolding prefetch_start current_view_entry
prefetch_start-Mirrors s id h =
    Mirrors-if (is_empty id || opt_is s.active_id id || is_some (lookup id s.conv_cache)) h (
      load_conversation_detail-Mirrors
        (record s { transient_prefetch_claims = add id s.transient_prefetch_claims }) id
        (record { shows = h.shows }))

or_false : (a b : Bool) → (a || b) ≡ false → b ≡ false
or_false a b h = ground arith

pub prefetch_done-Mirrors :
    (s : ConversationState) (id : String) (messages : List Message)
    → Mirrors s
    → Mirrors (prefetch_done s id messages)
unfolding prefetch_done current_view_entry
prefetch_done-Mirrors s id messages h =
    let guard = not (mem id s.transient_prefetch_claims) || opt_is s.active_id id in
    elim (Bool-cases guard) [
      | inl e ↦ rw e h
      | inr e ↦ rw e (
          Mirrors-if (is_some (lookup id s.conv_cache)) h (record {
            shows =
                (other_patch-Mirrors s id (empty_cache_entry messages) (or_false _ _ e) h).shows;
          }))
    ]

-- Dropping the entry of another conversation.
remove_other :
    (s : ConversationState) (id j : String) {e : ConvCacheEntry}
    → lookup j (remove id s.conv_cache) ≡ some e
    → lookup j s.conv_cache ≡ some e
remove_other s id j l = ground (arith, lookup-remove id j s.conv_cache)

pub release_prefetch-Mirrors :
    (s : ConversationState) (id : String) → Mirrors s → Mirrors (release_prefetch s id)
unfolding release_prefetch current_view_entry
release_prefetch-Mirrors s id h =
    Mirrors-if (not (mem id s.prefetched_conversation_ids) || opt_is s.active_id id)
      (record { shows = h.shows })
      (record { shows = λ j e named a l. h.shows j e named a (remove_other s id j l) })

-- Opening a conversation shows its entry, whatever the view was.
select_at-Mirrors :
    (s : ConversationState) (id : String) (o : Option ConvCacheEntry)
    → lookup id (save_active s s.active_id) ≡ o
    → Mirrors (select_at s id (save_active s s.active_id) o)
unfolding select_at current_view_entry
select_at-Mirrors s id none found =
    load_conversation_detail-Mirrors _ id (record { shows = λ j e named a l. cc })
select_at-Mirrors s id (some cached) found = record { shows = λ j e named a l. cc }

pub select_start-Mirrors : (s : ConversationState) (id : String) → Mirrors (select_start s id)
unfolding select_start save_active_view_to_cache
select_start-Mirrors s id =
    let t = record s { transient_prefetch_claims = without id s.transient_prefetch_claims } in
    select_at-Mirrors t id (lookup id (save_active t t.active_id)) refl

-- An answer that arrives for the active conversation replaces its entry by a quiet one.
pub select_done-Mirrors :
    (s : ConversationState) (id : String) (messages : List Message)
    → (s.active_id ≡ some id → IsQuiet s)
    → Mirrors s
    → Mirrors (select_done s id messages)
unfolding select_done current_view_entry empty_cache_entry
select_done-Mirrors s id messages quiet h = elim (Bool-cases (opt_is s.active_id id)) [
  | inl y ↦ rw y (record {
    shows = λ j e named a l.
        let same = opt_is-some s.active_id id j y a in
        ap (λ (v : ConvCacheEntry). record v { messages = messages }) (quiet (rw same a))
        ∙ insert_hit id j (empty_cache_entry messages) s.conv_cache same l;
  })
  | inr n ↦
      rw n (record { shows = (other_patch-Mirrors s id (empty_cache_entry messages) n h).shows })
]

pub select_failed-Mirrors :
    (s : ConversationState) (id : String) → Mirrors s → Mirrors (select_failed s id)
unfolding select_failed current_view_entry
select_failed-Mirrors s id h =
    Mirrors-post (toast_error "conversation.loadFailed")
      (Mirrors-if (opt_is s.active_id id) (record { shows = h.shows }) h)

pub new_conversation_done-Mirrors :
    (s : ConversationState) (migrate : Bool) (conv : Conversation)
    → Mirrors (new_conversation_done s migrate conv)
unfolding new_conversation_done current_view_entry empty_cache_entry
new_conversation_done-Mirrors s migrate conv = record {
  shows = λ j e named a l.
      insert_hit conv.id j (empty_cache_entry []) (save_active_view_to_cache s) (cc) l;
}

pub delete_conversation_done-Mirrors :
    (s : ConversationState) (id : String) → Mirrors s → Mirrors (delete_conversation_done s id)
unfolding delete_conversation_done load_list_start current_view_entry
delete_conversation_done-Mirrors s id h = elim (Bool-cases (opt_is s.active_id id)) [
  | inl y ↦ rw y (record { shows = λ j e named a l. cc })
  | inr n ↦ rw n (record { shows = λ j e named a l. h.shows j e named a (remove_other s id j l) })
]

pub delete_message_done-Mirrors :
    (s : ConversationState) (active id : String)
    → Mirrors s
    → Mirrors (delete_message_done s active id)
unfolding delete_message_done load_list_start current_view_entry
delete_message_done-Mirrors s active id h =
    let p = record no_patch {
      messages = some (without_removed id (entry_messages (lookup active s.conv_cache) s.messages));
    } in
    let g = cache_update-Mirrors s active p h in
    elim (Bool-cases (opt_is s.editing_message_id id)) [
      | inl y ↦ rw y (record { shows = g.shows })
      | inr n ↦ rw n (record { shows = g.shows })
    ]

-- `if (!activeId)`: the note goes to the view alone.
push_to_view-Mirrors :
    (s : ConversationState) (m : Message)
    → ((j : String) → j ≢ "" → s.active_id ≢ some j)
    → Mirrors (record s { messages = s.messages ++ m ∷ [] })
push_to_view-Mirrors s m inactive = record { shows = λ j e named a l. absurd (inactive j named a) }

eq_empty : (id : String) → is_empty id ≡ true → id ≡ ""
eq_empty String.[] h = refl
eq_empty (String.◌∷◌ c s) h = cc

push_at-Mirrors :
    (s : ConversationState) (m : Message) (o : Option String)
    → s.active_id ≡ o
    → Mirrors s
    → Mirrors (push_at s m o)
push_at-Mirrors s m none active h = push_to_view-Mirrors s m (λ j named a. cc)
push_at-Mirrors s m (some id) active h = elim (Bool-cases (is_empty id)) [
  | inl y ↦ rw y (push_to_view-Mirrors s m (λ j named a. ground (arith, named, eq_empty id)))
  | inr n ↦ rw n (cache_update-Mirrors s id _ h)
]

pub push_system_message-Mirrors :
    (s : ConversationState) (stamp : String) (now : ℕ) (content : String)
    → Mirrors s
    → Mirrors (push_system_message s stamp now content)
unfolding push_system_message
push_system_message-Mirrors s stamp now content h =
    push_at-Mirrors s (system_message stamp now content) s.active_id refl h
