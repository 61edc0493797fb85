-- ===== src/ConversationStore/Mirror/Turns.antt =====
-- The stretches of `sendMessage` (conversationStore.ts) keep the view and the active entry equal.
use encore_hub.Shared.{
  ltb, ℕ, max, ◌≡◌, ◌∙◌, ap, sym, inl, inr, Bool-cases, String, Bool, false, not, ◌&&◌, Option,
  none, some, List, [], ◌∷◌, ◌++◌, lookup, insert, is_some, or_else, str_eq, if◌then◌else◌, arith,
  eq_iff,
}
use encore_hub.Models.{Message}
use encore_hub.ConversationStore.State.{
  ConvCacheEntry, ConversationState, UsageStatus, stopped, completed, failed, empty_cache_entry,
  current_view_entry, post, toast_error, learn_from_snapshot,
}
use encore_hub.ConversationStore.Cache.{Patch, cache_update}
use encore_hub.ConversationStore.Browse.{
  load_list_start, summarize_start, entry_messages, new_conversation_draft_key,
}
use encore_hub.ConversationStore.Edit.{clear_conversation_draft}
use encore_hub.ConversationStore.Turn.{
  Turn, StreamEvent, StreamDone, StreamError, settled, turn_started, delta, reasoning, tool_call,
  tool_result, usage, telemetry, warning, title_update, title_error, done, error, send_start,
  send_optimistic, ensure_cache_entry, record_turn_usage, patch_entry, apply_done, on_done,
  apply_error, error_patch, stopped_turn, on_event, begin_summary, is_aborted, after_stream,
  is_reconciled, reconcile_answer, reconcile_attempts, reconcile_timer, streaming_patch,
  user_message,
}
use encore_hub.ConversationStore.Growth.{is_cached}
use encore_hub.ConversationStore.Mirror.{
  Mirrors, Mirrors-if, Mirrors-post, cache_update-Mirrors, IsQuiet, insert_hit, insert_miss,
}

Mirrors-list : {s : ConversationState} → Mirrors s → Mirrors (load_list_start s)
unfolding load_list_start current_view_entry
Mirrors-list h = record { shows = h.shows }

patch_entry-Mirrors :
    (s : ConversationState) (id : String) (patch : ConvCacheEntry → Patch)
    → Mirrors s
    → Mirrors (patch_entry s id patch)
unfolding patch_entry
patch_entry-Mirrors s id patch h = go (lookup id s.conv_cache)
  where
    go :
        (o : Option ConvCacheEntry)
        → Mirrors (elim o [ none ↦ s | some entry ↦ cache_update s id (patch entry) ])
    go none = h
    go (some entry) = cache_update-Mirrors s id (patch entry) h

record_turn_usage-Mirrors :
    (s : ConversationState) (t : Turn) (status : UsageStatus)
    → Mirrors s
    → Mirrors (record_turn_usage s t status).0
unfolding record_turn_usage
record_turn_usage-Mirrors s t status h = elim (Bool-cases t.usage_recorded) [
  | inl e ↦ rw e h
  | inr e ↦ rw e (Mirrors-post _ h)
]

apply_done-Mirrors :
    (s : ConversationState) (t : Turn) (result : StreamDone)
    → Mirrors s
    → Mirrors (apply_done s t result).0
unfolding apply_done
apply_done-Mirrors s t result h = Mirrors-list (patch_entry-Mirrors s t.conv_id _ h)

pub begin_summary-Mirrors :
    (s : ConversationState) (id : String)
    → Mirrors s
    → Mirrors (begin_summary s id (summarize_start s id))
unfolding begin_summary summarize_start post current_view_entry
begin_summary-Mirrors s id h = record { shows = λ j e n a l. ground (arith, h.shows j e) }

on_done-Mirrors :
    (s : ConversationState) (t : Turn) (result : StreamDone) (summarized : Bool)
    → Mirrors s
    → Mirrors (on_done s t result summarized).0
unfolding on_done
on_done-Mirrors s t result summarized h =
    let counted = record t {
      usage_input_tokens = max t.usage_input_tokens result.input_tokens;
      usage_output_tokens = max t.usage_output_tokens result.output_tokens;
    } in
    let (s1, t1) = record_turn_usage s counted completed in
    let (s2, t2) = apply_done s1 t1 result in
    let s3 =
      post s2
        (learn_from_snapshot t.model_key (entry_messages (lookup t.conv_id s2.conv_cache) [])) in
    let g : Mirrors s3 =
      Mirrors-post _
        (apply_done-Mirrors s1 t1 result (record_turn_usage-Mirrors s counted completed h)) in
    Mirrors-if (t.near_limit && not summarized) (begin_summary-Mirrors s3 t.conv_id g) g

apply_error-Mirrors :
    (s : ConversationState) (t : Turn) (e : StreamError) → Mirrors s → Mirrors (apply_error s t e).0
unfolding apply_error current_view_entry
apply_error-Mirrors s t e h =
    let g = patch_entry-Mirrors s t.conv_id (error_patch t e) h in
    Mirrors-post (toast_error e.message) (record { shows = g.shows })

pub on_event-Mirrors :
    (e : StreamEvent) (s : ConversationState) (t : Turn) → Mirrors s → Mirrors (on_event e s t).0
unfolding on_event current_view_entry
on_event-Mirrors (turn_started m) s t h = patch_entry-Mirrors s t.conv_id _ h
on_event-Mirrors (delta text) s t h = patch_entry-Mirrors s t.conv_id _ h
on_event-Mirrors (reasoning chunk) s t h = patch_entry-Mirrors s t.conv_id _ h
on_event-Mirrors (tool_call f) s t h = patch_entry-Mirrors s t.conv_id _ h
on_event-Mirrors (tool_result id result status) s t h = patch_entry-Mirrors s t.conv_id _ h
on_event-Mirrors (usage input output) s t h = h
on_event-Mirrors (telemetry d) s t h = patch_entry-Mirrors s t.conv_id _ h
on_event-Mirrors (warning msg) s t h = Mirrors-post _ h
on_event-Mirrors (title_update id title) s t h =
    Mirrors-if (str_eq id t.conv_id) (record { shows = h.shows }) h
on_event-Mirrors (title_error msg) s t h = Mirrors-post _ h
on_event-Mirrors (done result summarized) s t h = on_done-Mirrors s t result summarized h
on_event-Mirrors (error e) s t h =
    let status = if str_eq e.code "stopped" then stopped else failed in
    let (s1, t1) = record_turn_usage s t status in
    apply_error-Mirrors s1 t1 e (record_turn_usage-Mirrors s t status h)

-- Sending on a conversation with no entry wants a quiet view, since the new entry is quiet.
new_entry-Mirrors :
    (s : ConversationState) (id : String)
    → (s.active_id ≡ some id → IsQuiet s)
    → Mirrors s
    → Mirrors (record s { conv_cache = insert id (empty_cache_entry s.messages) s.conv_cache })
unfolding current_view_entry
new_entry-Mirrors s id quiet h = record {
  shows = λ j e named a l. elim (Bool-cases (str_eq id j)) [
    | inl y ↦
        let same = (eq_iff id j).0 y in
        quiet (rw same a) ∙ insert_hit id j (empty_cache_entry s.messages) s.conv_cache same l
    | inr n ↦ h.shows j e named a (
        insert_miss id j (empty_cache_entry s.messages) s.conv_cache
          (λ p. ground (arith, eq_iff id j)) l)
  ];
}

ensure_cache_entry-Mirrors :
    (s : ConversationState) (id : String)
    → (s.active_id ≡ some id → is_cached s id ≡ false → IsQuiet s)
    → Mirrors s
    → Mirrors (ensure_cache_entry s id)
unfolding ensure_cache_entry
ensure_cache_entry-Mirrors s id quiet h = elim (Bool-cases (is_some (lookup id s.conv_cache))) [
  | inl e ↦ rw e h
  | inr e ↦ rw e (new_entry-Mirrors s id (λ a. quiet a e) h)
]

send_optimistic-Mirrors :
    (s : ConversationState) (id content user_id : String) (now : ℕ) (replace : Option String)
    (controller : ℕ) (model_key : String) (near_limit : Bool) (base : Option (List Message))
    → Mirrors s
    → Mirrors
        (send_optimistic s id content user_id now replace controller model_key near_limit base).0
unfolding send_optimistic current_view_entry
send_optimistic-Mirrors s id content user_id now replace controller model_key near_limit none h = h
send_optimistic-Mirrors s id content user_id now replace controller model_key near_limit (some base)
      h =
    let g =
      cache_update-Mirrors s id
        (streaming_patch (base ++ user_message user_id now content ∷ []) controller) h in
    Mirrors-post _ (record { shows = g.shows })

clear_draft_fields :
    (s : ConversationState) (id : String)
    → let t = clear_conversation_draft s (some id) in
      (t.active_id ≡ s.active_id)
      × (t.conv_cache ≡ s.conv_cache)
      × (t.messages ≡ s.messages)
      × (current_view_entry t ≡ current_view_entry s)
unfolding clear_conversation_draft current_view_entry
clear_draft_fields s id = ground arith

pub clear_conversation_draft-Mirrors :
    (s : ConversationState) (id : Option String)
    → Mirrors s
    → Mirrors (clear_conversation_draft s id)
unfolding clear_conversation_draft current_view_entry
clear_conversation_draft-Mirrors s id h =
    Mirrors-if (is_some (lookup (or_else id new_conversation_draft_key) s.drafts))
      (record { shows = h.shows }) h

module _ (s : ConversationState) (id content user_id : String) (now : ℕ) (replace : Option String)
    (controller : ℕ) (model_key : String) (near_limit : Bool)
    (quiet : s.active_id ≡ some id → is_cached s id ≡ false → IsQuiet s) where
  drafted-IsQuiet :
      let t = clear_conversation_draft s (some id) in
      t.active_id ≡ some id → is_cached t id ≡ false → IsQuiet t
  drafted-IsQuiet a c =
      let (same_id, same_cache, same_messages, same_view) = clear_draft_fields s id in
      same_view
      ∙ quiet (sym same_id ∙ a) (rw (← same_cache) c)
      ∙ ap empty_cache_entry (sym same_messages)

  pub send_start-Mirrors :
      Mirrors s
      → Mirrors (send_start s id content user_id now replace controller model_key near_limit).0
  unfolding send_start
  send_start-Mirrors h =
      let t = clear_conversation_draft s (some id) in
      send_optimistic-Mirrors (ensure_cache_entry t id) id content user_id now replace controller
        model_key near_limit _
        (ensure_cache_entry-Mirrors t id drafted-IsQuiet
          (clear_conversation_draft-Mirrors s (some id) h))

stopped_turn-Mirrors : (s : ConversationState) (t : Turn) → Mirrors s → Mirrors (stopped_turn s t).0
unfolding stopped_turn
stopped_turn-Mirrors s t h =
    cache_update-Mirrors _ t.conv_id (settled none) (record_turn_usage-Mirrors s t stopped h)

pub after_stream-Mirrors :
    (s : ConversationState) (t : Turn) → Mirrors s → Mirrors (after_stream s t).0
unfolding after_stream
after_stream-Mirrors s t h = elim (Bool-cases (is_aborted t.controller s.aborted)) [
  | inl e ↦ rw e (stopped_turn-Mirrors s t h)
  | inr e ↦ rw e h
]

pub reconcile_answer-Mirrors :
    (s : ConversationState) (t : Turn) (answer : Option (List Message))
    → Mirrors s
    → Mirrors (reconcile_answer s t answer).0
unfolding reconcile_answer
reconcile_answer-Mirrors s t none h = Mirrors-list h
reconcile_answer-Mirrors s t (some messages) h =
    let g = cache_update-Mirrors s t.conv_id (settled (some messages)) h in
    elim (Bool-cases (is_reconciled t.authoritative_turn_id messages)) [
      | inl y ↦ rw y (Mirrors-list g)
      | inr n ↦ rw n g
    ]

pub reconcile_timer-Mirrors :
    (attempts : ℕ) (s : ConversationState) → Mirrors s → Mirrors (reconcile_timer attempts s).0
unfolding reconcile_timer
reconcile_timer-Mirrors attempts s h = elim (Bool-cases (ltb attempts reconcile_attempts)) [
  | inl y ↦ rw y h
  | inr n ↦ rw n (Mirrors-list h)
]
