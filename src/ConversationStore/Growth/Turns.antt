-- ===== src/ConversationStore/Growth/Turns.antt =====
-- The stretches of `sendMessage` (conversationStore.ts) keep every cache entry and every prefetch
-- mark.
use encore_hub.Shared.{
  ltb, ℕ, max, inl, inr, Bool-cases, refl, String, Bool, not, ◌&&◌, Option, none, some, List, [],
  lookup, is_some, str_eq, if◌then◌else◌, arith,
}
use encore_hub.Models.{Message}
use encore_hub.ConversationStore.State.{
  ConvCacheEntry, ConversationState, UsageStatus, stopped, completed, failed, post, toast_error,
  learn_from_snapshot,
}
use encore_hub.ConversationStore.Cache.{Patch, cache_update}
use encore_hub.ConversationStore.Browse.{load_list_start, entry_messages}
use encore_hub.ConversationStore.Edit.{clear_conversation_draft}
use encore_hub.ConversationStore.Turn.{
  Turn, StreamEvent, StreamDone, StreamError, settled, turn_started, delta, reasoning, tool_call,
  tool_result, usage, telemetry, warning, title_update, title_error, done, error, send_start,
  send_optimistic, ensure_cache_entry, record_turn_usage, patch_entry, apply_done, on_done,
  apply_error, error_patch, stopped_turn, on_event, is_aborted, after_stream, is_reconciled,
  reconcile_answer, reconcile_attempts, reconcile_timer,
}
use encore_hub.ConversationStore.Growth.{
  Grows, Grows-refl, Grows-trans, Grows-if, Grows-post, is_cached-insert, cache_update-Grows,
  begin_summary-Grows,
}

-- A state that differs outside the cache and the marks.
Grows-list : {s t : ConversationState} → Grows s t → Grows s (load_list_start t)
unfolding load_list_start
Grows-list g = record { same = g.same; more = g.more }

patch_entry-Grows :
    (s : ConversationState) (id : String) (patch : ConvCacheEntry → Patch)
    → Grows s (patch_entry s id patch)
unfolding patch_entry
patch_entry-Grows s id patch = go (lookup id s.conv_cache)
  where
    go :
        (o : Option ConvCacheEntry)
        → Grows s (elim o [ none ↦ s | some entry ↦ cache_update s id (patch entry) ])
    go none = Grows-refl s
    go (some entry) = cache_update-Grows s id (patch entry)

record_turn_usage-Grows :
    (s : ConversationState) (t : Turn) (status : UsageStatus)
    → Grows s (record_turn_usage s t status).0
unfolding record_turn_usage post
record_turn_usage-Grows s t status = record { same = ground arith; more = λ j h. ground arith }

apply_done-Grows :
    (s : ConversationState) (t : Turn) (result : StreamDone) → Grows s (apply_done s t result).0
unfolding apply_done
apply_done-Grows s t result = Grows-list (patch_entry-Grows s t.conv_id _)

on_done-Grows :
    (s : ConversationState) (t : Turn) (result : StreamDone) (summarized : Bool)
    → Grows s (on_done s t result summarized).0
unfolding on_done
on_done-Grows s t result summarized =
    let counted = record t {
      usage_input_tokens = max t.usage_input_tokens result.input_tokens;
      usage_output_tokens = max t.usage_output_tokens result.output_tokens;
    } in
    let (s1, t1) = record_turn_usage s counted completed in
    let (s2, t2) = apply_done s1 t1 result in
    let s3 =
      post s2
        (learn_from_snapshot t.model_key (entry_messages (lookup t.conv_id s2.conv_cache) [])) in
    let g : Grows s s3 =
      Grows-trans (record_turn_usage-Grows s counted completed)
        (Grows-post _ (apply_done-Grows s1 t1 result)) in
    Grows-if (t.near_limit && not summarized) (Grows-trans g (begin_summary-Grows s3 t.conv_id)) g

apply_error-Grows :
    (s : ConversationState) (t : Turn) (e : StreamError) → Grows s (apply_error s t e).0
unfolding apply_error
apply_error-Grows s t e =
    let g = patch_entry-Grows s t.conv_id (error_patch t e) in
    Grows-post (toast_error e.message) (record { same = g.same; more = g.more })

pub on_event-Grows :
    (e : StreamEvent) (s : ConversationState) (t : Turn) → Grows s (on_event e s t).0
unfolding on_event
on_event-Grows (turn_started m) s t = patch_entry-Grows s t.conv_id _
on_event-Grows (delta text) s t = patch_entry-Grows s t.conv_id _
on_event-Grows (reasoning chunk) s t = patch_entry-Grows s t.conv_id _
on_event-Grows (tool_call f) s t = patch_entry-Grows s t.conv_id _
on_event-Grows (tool_result id result status) s t = patch_entry-Grows s t.conv_id _
on_event-Grows (usage input output) s t = Grows-refl s
on_event-Grows (telemetry d) s t = patch_entry-Grows s t.conv_id _
on_event-Grows (warning msg) s t = Grows-post _ (Grows-refl s)
on_event-Grows (title_update id title) s t =
    Grows-if (str_eq id t.conv_id) (record { same = refl; more = λ j h. h }) (Grows-refl s)
on_event-Grows (title_error msg) s t = Grows-post _ (Grows-refl s)
on_event-Grows (done result summarized) s t = on_done-Grows s t result summarized
on_event-Grows (error e) s t =
    let status = if str_eq e.code "stopped" then stopped else failed in
    let (s1, t1) = record_turn_usage s t status in
    Grows-trans (record_turn_usage-Grows s t status) (apply_error-Grows s1 t1 e)

ensure_cache_entry-Grows : (s : ConversationState) (id : String) → Grows s (ensure_cache_entry s id)
unfolding ensure_cache_entry
ensure_cache_entry-Grows s id =
    Grows-if (is_some (lookup id s.conv_cache)) (Grows-refl s)
      (record { same = refl; more = λ j. is_cached-insert id j _ s })

clear_conversation_draft-Grows :
    (s : ConversationState) (id : Option String) → Grows s (clear_conversation_draft s id)
unfolding clear_conversation_draft
clear_conversation_draft-Grows s id = record { same = ground arith; more = λ j h. ground arith }

send_optimistic-Grows :
    (s : ConversationState) (id content user_id : String) (now : ℕ) (replace : Option String)
    (controller : ℕ) (model_key : String) (near_limit : Bool) (base : Option (List Message))
    → Grows s
        (send_optimistic s id content user_id now replace controller model_key near_limit base).0
unfolding send_optimistic
send_optimistic-Grows s id content user_id now replace controller model_key near_limit none =
    Grows-refl s
send_optimistic-Grows s id content user_id now replace controller model_key near_limit (some base) =
    let g = cache_update-Grows s id _ in Grows-post _ (record { same = g.same; more = g.more })

pub send_start-Grows :
    (s : ConversationState) (id content user_id : String) (now : ℕ) (replace : Option String)
    (controller : ℕ) (model_key : String) (near_limit : Bool)
    → Grows s (send_start s id content user_id now replace controller model_key near_limit).0
unfolding send_start
send_start-Grows s id content user_id now replace controller model_key near_limit =
    Grows-trans (clear_conversation_draft-Grows s (some id)) (
      Grows-trans (ensure_cache_entry-Grows _ id)
        (send_optimistic-Grows _ id content user_id now replace controller model_key near_limit _))

stopped_turn-Grows : (s : ConversationState) (t : Turn) → Grows s (stopped_turn s t).0
unfolding stopped_turn
stopped_turn-Grows s t =
    Grows-trans (record_turn_usage-Grows s t stopped)
      (cache_update-Grows _ t.conv_id (settled none))

pub after_stream-Grows : (s : ConversationState) (t : Turn) → Grows s (after_stream s t).0
unfolding after_stream
after_stream-Grows s t = elim (Bool-cases (is_aborted t.controller s.aborted)) [
  | inl e ↦ rw e (stopped_turn-Grows s t)
  | inr e ↦ rw e (Grows-refl s)
]

pub reconcile_answer-Grows :
    (s : ConversationState) (t : Turn) (answer : Option (List Message))
    → Grows s (reconcile_answer s t answer).0
unfolding reconcile_answer
reconcile_answer-Grows s t none = Grows-list (Grows-refl s)
reconcile_answer-Grows s t (some messages) =
    let g = cache_update-Grows s t.conv_id (settled (some messages)) in
    elim (Bool-cases (is_reconciled t.authoritative_turn_id messages)) [
      | inl y ↦ rw y (Grows-list g)
      | inr n ↦ rw n g
    ]

pub reconcile_timer-Grows :
    (attempts : ℕ) (s : ConversationState) → Grows s (reconcile_timer attempts s).0
unfolding reconcile_timer
reconcile_timer-Grows attempts s = elim (Bool-cases (ltb attempts reconcile_attempts)) [
  | inl y ↦ rw y (Grows-refl s)
  | inr n ↦ rw n (Grows-list (Grows-refl s))
]
