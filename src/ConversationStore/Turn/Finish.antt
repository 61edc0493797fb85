-- ===== src/ConversationStore/Turn/Finish.antt =====
-- What follows a stream (`sendMessage` and `stopStreaming` of conversationStore.ts).
use encore_hub.Shared.{
  ℕ, String, Bool, true, false, not, ◌||◌, Option, none, some, List, lookup, any, find, is_empty,
  ltb, str_eq, ◌==◌, if◌then◌else◌,
}
use encore_hub.Models.{Message, is_pending}
use encore_hub.ConversationStore.State.{ConvCacheEntry, ConversationState, stopped}
use encore_hub.ConversationStore.Cache.{cache_update}
use encore_hub.ConversationStore.Browse.{load_list_start, abort_option}
use encore_hub.ConversationStore.Turn.Types.{Turn, settled}
use encore_hub.ConversationStore.Turn.Stream.{record_turn_usage}

-- `stopStreaming`
abbrev abort_entry : ConversationState → Option ConvCacheEntry → ConversationState
abort_entry s none = s
abort_entry s (some entry) = record s { aborted = abort_option entry.abort_controller s.aborted }

abbrev stop_at : ConversationState → Option String → ConversationState
stop_at s none = s
stop_at s (some id) = if is_empty id then s else abort_entry s (lookup id s.conv_cache)

unfoldable pub stop_streaming : ConversationState → ConversationState
unfolding abort_option
stop_streaming s = stop_at s s.active_id

-- `controller.signal.aborted`
unfoldable pub is_aborted : ℕ → List ℕ → Bool
is_aborted c aborted = any (λ a. a == c) aborted

-- What follows the stream, up to the reconciliation.
unfoldable pub stopped_turn : ConversationState → Turn → ConversationState × Turn
stopped_turn s t =
    let (s1, t1) = record_turn_usage s t stopped in
    (cache_update s1 t.conv_id (settled none), record t1 { should_reconcile = true })

unfoldable pub after_stream : ConversationState → Turn → ConversationState × Turn
after_stream s t = if is_aborted t.controller s.aborted then stopped_turn s t else (s, t)

abbrev terminal_at : Option Message → Bool
terminal_at none = false
terminal_at (some m) = not (is_pending m.status)

-- The turn is over: no id is known, or the Engine shows it in a terminal state.
unfoldable pub is_reconciled : Option String → List Message → Bool
is_reconciled none messages = true
is_reconciled (some id) messages = is_empty id || terminal_at (find (λ m. str_eq m.id id) messages)

-- One answer to the request of `reconcileFromEngine`, none where it fails, and whether sendMessage
-- is over: it loads the list then, and else waits for the timer.
unfoldable pub reconcile_answer :
    ConversationState → Turn → Option (List Message) → ConversationState × Bool
unfolding is_reconciled load_list_start
reconcile_answer s t none = (load_list_start s, true)
reconcile_answer s t (some messages) =
    let shown = cache_update s t.conv_id (settled (some messages)) in
    if is_reconciled t.authoritative_turn_id messages
    then (load_list_start shown, true)
    else (shown, false)

abbrev pub reconcile_attempts : ℕ
reconcile_attempts = 4

-- The timer of 50, 100, 200 or 400 milliseconds behind an attempt, with the number of attempts
-- made: another request is sent, or the loop is over and the list is loaded.
unfoldable pub reconcile_timer : ℕ → ConversationState → ConversationState × Bool
unfolding load_list_start
reconcile_timer attempts s =
    if ltb attempts reconcile_attempts then (s, false) else (load_list_start s, true)
