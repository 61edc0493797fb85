-- ===== src/ConversationStore/Turn/Stream.antt =====
-- The callbacks of a stream (`sendMessage` of conversationStore.ts) and the usage log.
use Prim.Native.String
use encore_hub.Shared.{
  ◌+◌, max, String, Bool, true, not, ◌&&◌, Option, none, some, List, [], ◌∷◌, map, lookup, keep,
  or_else, str_eq, if◌then◌else◌,
}
use encore_hub.Models.{Message}
use encore_hub.ConversationStore.State.{
  ConvCacheEntry, ConversationState, UsageStatus, completed, failed, stopped, toast_error,
  toast_warning, record_usage, learn_from_snapshot, summarize_context, post,
}
use encore_hub.ConversationStore.Cache.{Patch, no_patch, cache_update, reconcile_turn_messages}
use encore_hub.ConversationStore.Browse.{load_list_start, entry_messages, summarize_start}
use encore_hub.ConversationStore.Edit.{map_id, find_id, title_of}
use encore_hub.ConversationStore.Turn.Types.{
  Turn, StreamDone, StreamError, StreamEvent, turn_started, delta, reasoning, tool_call,
  tool_result, usage, telemetry, warning, title_update, title_error, done, error, settled,
}
use encore_hub.ConversationStore.Turn.Calls.{truthy, apply_fragment, apply_result}

-- `recordTurnUsage`: at most one record for a turn.
unfoldable pub record_turn_usage : ConversationState → Turn → UsageStatus → ConversationState × Turn
record_turn_usage s t status = if t.usage_recorded then (s, t) else (
  post s (
      record_usage t.conv_id (or_else (title_of (find_id t.conv_id s.conversations)) "Conversation")
        t.usage_input_tokens t.usage_output_tokens t.usage_duration_ms status),
  record t { usage_recorded = true },
)

-- `const entry = s.convCache[convId]; if (!entry) return {}; return cacheUpdate(…)`
unfoldable pub patch_entry :
    ConversationState → String → (ConvCacheEntry → Patch) → ConversationState
patch_entry s id patch = elim (lookup id s.conv_cache) [
  | none ↦ s
  | some entry ↦ cache_update s id (patch entry)
]

unfoldable pub apply_done : ConversationState → Turn → StreamDone → ConversationState × Turn
unfolding patch_entry load_list_start
apply_done s t result = (
  load_list_start (
      patch_entry s t.conv_id (λ entry. settled (
        some (
          reconcile_turn_messages entry.messages t.optimistic_id result.user_message
            result.assistant_message)))),
  record t { authoritative_turn_id = some result.user_message.id },
)

-- `summarizeContext` up to its request.
unfoldable pub begin_summary :
    ConversationState → String → Option (ConversationState × List Message) → ConversationState
begin_summary s id none = s
begin_summary s id (some (marked, messages)) = post marked (summarize_context id)

unfoldable pub on_done : ConversationState → Turn → StreamDone → Bool → ConversationState × Turn
unfolding record_turn_usage apply_done begin_summary
on_done s t result summarized =
    let counted = record t {
      usage_input_tokens = max t.usage_input_tokens result.input_tokens;
      usage_output_tokens = max t.usage_output_tokens result.output_tokens;
    } in
    let (s1, t1) = record_turn_usage s counted completed in
    let (s2, t2) = apply_done s1 t1 result in
    let s3 =
      post s2
        (learn_from_snapshot t.model_key (entry_messages (lookup t.conv_id s2.conv_cache) [])) in
    (
      if t.near_limit && not summarized
          then begin_summary s3 t.conv_id (summarize_start s3 t.conv_id)
          else s3,
      t2,
    )

-- The messages after an error: the turn that the Gateway persisted, or those before the turn if it
-- never began.
abbrev pub error_messages : Turn → StreamError → List Message → Option Message → List Message
error_messages t e shown (some persisted) =
    reconcile_turn_messages shown t.optimistic_id persisted e.assistant_message
error_messages t e shown none =
    if truthy t.authoritative_turn_id
    then shown
    else if t.replaces
    then t.previous_messages
    else keep (λ m. not (str_eq m.id t.optimistic_id)) shown

abbrev pub persisted_id : Option Message → Option String → Option String
persisted_id none known = known
persisted_id (some m) known = some m.id

abbrev pub error_turn : Turn → StreamError → Turn
error_turn t e = record t {
  should_reconcile = true;
  authoritative_turn_id = persisted_id e.user_message t.authoritative_turn_id;
}

abbrev pub error_patch : Turn → StreamError → ConvCacheEntry → Patch
error_patch t e entry =
    settled (some (error_messages (error_turn t e) e entry.messages e.user_message))

unfoldable pub apply_error : ConversationState → Turn → StreamError → ConversationState × Turn
unfolding patch_entry
apply_error s t e =
    let shown = patch_entry s t.conv_id (error_patch t e) in
    (post (record shown { error = some e.message }) (toast_error e.message), error_turn t e)

-- One callback.
unfoldable pub on_event : StreamEvent → ConversationState → Turn → ConversationState × Turn
unfolding patch_entry apply_fragment apply_result on_done apply_error record_turn_usage
on_event (turn_started persisted) s t = (
  patch_entry s t.conv_id (λ entry. record no_patch {
    messages = some (reconcile_turn_messages entry.messages t.optimistic_id persisted none);
  }),
  record t { authoritative_turn_id = some persisted.id },
)
on_event (delta text) s t = (
  patch_entry s t.conv_id (λ entry. record no_patch {
    streaming_content = some (String.◌++◌ entry.streaming_content text);
  }),
  t,
)
on_event (reasoning chunk) s t = (
  patch_entry s t.conv_id (λ entry. record no_patch {
    streaming_reasoning = some (String.◌++◌ entry.streaming_reasoning chunk);
  }),
  t,
)
on_event (tool_call f) s t = (
  patch_entry s t.conv_id (λ entry. record no_patch {
    streaming_tool_calls = some (apply_fragment entry.streaming_tool_calls f);
  }),
  t,
)
on_event (tool_result id result status) s t = (
  patch_entry s t.conv_id (λ entry. record no_patch {
    streaming_tool_calls = some (map (apply_result id result status) entry.streaming_tool_calls);
  }),
  t,
)
on_event (usage input output) s t = (
  s,
  record t {
    usage_input_tokens = t.usage_input_tokens + input;
    usage_output_tokens = t.usage_output_tokens + output;
  },
)
on_event (telemetry duration_ms) s t = (
  patch_entry s t.conv_id (λ entry. record no_patch {
    streaming_duration_ms = some (max entry.streaming_duration_ms duration_ms);
  }),
  record t { usage_duration_ms = max t.usage_duration_ms duration_ms },
)
on_event (warning msg) s t = (post s (toast_warning msg 6000), t)
on_event (title_update id title) s t = (
  if str_eq id t.conv_id
      then record s { conversations = map_id id (λ c. record c { title = title }) s.conversations }
      else s,
  t,
)
on_event (title_error msg) s t = (post s (toast_error msg), t)
on_event (done result summarized) s t = on_done s t result summarized
on_event (error e) s t =
    let (s1, t1) = record_turn_usage s t (if str_eq e.code "stopped" then stopped else failed) in
    apply_error s1 t1 e

-- The callbacks of a stream in the order in which they are made.
unfoldable pub run_stream : List StreamEvent → ConversationState → Turn → ConversationState × Turn
run_stream [] s t = (s, t)
run_stream (e ∷ es) s t = let (s', t') = on_event e s t in run_stream es s' t'
