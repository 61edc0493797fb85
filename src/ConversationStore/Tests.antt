-- ===== src/ConversationStore/Tests.antt =====
-- A session of conversationStore.ts, and the theorems at it.
use encore_hub.ConversationStore.Browse.{select_done, select_start}
use encore_hub.ConversationStore.Cache.{reconcile_turn_messages, save_active_view_to_cache}
use encore_hub.ConversationStore.Edit.{
  model_update_failed, model_update_previous, model_update_start, rename_failed, rename_start,
  without_removed,
}
use encore_hub.ConversationStore.Events.{Event, run, step}
use encore_hub.ConversationStore.Isolation.{IsApart, run_stream-IsApart}
use encore_hub.ConversationStore.Mirror.{Mirrors}
use encore_hub.ConversationStore.Mirror.Runs.{AreTimely, select-stale_controller, view-Mirrors}
use encore_hub.ConversationStore.Prefetch.{IsBacked, prefetched-IsBacked}
use encore_hub.ConversationStore.Reconcile.{reconcile-reconcile}
use encore_hub.ConversationStore.Removal.{without_removed_lem}
use encore_hub.ConversationStore.Rollback.{model_update-rollback, rename-rollback}
use encore_hub.ConversationStore.State.{
  ConversationDetail, ConversationState, current_view_entry, empty_cache_entry, initial_state, post,
}
use encore_hub.ConversationStore.ToolCalls.{HasDistinctIndices, arguments_at, receive, receive_lem}
use encore_hub.ConversationStore.Turn.{
  StreamDone, StreamEvent, ToolFragment, Turn, after_stream, delta, is_aborted, done, run_stream,
  send_start, turn_started, user_message,
}
use encore_hub.ConversationStore.UsageLog.{count_records, run_stream-records, to_ℕ}
use encore_hub.Models.{Conversation, Message, StreamToolCall, assistant}
use encore_hub.Shared.{
  List, String, [], false, insert, keep, lookup, none, not, opt_is, refl, some, str_eq, trim, true,
  ℕ, ◌+◌, ◌||◌, ◌&&◌, ◌∷◌, ◌≡◌,
}

abbrev hello : Message
hello = user_message "m1" 1 "hello"

abbrev answer : Message
answer = record hello { id = "m2"; role = assistant; content = "hi"; parent_id = some "m1" }

abbrev chat_a : Conversation
chat_a = record {
  id = "a";
  title = "A";
  provider = "p";
  model = "m";
  character_snapshot = none;
  reply_mode = none;
  participants = none;
  group_settings = none;
}

abbrev chat_b : Conversation
chat_b = record chat_a { id = "b"; title = "B" }

abbrev turn : Turn
turn = record {
  conv_id = "a";
  optimistic_id = "user-1";
  previous_messages = [];
  replaces = false;
  controller = 7;
  model_key = "p|m";
  authoritative_turn_id = none;
  should_reconcile = false;
  usage_input_tokens = 0;
  usage_output_tokens = 0;
  usage_duration_ms = 0;
  usage_recorded = false;
  near_limit = false;
}

abbrev finished : StreamDone
finished = record {
  user_message = hello;
  assistant_message = some answer;
  input_tokens = 5;
  output_tokens = 2;
}

abbrev stream_events : List StreamEvent
stream_events = turn_started hello ∷ delta "hi" ∷ done finished false ∷ []

-- A conversation is opened and answered, and a second one is opened meanwhile.
abbrev session : List Event
session =
    Event.select "a"
    ∷ Event.selected "a" []
    ∷ Event.send "a" "hello" "user-1" 1 none 7 "p|m" false
    ∷ Event.stream turn (delta "hi")
    ∷ Event.prefetch "b"
    ∷ Event.prefetched "b" (hello ∷ [])
    ∷ Event.select "b"
    ∷ Event.stream turn (delta "!")
    ∷ Event.select "a"
    ∷ []

session-timely : AreTimely initial_state session
unfolding step initial_state select_start select_done send_start save_active_view_to_cache
    current_view_entry post empty_cache_entry lookup
session-timely = (tt, (λ a. refl, (λ a n. refl, (tt, (tt, (tt, (tt, (tt, (tt, tt)))))))))

view-Mirrors_example : Mirrors (run initial_state session)
view-Mirrors_example = view-Mirrors session session-timely

prefetched-IsBacked_example : IsBacked (run initial_state session)
prefetched-IsBacked_example = prefetched-IsBacked session

-- Two conversations are cached and the second one is shown.
abbrev two_open : ConversationState
two_open = record initial_state {
  active_id = some "b";
  messages = hello ∷ [];
  conversations = chat_a ∷ chat_b ∷ [];
  conv_cache =
      ("a", empty_cache_entry (user_message "user-1" 1 "hello" ∷ []))
      ∷ ("b", empty_cache_entry (hello ∷ []))
      ∷ [];
}

run_stream-IsApart_example : IsApart "a" two_open (run_stream stream_events two_open turn).0
run_stream-IsApart_example = run_stream-IsApart stream_events two_open turn

run_stream-records_example :
    let (s, t) = run_stream stream_events two_open turn in
    (count_records s.outbox ≡ count_records two_open.outbox + 1)
    × (count_records (after_stream s t).0.outbox
        ≡ count_records two_open.outbox + to_ℕ (true || is_aborted t.controller s.aborted))
run_stream-records_example = run_stream-records stream_events two_open turn refl

-- The optimistic message between an older message and an older answer.
abbrev transcript : List Message
transcript =
    record hello { id = "m0" } ∷ user_message "user-1" 1 "hello" ∷ record answer { id = "old" } ∷ []

reconcile-reconcile_example :
    reconcile_turn_messages
      (reconcile_turn_messages transcript "user-1" hello none)
      "user-1"
      hello
      (some answer)
    ≡ reconcile_turn_messages transcript "user-1" hello (some answer)
reconcile-reconcile_example = reconcile-reconcile "user-1" hello transcript (some answer)

rename-rollback_example :
    (rename_failed (rename_start two_open "a" " Trip ").0 "a" (some "A")).conversations
    ≡ two_open.conversations
unfolding initial_state rename_start trim
rename-rollback_example = rename-rollback two_open "a" " Trip " (refl, (refl, tt))

model_update-rollback_example :
    (model_update_failed
      (model_update_start two_open "b" "openai" "gpt")
      "b"
      chat_b
      "openai"
      "gpt").conversations
    ≡ two_open.conversations
unfolding initial_state model_update_previous trim
model_update-rollback_example =
    model_update-rollback two_open "b" "openai" "gpt" chat_b (refl, (refl, tt)) refl

abbrev fragment : ℕ → String → ToolFragment
fragment index text = record { index = index; id = none; name = none; arguments = some text }

abbrev calls : List StreamToolCall
calls =
    record {
      index = 0;
      id = some "c0";
      name = "search";
      arguments = "{";
      result = none;
      status = none;
    }
    ∷ []

receive_lem_example :
    HasDistinctIndices (receive calls (fragment 0 "a" ∷ fragment 1 "b" ∷ fragment 0 "}" ∷ []))
    × (arguments_at 0 (receive calls (fragment 0 "a" ∷ fragment 1 "b" ∷ fragment 0 "}" ∷ []))
        ≡ "{a}")
receive_lem_example =
    receive_lem 0 calls (fragment 0 "a" ∷ fragment 1 "b" ∷ fragment 0 "}" ∷ []) (refl, tt)

without_removed_lem_example :
    (without_removed "m1" (hello ∷ answer ∷ [])
      ≡ keep (λ m. not (str_eq m.id "m1") && not (opt_is m.parent_id "m1")) (hello ∷ answer ∷ []))
    × (without_removed "m1" (without_removed "m1" (hello ∷ answer ∷ []))
        ≡ without_removed "m1" (hello ∷ answer ∷ []))
unfolding user_message
without_removed_lem_example = without_removed_lem "m1" (hello ∷ answer ∷ []) (refl, (refl, tt))

-- A stream runs in the conversation shown.
abbrev streaming_state : ConversationState
streaming_state = record initial_state {
  active_id = some "a";
  streaming = true;
  abort_controller = some 7;
  conv_cache =
      ("a", record (empty_cache_entry []) { streaming = true; abort_controller = some 7 }) ∷ [];
}

abbrev detail : ConversationDetail
detail = record {
  messages = hello ∷ [];
  summary = none;
  summary_start_message_id = none;
  summary_end_message_id = none;
}

select-stale_controller_example :
    let t =
      run streaming_state
        (Event.select "b" ∷ Event.loaded "b" detail ∷ Event.selected "b" (hello ∷ []) ∷ []) in
    (t.active_id ≡ some "b")
    × (t.abort_controller ≡ some 7)
    × (lookup "b" t.conv_cache ≡ some (empty_cache_entry (hello ∷ [])))
unfolding initial_state save_active_view_to_cache lookup insert
select-stale_controller_example = select-stale_controller streaming_state "b" detail 7 refl refl
