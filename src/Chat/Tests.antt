-- ===== src/Chat/Tests.antt =====
-- A stream of chat.ts, cut into chunks and handled.
use encore_hub.Shared.{◌+◌, String, false, ◌≡◌, refl, trim, Option, none, some, List, [], ◌∷◌}
use encore_hub.Models.{Message}
use encore_hub.ConversationStore.State.{initial_state}
use encore_hub.ConversationStore.Turn.{Turn, user_message, run_stream}
use encore_hub.ConversationStore.UsageLog.{count_records}
use encore_hub.Chat.Frames.{drain_all, read_chunks, parse_event}
use encore_hub.Chat.Chunks.{join_chunks, read_chunks-join}
use encore_hub.Chat.Returns.{with_returns, read_chunks-returns}
use encore_hub.Chat.Payload.{Payload}
use encore_hub.Chat.Dispatch.{handle_blocks, finished_callbacks, broken_callbacks}
use encore_hub.Chat.Terminal.{count_final, count_final-callbacks, stream-usage_once}

abbrev network : List String
network = "event: delta\nda" ∷ "ta: hi\n" ∷ "\nevent: done\ndata: {}\n\nrest" ∷ []

read_chunks-join_example : read_chunks network "" ≡ drain_all (join_chunks network)
read_chunks-join_example = read_chunks-join network

abbrev returned_network : List String
returned_network = "event: delta\r\ndata: hi\r" ∷ "\n\r\nevent: done\r\n\r\n" ∷ []

read_chunks-returns_example :
    read_chunks returned_network "" ≡ ([], with_returns "event: delta\ndata: hi\n\nevent: done\n\n")
unfolding with_returns
read_chunks-returns_example =
    read_chunks-returns "event: delta\ndata: hi\n\nevent: done\n\n" returned_network refl

abbrev message : String → Message
message id = user_message id 1 "hello"

-- JSON.parse of the answers of the example.
abbrev read : String → Option Payload
read content = some (record {
  user_message = some (message "m1");
  assistant_message = some (message "m2");
  content = some content;
  text = none;
  duration_ms = some 5;
  index = none;
  id = none;
  name = none;
  arguments = none;
  result = none;
  status = none;
  input_tokens = none;
  output_tokens = none;
  usage = some (3, 4);
  message = none;
  code = none;
  conversation_id = none;
  title = none;
})

abbrev blocks : List String
blocks = "event: delta\ndata: {" ∷ "event: done\ndata: {}" ∷ []

abbrev turn : Turn
turn = record {
  conv_id = "a";
  optimistic_id = "user-1";
  previous_messages = [];
  replaces = false;
  controller = 7;
  model_key = "p|m";
  authoritative_turn_id = none;
  should_reconcile = false;
  usage_input_tokens = 0;
  usage_output_tokens = 0;
  usage_duration_ms = 0;
  usage_recorded = false;
  near_limit = false;
}

stream-usage_once_example :
    count_records
      (run_stream (finished_callbacks read false blocks "" false) initial_state turn).0.outbox
    ≡ count_records initial_state.outbox + 1
stream-usage_once_example = stream-usage_once read false blocks "" initial_state turn refl

count_final-callbacks_example :
    (count_final (finished_callbacks read false blocks "event: warning" false) ≡ 1)
    × (count_final (broken_callbacks read false blocks none) ≡ 1)
    × (count_final (broken_callbacks read false blocks (some "network error")) ≡ 2)
unfolding handle_blocks parse_event trim
count_final-callbacks_example =
    count_final-callbacks read false blocks "event: warning" "network error"
