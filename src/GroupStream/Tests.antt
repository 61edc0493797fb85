-- ===== src/GroupStream/Tests.antt =====
-- A stream of groupChat.ts, cut into chunks in two ways, and the theorems at it.
use encore_hub.GroupStream.Events.{
  GroupContent, StreamEnd, abort_error, broken, completed, no_messages, null, payload, streamed,
  subscribe_group_events,
}
use encore_hub.GroupStream.Live.{subscribe_group_events-join}
use encore_hub.GroupStream.Once.{count_ends, send_group_message_stream-ends}
use encore_hub.GroupStream.Turn.{send_group_message_stream}
use encore_hub.MultiChat.State.{initial_group}
use encore_hub.Shared.{List, String, [], if◌then◌else◌, none, refl, some, str_eq, ℕ, ◌∷◌, ◌≡◌, ◌≤◌}

-- JSON.parse of the contents of the example: the text is the delta of a member, and "null" is null.
abbrev read : String → GroupContent
read text =
    if str_eq text "null"
    then null "cannot read a field of null"
    else payload (record {
      state = none;
      pending = none;
      message = none;
      participant_id = some "x";
      name = none;
      avatar = none;
      provider = none;
      model = none;
      position = none;
      content = some text;
      reasoning = none;
      text = none;
      code = none;
      input_tokens = none;
      output_tokens = none;
      usage = none;
      user_message = none;
      assistant_messages = no_messages;
    })

abbrev two_chunks : List String
two_chunks = "event: delta\nda" ∷ "ta: hi\n\nevent: error\ndata: null\n\n" ∷ []

abbrev three_chunks : List String
three_chunks = "event: delta\nda" ∷ "ta: hi\n" ∷ "\nevent: error\ndata: null\n\n" ∷ []

subscribe_group_events-join_example :
    subscribe_group_events read initial_group (streamed two_chunks (broken "lost"))
    ≡ subscribe_group_events read initial_group (streamed three_chunks (broken "lost"))
subscribe_group_events-join_example =
    subscribe_group_events-join read initial_group two_chunks three_chunks (broken "lost") refl

send_group_message_stream-ends_example :
    let heard : StreamEnd → ℕ =
      λ e. count_ends (send_group_message_stream read (λ body. none) (streamed three_chunks e)) in
    (heard completed ≡ 1)
    × (heard abort_error ≤ 1)
    × (1 ≤ heard (broken "lost"))
    × (heard (broken "lost") ≤ 2)
send_group_message_stream-ends_example =
    send_group_message_stream-ends read (λ body. none) three_chunks "lost"
