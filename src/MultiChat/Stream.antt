-- ===== src/MultiChat/Stream.antt =====
-- The runner's events of multiChatStore.ts: segments and messages.
use Prim.Native.String
use encore_hub.Shared.{
  ℕ, String, Bool, true, false, not, Option, none, some, List, [], ◌∷◌, map, keep, is_empty, str_eq,
  if◌then◌else◌,
}
use encore_hub.Models.{Message}
use encore_hub.MultiChat.State.{
  GroupSegment, ParticipantStart, RunnerState, MultiChatState, ask, streaming, done, skipped, error,
  idle, toast_error,
}

-- The first message with the id is replaced, or the message is appended.
unfoldable pub upsert_by_id : List Message → Message → List Message
upsert_by_id [] message = message ∷ []
upsert_by_id (m ∷ ms) message =
    if str_eq m.id message.id then message ∷ ms else m ∷ upsert_by_id ms message

unfoldable pub new_segment : ParticipantStart → GroupSegment
new_segment start = record {
  participant_id = start.participant_id;
  name = start.name;
  avatar = start.avatar;
  provider = start.provider;
  model = start.model;
  position = start.position;
  content = "";
  reasoning = "";
  status = streaming;
  failure = none;
}

-- A member that starts again keeps the content and the error of its segment.
unfoldable pub restarted : ParticipantStart → GroupSegment → GroupSegment
unfolding new_segment
restarted start segment =
    let next = new_segment start in
    record next { content = segment.content; failure = segment.failure }

unfoldable pub upsert_segment : List GroupSegment → ParticipantStart → List GroupSegment
unfolding restarted
upsert_segment [] start = new_segment start ∷ []
upsert_segment (g ∷ gs) start =
    if str_eq g.participant_id start.participant_id
    then restarted start g ∷ gs
    else g ∷ upsert_segment gs start

unfoldable pub update_segment :
    List GroupSegment → String → (GroupSegment → GroupSegment) → List GroupSegment
update_segment segments participant_id update =
    map (λ g. if str_eq g.participant_id participant_id then update g else g) segments

-- The callbacks of the runner's event stream.
pub data GroupEvent : Type 0 where
  runner_changed : RunnerState → ℕ → GroupEvent
  queue_updated : ℕ → GroupEvent
  message_appended : Message → GroupEvent
  participant_started : ParticipantStart → GroupEvent
  delta reasoning : String → String → GroupEvent
  participant_done participant_skipped : String → GroupEvent
  participant_error : String → String → GroupEvent
  stream_error : String → GroupEvent

abbrev pub is_idle : RunnerState → Bool
is_idle idle = true
is_idle _ = false

-- The segment of a member whose message is committed goes. An empty sender is none.
unfoldable pub committed : Option String → List GroupSegment → List GroupSegment
committed none segments = segments
committed (some sender) segments =
    if is_empty sender then segments else keep (λ g. not (str_eq g.participant_id sender)) segments

unfoldable pub on_group_event : MultiChatState → GroupEvent → MultiChatState
unfolding upsert_by_id upsert_segment update_segment committed
on_group_event s (runner_changed state pending) = record s {
  runner_state = state;
  pending = pending;
  segments = if is_idle state then [] else s.segments;
}
on_group_event s (queue_updated pending) = record s { pending = pending }
on_group_event s (message_appended message) = record s {
  messages = upsert_by_id s.messages message;
  segments = committed message.sender_character_id s.segments;
}
on_group_event s (participant_started start) = record s {
  segments = upsert_segment s.segments start;
}
on_group_event s (delta id text) = record s {
  segments = update_segment s.segments id (λ g. record g { content = String.◌++◌ g.content text });
}
on_group_event s (reasoning id text) = record s {
  segments =
      update_segment s.segments id (λ g. record g { reasoning = String.◌++◌ g.reasoning text });
}
on_group_event s (participant_done id) = record s {
  segments = update_segment s.segments id (λ g. record g { status = done });
}
on_group_event s (participant_skipped id) = record s {
  segments = update_segment s.segments id (λ g. record g { status = skipped; content = "" });
}
on_group_event s (participant_error id message) = record s {
  segments =
      update_segment s.segments id (λ g. record g { status = error; failure = some message });
}
on_group_event s (stream_error message) = ask s (toast_error message)
