-- ===== src/MultiChat/Connection.antt =====
-- frontend/src/stores/multiChatStore.ts: the connection that `subscribe` keeps to the event stream
-- of a group. `connect` fetches the stream; when it ends, for whatever reason, a timer of two
-- seconds is set, after which it fetches again.
pub mod Reconnects
use encore_hub.MultiChat.Runs.{GroupAction, act, was_aborted}
use encore_hub.MultiChat.State.{MultiChatState}
use encore_hub.Shared.{List, String, [], if◌then◌else◌, not, opt_is, ℕ, ◌&&◌, ◌+◌, ◌∷◌}

pub data Phase : Type 0 where
  streaming waiting stopped : Phase

-- One call of `subscribe`, with the number of its requests so far.
pub record Connection : Type 0 where
  pub group : String
  pub controller : ℕ
  pub phase : Phase
  pub requests : ℕ

abbrev pub connect : MultiChatState → Connection → Connection
connect s c =
    if was_aborted c.controller s
    then record c { phase = stopped }
    else record c { phase = streaming; requests = c.requests + 1 }

-- The stretch after `await subscribeGroupEvents(...)`.
abbrev pub stream_ended : MultiChatState → Connection → Connection
stream_ended s c = record c { phase = if was_aborted c.controller s then stopped else waiting }

abbrev pub timer_fired : MultiChatState → Connection → Connection
timer_fired s c =
    if not (was_aborted c.controller s) && opt_is s.active_id c.group
    then connect s c
    else record c { phase = stopped }

-- Anything that the store does, and the two things that happen to a connection.
pub data ConnectionEvent : Type 0 where
  acted : GroupAction → ConnectionEvent
  ended fired : ConnectionEvent

abbrev pub ended_in : Phase → MultiChatState → Connection → Connection
ended_in streaming s c = stream_ended s c
ended_in _ s c = c

abbrev pub fired_in : Phase → MultiChatState → Connection → Connection
fired_in waiting s c = timer_fired s c
fired_in _ s c = c

pub record Linked : Type 0 where
  pub room : MultiChatState
  pub connection : Connection

unfoldable pub link_step : Linked → ConnectionEvent → Linked
link_step l (acted a) = record l { room = act l.room a }
link_step l ended = record l { connection = ended_in l.connection.phase l.room l.connection }
link_step l fired = record l { connection = fired_in l.connection.phase l.room l.connection }

unfoldable pub link_run : Linked → List ConnectionEvent → Linked
link_run l [] = l
link_run l (e ∷ es) = link_run (link_step l e) es
