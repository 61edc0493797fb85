-- ===== src/MultiChat/Tests.antt =====
-- A group of multiChatStore.ts, and the theorems at it.
use encore_hub.MultiChat.Connection.{Connection, streaming, ended, fired, link_run}
use encore_hub.MultiChat.Connection.Reconnects.{breaks, link_run-replaced, link_run-reconnects}
use encore_hub.Shared.{
  String, opt_is, true, false, ◌≡◌, ◌≢◌, refl, eq_iff, none, some, List, [], ◌∷◌,
}
use encore_hub.MultiChat.State.{ParticipantStart, MultiChatState, initial_group}
use encore_hub.MultiChat.Handlers.{GroupDetail, close_conversation}
use encore_hub.MultiChat.Stream.{participant_started, on_group_event, new_segment}
use encore_hub.MultiChat.Segments.{IsRoom, on_group_event-IsRoom}
use encore_hub.MultiChat.Runs.{
  GroupAction, open_start, opened, subscribed, close, act, act_all, was_aborted, is_current,
  content_at, deltas, opened-overrides, content_at-deltas,
}

abbrev member : String → ParticipantStart
member id = record {
  participant_id = id;
  name = "N";
  avatar = "";
  provider = "p";
  model = "m";
  position = 0;
}

abbrev room : MultiChatState
room = record initial_group { segments = new_segment (member "x") ∷ new_segment (member "y") ∷ [] }

abbrev group_detail : GroupDetail
group_detail = record {
  participants = none;
  reply_mode = none;
  group_settings = none;
  messages = [];
}

room-IsRoom : IsRoom room
unfolding initial_group new_segment
room-IsRoom = record { members = (refl, (refl, tt)); messages = tt }

on_group_event-IsRoom_example : IsRoom (on_group_event room (participant_started (member "z")))
on_group_event-IsRoom_example =
    on_group_event-IsRoom room (participant_started (member "z")) room-IsRoom

-- A group is opened, subscribed to again, and left.
abbrev visit : List GroupAction
visit = open_start "g" ∷ opened "g" group_detail 1 ∷ subscribed 2 ∷ close ∷ []

visit_left : is_current 1 (act_all initial_group visit).events_controller ≡ false
unfolding initial_group act_all act close_conversation
visit_left = refl

-- The connection of the first of the two subscriptions.
abbrev first : Connection
first = record { group = "g"; controller = 1; phase = streaming; requests = 1 }

link_run-replaced_example :
    (link_run
      (record { room = act_all initial_group visit; connection = first })
      (ended ∷ fired ∷ ended ∷ [])).connection.requests
    ≡ 1
link_run-replaced_example =
    link_run-replaced visit initial_group first refl visit_left (ended ∷ fired ∷ ended ∷ [])

abbrev g_open : MultiChatState
g_open = record initial_group { active_id = some "g"; events_controller = some 1 }

g_open_live : (was_aborted 1 g_open ≡ false) × (opt_is g_open.active_id "g" ≡ true)
unfolding initial_group
g_open_live = (refl, refl)

link_run-reconnects_example :
    ((link_run (record { room = g_open; connection = first }) (breaks 2)).connection.requests ≡ 3)
    × ((link_run (record { room = g_open; connection = first }) (breaks 2)).connection.phase
        ≡ streaming)
link_run-reconnects_example = link_run-reconnects 2 g_open first g_open_live.0 g_open_live.1 refl

content_at-deltas_example :
    content_at "x" (act_all room (deltas (("x", "a") ∷ ("y", "b") ∷ ("x", "c") ∷ []))).segments
    ≡ "ac"
unfolding initial_group new_segment
content_at-deltas_example =
    content_at-deltas "x" (("x", "a") ∷ ("y", "b") ∷ ("x", "c") ∷ []) room refl

g_not_h : ◌≢◌ {A = String} "g" "h"
g_not_h e = let same = (eq_iff "g" "h").1 e in cc

opened-overrides_example :
    (act_all initial_group (open_start "h" ∷ opened "g" group_detail 1 ∷ [])).active_id ≢ some "h"
opened-overrides_example = opened-overrides initial_group "g" "h" group_detail 1 g_not_h
