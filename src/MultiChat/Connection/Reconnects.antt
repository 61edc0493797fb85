-- ===== src/MultiChat/Connection/Reconnects.antt =====
-- When a connection to a group's events comes back, and when it does not (multiChatStore.ts).
use encore_hub.MultiChat.Connection.{
  Connection, ConnectionEvent, Linked, Phase, acted, ended, ended_in, fired, fired_in, link_run,
  link_step, stopped, streaming, waiting,
}
use encore_hub.MultiChat.Handlers.{
  abort_events, close_conversation, create_group_start, create_group_done, send_group_failed,
  stop_group_failed, load_conversations_done, load_conversations_failed, load_conversations_start,
  open_conversation_done, open_conversation_failed, open_conversation_start,
  remove_conversation_done, remove_conversation_start, save_group_settings_done,
  save_group_settings_failed, save_group_settings_start, send_group_done, send_group_start,
  set_reply_mode_failed, set_reply_mode_start, stop_group, subscribe,
}
use encore_hub.MultiChat.Runs.{
  GroupAction, act, act_all, act_all-aborted, created, event, is_current, was_aborted, was_issued,
}
use encore_hub.MultiChat.State.{MultiChatState, ask}
use encore_hub.MultiChat.Stream.{on_group_event, runner_changed}
use encore_hub.Shared.{
  List, [], none, some, ap, arith, false, opt_is, refl, suc, true, zero, ℕ, ◌+◌, ◌∙◌, ◌∷◌, ◌≡◌,
}

abort_stays :
    (s : MultiChatState) (a : GroupAction) (c : ℕ)
    → was_aborted c s ≡ true
    → was_aborted c (act s a) ≡ true
unfolding act load_conversations_start load_conversations_done load_conversations_failed
    open_conversation_start open_conversation_done open_conversation_failed close_conversation
    remove_conversation_start remove_conversation_done set_reply_mode_start set_reply_mode_failed
    save_group_settings_start save_group_settings_done save_group_settings_failed subscribe
    on_group_event send_group_start send_group_done stop_group ask abort_events create_group_start
    create_group_done send_group_failed stop_group_failed
abort_stays s (event (runner_changed x y)) c h = ground arith
abort_stays s (event _) c h = ground arith
abort_stays s (created id none) c h = ground arith
abort_stays s (created id (some g)) c h = ground arith
abort_stays s _ c h = ground arith

-- A connection whose controller is aborted.
abbrev IsCut : Linked → Type 0
IsCut l = was_aborted l.connection.controller l.room ≡ true

step-IsCut :
    (l : Linked) (e : ConnectionEvent)
    → IsCut l
    → IsCut (link_step l e) × ((link_step l e).connection.requests ≡ l.connection.requests)
unfolding link_step
step-IsCut l (acted a) h = (abort_stays l.room a l.connection.controller h, refl)
step-IsCut l ended h = ended_cut l.connection.phase
  where
    ended_cut :
        (p : Phase)
        → (was_aborted (ended_in p l.room l.connection).controller l.room ≡ true)
          × ((ended_in p l.room l.connection).requests ≡ l.connection.requests)
    ended_cut streaming = (h, refl)
    ended_cut waiting = (h, refl)
    ended_cut stopped = (h, refl)
step-IsCut l fired h = fired_cut l.connection.phase
  where
    fired_cut :
        (p : Phase)
        → (was_aborted (fired_in p l.room l.connection).controller l.room ≡ true)
          × ((fired_in p l.room l.connection).requests ≡ l.connection.requests)
    fired_cut streaming = (h, refl)
    fired_cut waiting = rw h (h, refl)
    fired_cut stopped = (h, refl)

run_cut :
    (es : List ConnectionEvent) (l : Linked)
    → IsCut l
    → (link_run l es).connection.requests ≡ l.connection.requests
unfolding link_run
run_cut [] l h = refl
run_cut (e ∷ es) l h = let (cut, same) = step-IsCut l e h in run_cut es (link_step l e) cut ∙ same

-- A subscription that was replaced makes no further request. Where its controller was issued in a
-- history of the store and is not the current one at the end of it, the number of requests of its
-- connection stays the same, whatever the store does afterwards and however often streams end and
-- timers fire.
pub link_run-replaced :
    (history : List GroupAction) (s : MultiChatState) (c : Connection)
    → was_issued c.controller history ≡ true
    → is_current c.controller (act_all s history).events_controller ≡ false
    → (es : List ConnectionEvent)
    → (link_run (record { room = act_all s history; connection = c }) es).connection.requests
      ≡ c.requests
link_run-replaced history s c issued old es =
    run_cut es (record { room = act_all s history; connection = c })
      (act_all-aborted history s c.controller issued old)

-- The stream breaks n times, and each time the timer fires.
pub breaks : ℕ → List ConnectionEvent
breaks zero = []
breaks (suc n) = ended ∷ fired ∷ breaks n

cycle :
    (s : MultiChatState) (c : Connection)
    → was_aborted c.controller s ≡ false
    → opt_is s.active_id c.group ≡ true
    → c.phase ≡ streaming
    → fired_in (ended_in c.phase s c).phase s (ended_in c.phase s c)
      ≡ record c { phase = streaming; requests = c.requests + 1 }
cycle s c live open_group p = ground (arith, live, open_group, p)

-- A subscription that was not aborted, to the group that is still open, comes back however often
-- its stream ends: after n ends, each followed by the timer, the connection has made exactly n
-- more requests and reads the stream again.
pub link_run-reconnects :
    (n : ℕ) (s : MultiChatState) (c : Connection)
    → was_aborted c.controller s ≡ false
    → opt_is s.active_id c.group ≡ true
    → c.phase ≡ streaming
    → ((link_run (record { room = s; connection = c }) (breaks n)).connection.requests
        ≡ c.requests + n)
      × ((link_run (record { room = s; connection = c }) (breaks n)).connection.phase ≡ streaming)
unfolding link_run link_step breaks
link_run-reconnects zero s c live open_group p = (omega arith, p)
link_run-reconnects (suc n) s c live open_group p =
    let again = record c { phase = streaming; requests = c.requests + 1 } in
    let (more, reading) = link_run-reconnects n s again live open_group refl in
    let same = cycle s c live open_group p in
    (
      ap (λ x. (link_run (record { room = s; connection = x }) (breaks n)).connection.requests) same
          ∙ more
          ∙ omega arith,
      ap (λ x. (link_run (record { room = s; connection = x }) (breaks n)).connection.phase) same
          ∙ reading,
    )
