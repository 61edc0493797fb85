-- ===== src/GroupStream/Once.antt =====
-- How many terminal callbacks a turn of a group makes (groupChat.ts).
use Prim.Native.String
use encore_hub.ConversationStore.UsageLog.{to_ℕ}
use encore_hub.Chat.Frames.{ParsedSseEvent, drain_all, parse_event}
use encore_hub.Chat.Terminal.{either}
use encore_hub.GroupStream.Events.{
  GroupContent, GroupPayload, Outcome, StreamEnd, abort_error, broken, completed, null, payload,
  returned, streamed, thrown, unparsed, with_id,
}
use encore_hub.GroupStream.Turn.{
  GroupTurnEvent, TurnReading, all_messages, and_then, caught, content_turn, done_of, ending,
  group_done_event, group_error_event, listed_messages, member_event_names, member_events,
  normalized_option, null_events, ongoing, send_group_message_stream, turn_begun, turn_blocks,
  turn_chunks, turn_done, turn_end, turn_error, turn_events, turn_failure, turn_next, turn_opening,
}
use encore_hub.Models.{Message}
use encore_hub.Shared.{
  Bool, List, Option, String, [], ap, arith, false, mem, none, refl, some, str_eq, true, ℕ, ◌++◌,
  ◌+◌, ◌||◌, ◌∙◌, ◌∷◌, ◌≡◌, ◌≤◌,
}

abbrev pub ends_turn : GroupTurnEvent → Bool
ends_turn (turn_done d) = true
ends_turn (turn_error d) = true
ends_turn _ = false

abbrev pub count_ends : List GroupTurnEvent → ℕ
count_ends [] = 0
count_ends (e ∷ es) = to_ℕ (ends_turn e) + count_ends es

count_ends-append :
    (es fs : List GroupTurnEvent) → count_ends (es ++ fs) ≡ count_ends es + count_ends fs
count_ends-append [] fs = omega arith
count_ends-append (e ∷ es) fs = omega (arith, count_ends-append es fs)

-- How many terminal callbacks were made: one if the terminal event was received and nothing was
-- thrown, none otherwise.
abbrev made : Option String → Bool → ℕ
made none received = to_ℕ received
made (some cause) received = 0

abbrev IsMarked : TurnReading → Type 0
IsMarked r = count_ends r.events ≡ made r.halted r.received

abbrev IsOngoing : Outcome (List GroupTurnEvent) → Type 0
IsOngoing o = IsMarked (ongoing o)

member_events-IsOngoing : (name : String) (p : GroupPayload) → IsOngoing (member_events name p)
unfolding member_events
member_events-IsOngoing name p =
    either IsOngoing (str_eq name "turn_started") _ _ (opened (with_id p.user_message)) (
      either IsOngoing (str_eq name "participant_started") _ _ refl (
        either IsOngoing (str_eq name "delta") _ _ refl (
          either IsOngoing (str_eq name "reasoning") _ _ refl (
            either IsOngoing (str_eq name "usage") _ _ refl (
              either IsOngoing (str_eq name "participant_done") _ _ refl (
                either IsOngoing (str_eq name "participant_skipped") _ _ refl
                  (either IsOngoing (str_eq name "participant_error") _ _ refl refl)))))))
  where
    opened : (o : Outcome (Option Message)) → IsOngoing (turn_opening o)
    opened (returned none) = refl
    opened (returned (some m)) = refl
    opened (thrown cause) = refl

-- What a result is, where there is one, is terminal.
abbrev EndsTurn : Outcome GroupTurnEvent → Type 0
EndsTurn (returned e) = ends_turn e ≡ true
EndsTurn (thrown cause) = Unit

ending-IsMarked : (o : Outcome GroupTurnEvent) → EndsTurn o → IsMarked (ending o)
ending-IsMarked (returned e) h = omega (arith, ap to_ℕ h)
ending-IsMarked (thrown cause) h = refl

and_then-EndsTurn :
    {A : Type 0} (o : Outcome A) (f : A → Outcome GroupTurnEvent)
    → ((a : A) → EndsTurn (f a))
    → EndsTurn (and_then o f)
and_then-EndsTurn (returned a) f h = h a
and_then-EndsTurn (thrown cause) f h = tt

turn_events-IsMarked : (name : String) (p : GroupPayload) → IsMarked (turn_events name p)
unfolding turn_events group_error_event group_done_event turn_failure
turn_events-IsMarked name p =
    either IsMarked (str_eq name "error") _ _
      (ending-IsMarked (group_error_event p) (
        and_then-EndsTurn (normalized_option p.user_message) _
          (λ user. and_then-EndsTurn (listed_messages p.assistant_messages) _ (λ messages. refl))))
      (either IsMarked (str_eq name "done") _ _
        (ending-IsMarked (group_done_event p)
          (and_then-EndsTurn (with_id p.user_message) _ done_ends))
        (member_events-IsOngoing name p))
  where
    done_ends : (o : Option Message) → EndsTurn (done_of p o)
    done_ends none = refl
    done_ends (some m) = and_then-EndsTurn (all_messages p.assistant_messages) _ (λ messages. refl)

null_events-IsMarked : (name cause : String) → IsMarked (null_events name cause)
unfolding null_events
null_events-IsMarked name cause =
    either IsMarked (str_eq name "error" || str_eq name "done") _ _ refl
      (either IsOngoing (mem name member_event_names) _ _ refl refl)

content_turn-IsMarked : (name : String) (o : GroupContent) → IsMarked (content_turn name o)
unfolding content_turn
content_turn-IsMarked name unparsed = refl
content_turn-IsMarked name (null cause) = null_events-IsMarked name cause
content_turn-IsMarked name (payload p) = turn_events-IsMarked name p

to_ℕ_bound : (b : Bool) → to_ℕ b ≤ 1
to_ℕ_bound true = omega arith
to_ℕ_bound false = omega arith

-- The terminal callbacks with those of the end.
counted :
    (es : List GroupTurnEvent) (halted : Option String) (received : Bool)
    → count_ends es ≡ made halted received
    → (message : String)
    → (count_ends (es ++ turn_end halted received completed) ≡ 1)
      × (count_ends (es ++ turn_end halted received abort_error) ≤ 1)
      × (1 ≤ count_ends (es ++ turn_end halted received (broken message)))
      × (count_ends (es ++ turn_end halted received (broken message)) ≤ 2)
unfolding turn_end caught turn_failure
counted es (some cause) received h message =
    let one = count_ends-append es (turn_failure "network_error" cause ∷ []) in
    (omega (arith, one, h), omega (arith, one, h), omega (arith, one, h), omega (arith, one, h))
counted es none true h message =
    let none_more = count_ends-append es [] in
    let one = count_ends-append es (turn_failure "network_error" message ∷ []) in
    (
      omega (arith, none_more, h),
      omega (arith, none_more, h),
      omega (arith, one, h),
      omega (arith, one, h),
    )
counted es none false h message =
    let none_more = count_ends-append es [] in
    let one = count_ends-append es (turn_failure "network_error" message ∷ []) in
    let text : String = "Stream ended without a terminal event" in
    (
      omega (arith, count_ends-append es (turn_failure "stream_incomplete" text ∷ []), h),
      omega (arith, none_more, h),
      omega (arith, one, h),
      omega (arith, one, h),
    )

module _ (read : String → GroupContent) where
  turn_next-IsMarked :
      (halted : Option String) (received : Bool) (r : TurnReading) (o : Option ParsedSseEvent)
      → r.halted ≡ halted
      → r.received ≡ received
      → IsMarked r
      → IsMarked (turn_next read halted received r o)
  turn_next-IsMarked (some cause) received r o e f h = h
  turn_next-IsMarked none true r o e f h = h
  turn_next-IsMarked none false r none e f h = h
  turn_next-IsMarked none false r (some ev) e f h =
      let next = content_turn ev.event (read ev.content) in
      let none_yet : count_ends r.events ≡ 0 = h ∙ rw (e, f) refl in
      let here : count_ends next.events ≡ made next.halted next.received =
        content_turn-IsMarked ev.event (read ev.content) in
      omega (arith, count_ends-append r.events next.events, none_yet, here)

  turn_blocks-IsMarked :
      (blocks : List String) (r : TurnReading) → IsMarked r → IsMarked (turn_blocks read r blocks)
  unfolding turn_blocks
  turn_blocks-IsMarked [] r h = h
  turn_blocks-IsMarked (block ∷ blocks) r h =
      turn_blocks-IsMarked blocks _
        (turn_next-IsMarked r.halted r.received r (parse_event block) refl refl h)

  turn_chunks-IsMarked :
      (chunks : List String) (buffer : String) (r : TurnReading)
      → IsMarked r
      → IsMarked (turn_chunks read r chunks buffer)
  unfolding turn_chunks
  turn_chunks-IsMarked [] buffer r h = h
  turn_chunks-IsMarked (chunk ∷ chunks) buffer r h =
      let (blocks, left) = drain_all (String.◌++◌ buffer chunk) in
      turn_chunks-IsMarked chunks left (turn_blocks read r blocks) (turn_blocks-IsMarked blocks r h)

  -- Whatever chunks the Gateway sends, the caller of a group turn hears of its end: a stream that
  -- the reader ends makes exactly one terminal callback, one that is aborted at most one, and one
  -- that breaks at least one and never more than two. This includes events whose handler throws,
  -- which end the reading with an error of their own.
  pub send_group_message_stream-ends :
      (reason : String → Option String) (chunks : List String) (message : String)
      → let heard : StreamEnd → ℕ =
          λ e. count_ends (send_group_message_stream read reason (streamed chunks e)) in
        (heard completed ≡ 1)
        × (heard abort_error ≤ 1)
        × (1 ≤ heard (broken message))
        × (heard (broken message) ≤ 2)
  unfolding send_group_message_stream
  send_group_message_stream-ends reason chunks message =
      let r = turn_chunks read turn_begun chunks "" in
      counted r.events r.halted r.received (turn_chunks-IsMarked chunks "" turn_begun refl) message
