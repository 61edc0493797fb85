-- ===== src/Chat/Terminal.antt =====
-- How many terminal callbacks a stream makes (chat.ts), and what that means for the usage log.
use encore_hub.Shared.{
  ℕ, ◌+◌, String, Bool, Bool-cases, true, false, ◌||◌, any, ◌≡◌, ◌∙◌, ap, refl, inl, inr, Option,
  none, some, List, [], ◌∷◌, ◌++◌, or_else, str_eq, if◌then◌else◌, arith,
}
use encore_hub.Models.{Message}
use encore_hub.ConversationStore.State.{ConversationState}
use encore_hub.ConversationStore.Turn.{Turn, StreamEvent, error, run_stream}
use encore_hub.ConversationStore.UsageLog.{is_final, to_ℕ, count_records, run_stream-records}
use encore_hub.Chat.Frames.{ParsedSseEvent, parse_event}
use encore_hub.Chat.Payload.{
  Payload, persisted, timing, delta_text, delta_events, turn_started_events, reasoning_events,
  tool_call_events, tool_result_events, usage_events, warning_events, title_update_events,
  title_error_events, error_event, done_with, done_event, failure,
}
use encore_hub.Chat.Dispatch.{
  open_events, event_callbacks, handle_parsed, handle_event, handle_blocks, flushed,
  finished_callbacks, broken_callbacks,
}

abbrev pub count_final : List StreamEvent → ℕ
count_final [] = 0
count_final (e ∷ es) = to_ℕ (is_final e) + count_final es

count_final-append :
    (es fs : List StreamEvent) → count_final (es ++ fs) ≡ count_final es + count_final fs
count_final-append [] fs = omega arith
count_final-append (e ∷ es) fs = omega (arith, count_final-append es fs)

timing-open : (o : Option ℕ) → count_final (timing o) ≡ 0
unfolding timing
timing-open none = refl
timing-open (some d) = refl

delta_text-open : (s : String) → count_final (delta_text s) ≡ 0
unfolding delta_text
delta_text-open s = ground arith

delta_events-open : (s : String) (o : Option Payload) → count_final (delta_events s o) ≡ 0
unfolding delta_events
delta_events-open s none = delta_text-open s
delta_events-open s (some p) =
    let text = or_else p.content (or_else p.text "") in
    omega (
      arith,
      count_final-append (timing p.duration_ms) (delta_text text),
      timing-open p.duration_ms,
      delta_text-open text,
    )

turn_started_events-open : (o : Option Payload) → count_final (turn_started_events o) ≡ 0
unfolding turn_started_events
turn_started_events-open none = refl
turn_started_events-open (some p) = ground arith

reasoning_events-open : (o : Option Payload) → count_final (reasoning_events o) ≡ 0
unfolding reasoning_events
reasoning_events-open none = refl
reasoning_events-open (some p) = ground (arith, timing-open p.duration_ms)

usage_events-open : (o : Option Payload) → count_final (usage_events o) ≡ 0
unfolding usage_events
usage_events-open none = refl
usage_events-open (some p) = ground (arith, timing-open p.duration_ms)

plain-open :
    (s : String) (o : Option Payload)
    → (count_final (tool_call_events o) ≡ 0)
      × (count_final (tool_result_events o) ≡ 0)
      × (count_final (warning_events s o) ≡ 0)
      × (count_final (title_update_events o) ≡ 0)
      × (count_final (title_error_events o) ≡ 0)
unfolding tool_call_events tool_result_events warning_events title_update_events title_error_events
plain-open s none = (refl, refl, refl, refl, refl)
plain-open s (some p) = (refl, refl, refl, refl, refl)

done_with-final :
    (b : Bool) (counts : ℕ × ℕ) (u a : Option Message) → is_final (done_with b counts u a) ≡ true
unfolding failure
done_with-final b counts (some u) (some a) = refl
done_with-final b counts none a = refl
done_with-final b counts (some u) none = refl

-- What holds of both branches of a test.
pub either {ℓ κ} :
    {A : Type ℓ} (P : A → Type κ) (b : Bool) (x y : A) → P x → P y → P (if b then x else y)
either P true x y hx hy = hx
either P false x y hx hy = hy

abbrev IsOpen : List StreamEvent → Type 0
IsOpen es = count_final es ≡ 0

-- The Boolean says whether there is a terminal callback, and there is no second one.
abbrev IsCounted : List StreamEvent × Bool → Type 0
IsCounted p = count_final p.0 ≡ to_ℕ p.1

closed :
    (es : List StreamEvent) (b : Bool) (e : StreamEvent)
    → is_final e ≡ true
    → count_final es ≡ to_ℕ b
    → count_final (es ++ (if b || false then [] else e ∷ [])) ≡ 1
closed es true e h k = count_final-append es [] ∙ omega (arith, k)
closed es false e h k = count_final-append es (e ∷ []) ∙ omega (arith, k, ap to_ℕ h)

any-count_final : (es : List StreamEvent) → count_final es ≡ 1 → any is_final es ≡ true
any-count_final [] h = cc
any-count_final (e ∷ es) h = elim (Bool-cases (is_final e)) [
  | inl y ↦ ground (arith, y)
  | inr n ↦ ground (arith, n, any-count_final es)
]

error_event-final : (o : Option Payload) → is_final (error_event o) ≡ true
unfolding error_event
error_event-final none = refl
error_event-final (some p) = refl

done_event-final : (b : Bool) (o : Option Payload) → is_final (done_event b o) ≡ true
unfolding done_event
done_event-final b none = refl
done_event-final b (some p) =
    done_with-final b (or_else p.usage (0, 0)) (persisted p.user_message)
      (persisted p.assistant_message)

module _ (read : String → Option Payload) (summarized : Bool) where
  open_events-open : (ev : ParsedSseEvent) → count_final (open_events read summarized ev) ≡ 0
  unfolding open_events
  open_events-open ev =
      let o = read ev.content in
      let (a, b, c, d, e) = plain-open ev.content o in
      either IsOpen (str_eq ev.event "turn_started") _ _ (turn_started_events-open o) (
        either IsOpen (str_eq ev.event "delta") _ _ (delta_events-open ev.content _) (
          either IsOpen (str_eq ev.event "reasoning") _ _ (reasoning_events-open o) (
            either IsOpen (str_eq ev.event "tool_call") _ _ a (
              either IsOpen (str_eq ev.event "tool_result") _ _ b (
                either IsOpen (str_eq ev.event "usage") _ _ (usage_events-open o) (
                  either IsOpen (str_eq ev.event "warning") _ _ c (
                    either IsOpen (str_eq ev.event "title_update") _ _ d
                      (either IsOpen (str_eq ev.event "title_error") _ _ e refl))))))))

  event_callbacks-counts :
      (ev : ParsedSseEvent)
      → count_final (event_callbacks read summarized ev).0
        ≡ to_ℕ (event_callbacks read summarized ev).1
  unfolding event_callbacks
  event_callbacks-counts ev =
      either IsCounted (str_eq ev.event "error") _ _
        (omega (arith, ap to_ℕ (error_event-final (read ev.content))))
        (either IsCounted (str_eq ev.event "done") _ _
          (omega (arith, ap to_ℕ (done_event-final summarized (read ev.content))))
          (open_events-open ev))

  handle_parsed-counts :
      (o : Option ParsedSseEvent) (received : Bool)
      → count_final (handle_parsed read summarized o received).0 + to_ℕ received
        ≡ to_ℕ (handle_parsed read summarized o received).1
  handle_parsed-counts none received = omega arith
  handle_parsed-counts (some ev) true = refl
  handle_parsed-counts (some ev) false = omega (arith, event_callbacks-counts ev)

  handle_event-counts :
      (block : String) (received : Bool)
      → count_final (handle_event read summarized block received).0 + to_ℕ received
        ≡ to_ℕ (handle_event read summarized block received).1
  unfolding handle_event
  handle_event-counts block received = handle_parsed-counts (parse_event block) received

  handle_blocks-counts :
      (blocks : List String) (received : Bool)
      → count_final (handle_blocks read summarized blocks received).0 + to_ℕ received
        ≡ to_ℕ (handle_blocks read summarized blocks received).1
  unfolding handle_blocks
  handle_blocks-counts [] received = omega arith
  handle_blocks-counts (block ∷ blocks) received =
      let (es, seen) = handle_event read summarized block received in
      omega (
        arith,
        count_final-append es (handle_blocks read summarized blocks seen).0,
        handle_event-counts block received,
        handle_blocks-counts blocks seen,
      )

  finished_callbacks-once :
      (blocks : List String) (left : String)
      → count_final (finished_callbacks read summarized blocks left false) ≡ 1
  unfolding finished_callbacks failure
  finished_callbacks-once blocks left =
      let p = handle_blocks read summarized (blocks ++ flushed left) false in
      closed p.0 p.1 _ refl (omega (arith, handle_blocks-counts (blocks ++ flushed left) false))

  -- Whatever blocks a stream brings, with whatever content: if the reader ends it without an abort,
  -- there is one terminal callback, an error of its own if the Gateway sent none; if the fetch is
  -- aborted, there is the one of the terminal event, if it was handled; and if the connection
  -- breaks, there is one more than that, so two where it breaks after the terminal event.
  pub count_final-callbacks :
      (blocks : List String) (left message : String)
      → let received = (handle_blocks read summarized blocks false).1 in
        (count_final (finished_callbacks read summarized blocks left false) ≡ 1)
        × (count_final (broken_callbacks read summarized blocks none) ≡ to_ℕ received)
        × (count_final (broken_callbacks read summarized blocks (some message)) ≡ to_ℕ received + 1)
  unfolding broken_callbacks failure
  count_final-callbacks blocks left message =
      let counted = handle_blocks-counts blocks false in
      (
        finished_callbacks-once blocks left,
        omega (arith, counted),
        omega (
          arith,
          count_final-append (handle_blocks read summarized blocks false).0 (error _ ∷ []),
          counted,
        ),
      )

  -- A turn that has no usage record yet, and whose stream the reader ends without an abort, posts
  -- one usage record, whatever the Gateway sent.
  pub stream-usage_once :
      (blocks : List String) (left : String) (s : ConversationState) (t : Turn)
      → t.usage_recorded ≡ false
      → count_records
          (run_stream (finished_callbacks read summarized blocks left false) s t).0.outbox
        ≡ count_records s.outbox + 1
  stream-usage_once blocks left s t fresh =
      let es = finished_callbacks read summarized blocks left false in
      (run_stream-records es s t fresh).0
      ∙ ap (λ b. count_records s.outbox + to_ℕ b)
          (any-count_final es (finished_callbacks-once blocks left))
