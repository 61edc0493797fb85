-- ===== src/ConversationStore/UsageLog.antt =====
-- The usage log has one record for a turn (`recordTurnUsage` of conversationStore.ts), however many
-- events of its stream ask for one.
use encore_hub.Shared.{
  Bool-cases, inl, inr, ◌∙◌, ℕ, suc, ◌+◌, max, ◌≡◌, subst, refl, String, Bool, true, false, not,
  ◌&&◌, ◌||◌, any, or_else, Option, none, some, List, [], ◌∷◌, ◌++◌, lookup, str_eq, if◌then◌else◌,
  arith,
}
use encore_hub.ConversationStore.State.{
  Call, record_usage, ConvCacheEntry, ConversationState, UsageStatus, stopped, completed, failed,
  post, toast_error, learn_from_snapshot, summarize_context,
}
use encore_hub.ConversationStore.Cache.{Patch, cache_update, cache_update_at}
use encore_hub.ConversationStore.Browse.{load_list_start, summarize_start, entry_messages}
use encore_hub.ConversationStore.Edit.{title_of, find_id}
use encore_hub.ConversationStore.Turn.{
  Turn, StreamEvent, StreamDone, StreamError, turn_started, delta, reasoning, tool_call,
  tool_result, usage, telemetry, warning, title_update, title_error, done, error, record_turn_usage,
  after_stream, is_aborted, settled, stopped_turn, patch_entry, apply_done, on_done, apply_error,
  error_patch, on_event, run_stream, begin_summary,
}

abbrev pub count_records : List Call → ℕ
count_records [] = 0
count_records (record_usage _ _ _ _ _ _ ∷ calls) = suc (count_records calls)
count_records (_ ∷ calls) = count_records calls

abbrev pub to_ℕ : Bool → ℕ
to_ℕ false = 0
to_ℕ true = 1

is_record : Call → ℕ
is_record (record_usage _ _ _ _ _ _) = 1
is_record _ = 0

count_records-concat :
    (calls : List Call) (c : Call)
    → count_records (calls ++ c ∷ []) ≡ count_records calls + is_record c
unfolding is_record
count_records-concat [] (record_usage _ _ _ _ _ _) = refl
count_records-concat [] _ = refl
count_records-concat (record_usage _ _ _ _ _ _ ∷ calls) c =
    omega (arith, count_records-concat calls c)
count_records-concat (_ ∷ calls) c = count_records-concat calls c

-- The records posted between `s` and `t`, against the flags before and after.
pub record IsLogged (s : ConversationState) (before : Bool) (t : ConversationState) (after : Bool)
    : Type 0 where
  pub logged : count_records t.outbox + to_ℕ before ≡ count_records s.outbox + to_ℕ after

module _ {s : ConversationState} {before : Bool} where
  IsLogged-refl : IsLogged s before s before
  IsLogged-refl = record { logged = refl }

  IsLogged-same :
      {t : ConversationState} {after : Bool} (u : ConversationState)
      → u.outbox ≡ t.outbox
      → IsLogged s before t after
      → IsLogged s before u after
  IsLogged-same u e g = record { logged = rw e g.logged }

  IsLogged-post :
      {t : ConversationState} {after : Bool} (c : Call)
      → is_record c ≡ 0
      → IsLogged s before t after
      → IsLogged s before (post t c) after
  unfolding post
  IsLogged-post {t} c e g = record {
    logged = omega (arith, g.logged, count_records-concat t.outbox c);
  }

IsLogged-if :
    {s t u : ConversationState} {a c : Bool} (b : Bool)
    → IsLogged s a t c
    → IsLogged s a u c
    → IsLogged s a (if b then t else u) c
IsLogged-if true g h = g
IsLogged-if false g h = h

or-true : (b : Bool) → (b || true) ≡ true
or-true b = ground arith

or-false : (b : Bool) → (b || false) ≡ b
or-false b = ground arith

or_assoc : (a b c : Bool) → ((a || b) || c) ≡ (a || (b || c))
or_assoc a b c = ground arith

IsLogged-trans :
    {s t u : ConversationState} {a b c : Bool}
    → IsLogged s a t b
    → IsLogged t b u c
    → IsLogged s a u c
IsLogged-trans g h = record { logged = omega (arith, g.logged, h.logged) }

outbox-cache_update_at :
    (s : ConversationState) (id : String) (p : Patch) (o : Option ConvCacheEntry)
    → (cache_update_at s id p o).outbox ≡ s.outbox
unfolding cache_update_at
outbox-cache_update_at s id p none = refl
outbox-cache_update_at s id p (some prev) = ground arith

outbox-patch_entry :
    (s : ConversationState) (id : String) (patch : ConvCacheEntry → Patch)
    → (patch_entry s id patch).outbox ≡ s.outbox
unfolding patch_entry cache_update
outbox-patch_entry s id patch = go (lookup id s.conv_cache)
  where
    go :
        (o : Option ConvCacheEntry)
        → (elim o as (λ x. ConversationState) [
          | none ↦ s
          | some entry ↦ cache_update s id (patch entry)
        ]).outbox
          ≡ s.outbox
    go none = refl
    go (some entry) = outbox-cache_update_at s id (patch entry) (lookup id s.conv_cache)

turn_record : ConversationState → Turn → UsageStatus → Call
turn_record s t status =
    record_usage t.conv_id (or_else (title_of (find_id t.conv_id s.conversations)) "Conversation")
      t.usage_input_tokens t.usage_output_tokens t.usage_duration_ms status

record_turn_usage-IsLogged :
    (s : ConversationState) (t : Turn) (status : UsageStatus)
    → IsLogged s t.usage_recorded (record_turn_usage s t status).0 true
unfolding record_turn_usage post is_record turn_record
record_turn_usage-IsLogged s t status = record {
  logged = ground (arith, count_records-concat s.outbox (turn_record s t status));
}

recorded-record_turn_usage :
    (s : ConversationState) (t : Turn) (status : UsageStatus)
    → (record_turn_usage s t status).1.usage_recorded ≡ true
unfolding record_turn_usage
recorded-record_turn_usage s t status = ground arith

apply_done-IsLogged :
    (s : ConversationState) (t : Turn) (result : StreamDone) (b : Bool)
    → IsLogged s b (apply_done s t result).0 b
unfolding apply_done load_list_start
apply_done-IsLogged s t result b = IsLogged-same _ (outbox-patch_entry s t.conv_id _) IsLogged-refl

begin_summary-IsLogged :
    (s : ConversationState) (id : String) (b : Bool)
    → IsLogged s b (begin_summary s id (summarize_start s id)) b
unfolding begin_summary summarize_start post is_record
begin_summary-IsLogged s id b = record {
  logged = ground (arith, count_records-concat s.outbox (summarize_context id));
}

on_done-IsLogged :
    (s : ConversationState) (t : Turn) (result : StreamDone) (summarized : Bool)
    → IsLogged s t.usage_recorded (on_done s t result summarized).0 true
unfolding on_done is_record
on_done-IsLogged s t result summarized =
    let counted = record t {
      usage_input_tokens = max t.usage_input_tokens result.input_tokens;
      usage_output_tokens = max t.usage_output_tokens result.output_tokens;
    } in
    let (s1, t1) = record_turn_usage s counted completed in
    let (s2, t2) = apply_done s1 t1 result in
    let s3 =
      post s2
        (learn_from_snapshot t.model_key (entry_messages (lookup t.conv_id s2.conv_cache) [])) in
    let g : IsLogged s t.usage_recorded s3 true = IsLogged-post _ refl (
      IsLogged-trans (record_turn_usage-IsLogged s counted completed)
        (apply_done-IsLogged s1 t1 result true)) in
    IsLogged-if (t.near_limit && not summarized)
      (IsLogged-trans g (begin_summary-IsLogged s3 t.conv_id true)) g

apply_error-IsLogged :
    (s : ConversationState) (t : Turn) (e : StreamError) (b : Bool)
    → IsLogged s b (apply_error s t e).0 b
unfolding apply_error is_record
apply_error-IsLogged s t e b =
    IsLogged-post (toast_error e.message) refl
      (IsLogged-same _ (outbox-patch_entry s t.conv_id (error_patch t e)) IsLogged-refl)

-- The events that end a turn.
abbrev pub is_final : StreamEvent → Bool
is_final (done result summarized) = true
is_final (error e) = true
is_final _ = false

on_event-IsLogged :
    (e : StreamEvent) (s : ConversationState) (t : Turn)
    → IsLogged s t.usage_recorded (on_event e s t).0 (t.usage_recorded || is_final e)
unfolding on_event is_record
on_event-IsLogged (done result summarized) s t = rw or-true (on_done-IsLogged s t result summarized)
on_event-IsLogged (error e) s t =
    let status = if str_eq e.code "stopped" then stopped else failed in
    let (s1, t1) = record_turn_usage s t status in
    rw or-true
      (IsLogged-trans (record_turn_usage-IsLogged s t status) (apply_error-IsLogged s1 t1 e true))
on_event-IsLogged (turn_started m) s t =
    rw or-false (IsLogged-same _ (outbox-patch_entry s t.conv_id _) IsLogged-refl)
on_event-IsLogged (delta text) s t =
    rw or-false (IsLogged-same _ (outbox-patch_entry s t.conv_id _) IsLogged-refl)
on_event-IsLogged (reasoning chunk) s t =
    rw or-false (IsLogged-same _ (outbox-patch_entry s t.conv_id _) IsLogged-refl)
on_event-IsLogged (tool_call f) s t =
    rw or-false (IsLogged-same _ (outbox-patch_entry s t.conv_id _) IsLogged-refl)
on_event-IsLogged (tool_result id result status) s t =
    rw or-false (IsLogged-same _ (outbox-patch_entry s t.conv_id _) IsLogged-refl)
on_event-IsLogged (telemetry d) s t =
    rw or-false (IsLogged-same _ (outbox-patch_entry s t.conv_id _) IsLogged-refl)
on_event-IsLogged (usage input output) s t = rw or-false IsLogged-refl
on_event-IsLogged (warning msg) s t = rw or-false (IsLogged-post _ refl IsLogged-refl)
on_event-IsLogged (title_error msg) s t = rw or-false (IsLogged-post _ refl IsLogged-refl)
on_event-IsLogged (title_update id title) s t =
    rw or-false
      (IsLogged-if (str_eq id t.conv_id) (IsLogged-same _ refl IsLogged-refl) IsLogged-refl)

recorded-on_event :
    (e : StreamEvent) (s : ConversationState) (t : Turn)
    → (on_event e s t).1.usage_recorded ≡ (t.usage_recorded || is_final e)
unfolding on_event on_done apply_done apply_error
recorded-on_event (done result summarized) s t = ground arith
recorded-on_event (error e) s t =
    ground
      (arith, recorded-record_turn_usage s t (if str_eq e.code "stopped" then stopped else failed))
recorded-on_event _ s t = rw or-false

recorded-run_stream :
    (es : List StreamEvent) (s : ConversationState) (t : Turn)
    → (run_stream es s t).1.usage_recorded ≡ (t.usage_recorded || any is_final es)
unfolding run_stream
recorded-run_stream [] s t = ground arith
recorded-run_stream (e ∷ es) s t =
    let (s', t') = on_event e s t in
    recorded-run_stream es s' t' ∙ ground (arith, recorded-on_event e s t)

run_stream-IsLogged :
    (es : List StreamEvent) (s : ConversationState) (t : Turn)
    → IsLogged s t.usage_recorded (run_stream es s t).0 (t.usage_recorded || any is_final es)
unfolding run_stream
run_stream-IsLogged [] s t = rw or-false IsLogged-refl
run_stream-IsLogged (e ∷ es) s t =
    let (s', t') = on_event e s t in
    IsLogged-trans (on_event-IsLogged e s t) (
      rw (← or_assoc t.usage_recorded (is_final e) (any is_final es)) (
        subst (λ b. IsLogged s' b (run_stream es s' t').0 (b || any is_final es))
          (recorded-on_event e s t) (run_stream-IsLogged es s' t')))

after_stream-IsLogged :
    (s : ConversationState) (t : Turn)
    → IsLogged s t.usage_recorded
        (after_stream s t).0
        (t.usage_recorded || is_aborted t.controller s.aborted)
unfolding after_stream stopped_turn cache_update
after_stream-IsLogged s t = elim (Bool-cases (is_aborted t.controller s.aborted)) [
  | inl y ↦
      let (s1, t1) = record_turn_usage s t stopped in
      rw (y, or-true t.usage_recorded)
        (IsLogged-same _
          (outbox-cache_update_at s1 t.conv_id (settled none) (lookup t.conv_id s1.conv_cache))
          (record_turn_usage-IsLogged s t stopped))
  | inr n ↦ rw (n, or-false t.usage_recorded) IsLogged-refl
]

-- What a turn that has no usage record yet posts from the first event of its stream to the stretch
-- behind the stream: one usage record, if the stream has a final event or the turn is aborted when
-- the stream is over, and none otherwise. Up to the end of the stream it has posted one if there
-- was a final event, and none if there was not.
pub run_stream-records :
    (es : List StreamEvent) (s : ConversationState) (t : Turn)
    → t.usage_recorded ≡ false
    → let (s', t') = run_stream es s t in
      (count_records s'.outbox ≡ count_records s.outbox + to_ℕ (any is_final es))
      × (count_records (after_stream s' t').0.outbox
          ≡ count_records s.outbox + to_ℕ (any is_final es || is_aborted t'.controller s'.aborted))
run_stream-records es s t fresh =
    let (s', t') = run_stream es s t in
    let g =
      subst (λ b. IsLogged s b s' (b || any is_final es)) fresh (run_stream-IsLogged es s t) in
    let known : t'.usage_recorded ≡ any is_final es = recorded-run_stream es s t ∙ rw fresh refl in
    let h =
      subst (λ b. IsLogged s' b (after_stream s' t').0 (b || is_aborted t'.controller s'.aborted))
        known (after_stream-IsLogged s' t') in
    (omega (arith, g.logged), omega (arith, g.logged, h.logged))
