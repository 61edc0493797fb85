-- ===== src/ConversationStore/Isolation.antt =====
-- A stream touches its own conversation alone (`sendMessage` of conversationStore.ts): streams of
-- background conversations run while another one is shown.
use encore_hub.Shared.{
  max, ◌≡◌, ◌∙◌, subst, refl, inl, inr, Bool-cases, String, Bool, true, false, not, ◌&&◌, Option,
  none, some, List, [], ◌∷◌, lookup, insert, opt_is, str_eq, if◌then◌else◌, arith, lookup-insert,
}
use encore_hub.ConversationStore.State.{
  Call, ConvCacheEntry, ConversationState, UsageStatus, stopped, completed, failed,
  current_view_entry, post, toast_error, learn_from_snapshot,
}
use encore_hub.ConversationStore.Cache.{Patch, cache_update, cache_update_at}
use encore_hub.ConversationStore.Browse.{load_list_start, summarize_start, entry_messages}
use encore_hub.ConversationStore.Turn.{
  Turn, StreamEvent, StreamDone, StreamError, turn_started, delta, reasoning, tool_call,
  tool_result, usage, telemetry, warning, title_update, title_error, done, error, record_turn_usage,
  patch_entry, apply_done, on_done, apply_error, error_patch, on_event, run_stream, begin_summary,
}

-- Seen from outside the conversation `id`, `t` is `s`: the entries of the others, the active id,
-- and the view unless it shows `id`.
pub record IsApart (id : String) (s t : ConversationState) : Type 0 where
  pub entries : (j : String) → str_eq id j ≡ false → lookup j t.conv_cache ≡ lookup j s.conv_cache
  pub active : t.active_id ≡ s.active_id
  pub view : opt_is s.active_id id ≡ false → current_view_entry t ≡ current_view_entry s

IsApart-refl : (id : String) (s : ConversationState) → IsApart id s s
IsApart-refl id s = record { entries = λ j h. refl; active = refl; view = λ h. refl }

IsApart-trans :
    {id : String} {s t u : ConversationState} → IsApart id s t → IsApart id t u → IsApart id s u
IsApart-trans g h = record {
  entries = λ j e. h.entries j e ∙ g.entries j e;
  active = h.active ∙ g.active;
  view = λ e. h.view (rw g.active e) ∙ g.view e;
}

IsApart-at : {id j : String} {s t : ConversationState} → id ≡ j → IsApart id s t → IsApart j s t
IsApart-at {s} {t} same g = subst (λ i. IsApart i s t) same g

IsApart-if :
    {id : String} {s t u : ConversationState} (b : Bool)
    → IsApart id s t
    → IsApart id s u
    → IsApart id s (if b then t else u)
IsApart-if true g h = g
IsApart-if false g h = h

IsApart-post :
    {id : String} {s t : ConversationState} (c : Call) → IsApart id s t → IsApart id s (post t c)
unfolding post current_view_entry
IsApart-post c g = record { entries = g.entries; active = g.active; view = g.view }

IsApart-list :
    {id : String} {s t : ConversationState} → IsApart id s t → IsApart id s (load_list_start t)
unfolding load_list_start current_view_entry
IsApart-list g = record { entries = g.entries; active = g.active; view = g.view }

lookup-insert_other :
    (id j : String) (e : ConvCacheEntry) (s : ConversationState)
    → str_eq id j ≡ false
    → lookup j (insert id e s.conv_cache) ≡ lookup j s.conv_cache
lookup-insert_other id j e s h = ground (arith, lookup-insert id j e s.conv_cache)

cache_update_at-IsApart :
    (s : ConversationState) (id : String) (p : Patch) (o : Option ConvCacheEntry)
    → IsApart id s (cache_update_at s id p o)
unfolding cache_update_at current_view_entry
cache_update_at-IsApart s id p none = IsApart-refl id s
cache_update_at-IsApart s id p (some prev) = elim (Bool-cases (opt_is s.active_id id)) [
  | inl y ↦
      rw y (record { entries = λ j. lookup-insert_other id j _ s; active = refl; view = λ n. cc })
  | inr n ↦
      rw n (record { entries = λ j. lookup-insert_other id j _ s; active = refl; view = λ n. refl })
]

cache_update-IsApart :
    (s : ConversationState) (id : String) (p : Patch) → IsApart id s (cache_update s id p)
cache_update-IsApart s id p =
    unfold cache_update in cache_update_at-IsApart s id p (lookup id s.conv_cache)

patch_entry-IsApart :
    (s : ConversationState) (id : String) (patch : ConvCacheEntry → Patch)
    → IsApart id s (patch_entry s id patch)
unfolding patch_entry
patch_entry-IsApart s id patch = go (lookup id s.conv_cache)
  where
    go :
        (o : Option ConvCacheEntry)
        → IsApart id s (elim o [ none ↦ s | some entry ↦ cache_update s id (patch entry) ])
    go none = IsApart-refl id s
    go (some entry) = cache_update-IsApart s id (patch entry)

record_turn_usage-IsApart :
    (s : ConversationState) (t : Turn) (status : UsageStatus)
    → IsApart t.conv_id s (record_turn_usage s t status).0
unfolding record_turn_usage
record_turn_usage-IsApart s t status = elim (Bool-cases t.usage_recorded) [
  | inl e ↦ simp e (IsApart-refl t.conv_id s)
  | inr e ↦ simp e (IsApart-post _ (IsApart-refl t.conv_id s))
]

conv_id-record_turn_usage :
    (s : ConversationState) (t : Turn) (status : UsageStatus)
    → (record_turn_usage s t status).1.conv_id ≡ t.conv_id
unfolding record_turn_usage
conv_id-record_turn_usage s t status = ground arith

begin_summary-IsApart :
    (s : ConversationState) (id : String) → IsApart id s (begin_summary s id (summarize_start s id))
unfolding begin_summary summarize_start post current_view_entry
begin_summary-IsApart s id = record {
  entries = λ j h. ground arith;
  active = ground arith;
  view = λ h. ground arith;
}

apply_done-IsApart :
    (s : ConversationState) (t : Turn) (result : StreamDone)
    → IsApart t.conv_id s (apply_done s t result).0
unfolding apply_done
apply_done-IsApart s t result = IsApart-list (patch_entry-IsApart s t.conv_id _)

on_done-IsApart :
    (s : ConversationState) (t : Turn) (result : StreamDone) (summarized : Bool)
    → IsApart t.conv_id s (on_done s t result summarized).0
unfolding on_done
on_done-IsApart s t result summarized =
    let counted = record t {
      usage_input_tokens = max t.usage_input_tokens result.input_tokens;
      usage_output_tokens = max t.usage_output_tokens result.output_tokens;
    } in
    let (s1, t1) = record_turn_usage s counted completed in
    let (s2, t2) = apply_done s1 t1 result in
    let s3 =
      post s2
        (learn_from_snapshot t.model_key (entry_messages (lookup t.conv_id s2.conv_cache) [])) in
    let g : IsApart t.conv_id s s3 = IsApart-trans (record_turn_usage-IsApart s counted completed) (
      IsApart-post _ (
        IsApart-at (conv_id-record_turn_usage s counted completed)
          (apply_done-IsApart s1 t1 result))) in
    IsApart-if (t.near_limit && not summarized)
      (IsApart-trans g (begin_summary-IsApart s3 t.conv_id)) g

apply_error-IsApart :
    (s : ConversationState) (t : Turn) (e : StreamError) → IsApart t.conv_id s (apply_error s t e).0
unfolding apply_error current_view_entry
apply_error-IsApart s t e =
    let g = patch_entry-IsApart s t.conv_id (error_patch t e) in
    IsApart-post (toast_error e.message)
      (record { entries = g.entries; active = g.active; view = g.view })

on_event-IsApart :
    (e : StreamEvent) (s : ConversationState) (t : Turn) → IsApart t.conv_id s (on_event e s t).0
unfolding on_event current_view_entry
on_event-IsApart (turn_started m) s t = patch_entry-IsApart s t.conv_id _
on_event-IsApart (delta text) s t = patch_entry-IsApart s t.conv_id _
on_event-IsApart (reasoning chunk) s t = patch_entry-IsApart s t.conv_id _
on_event-IsApart (tool_call f) s t = patch_entry-IsApart s t.conv_id _
on_event-IsApart (tool_result id result status) s t = patch_entry-IsApart s t.conv_id _
on_event-IsApart (usage input output) s t = IsApart-refl t.conv_id s
on_event-IsApart (telemetry d) s t = patch_entry-IsApart s t.conv_id _
on_event-IsApart (warning msg) s t = IsApart-post _ (IsApart-refl t.conv_id s)
on_event-IsApart (title_update id title) s t =
    IsApart-if (str_eq id t.conv_id)
      (record { entries = λ j h. refl; active = refl; view = λ h. refl }) (IsApart-refl t.conv_id s)
on_event-IsApart (title_error msg) s t = IsApart-post _ (IsApart-refl t.conv_id s)
on_event-IsApart (done result summarized) s t = on_done-IsApart s t result summarized
on_event-IsApart (error e) s t =
    let status = if str_eq e.code "stopped" then stopped else failed in
    let (s1, t1) = record_turn_usage s t status in
    IsApart-trans (record_turn_usage-IsApart s t status)
      (IsApart-at (conv_id-record_turn_usage s t status) (apply_error-IsApart s1 t1 e))

conv_id-on_event :
    (e : StreamEvent) (s : ConversationState) (t : Turn) → (on_event e s t).1.conv_id ≡ t.conv_id
unfolding on_event on_done apply_done apply_error
conv_id-on_event (done result summarized) s t =
    conv_id-record_turn_usage s
      (record t {
        usage_input_tokens = max t.usage_input_tokens result.input_tokens;
        usage_output_tokens = max t.usage_output_tokens result.output_tokens;
      })
      completed
conv_id-on_event (error e) s t =
    conv_id-record_turn_usage s t (if str_eq e.code "stopped" then stopped else failed)
conv_id-on_event _ s t = refl

-- Whatever a stream brings, the cache entries of the other conversations stay, the active
-- conversation stays active, and the view stays unless it shows the stream's conversation.
pub run_stream-IsApart :
    (es : List StreamEvent) (s : ConversationState) (t : Turn)
    → IsApart t.conv_id s (run_stream es s t).0
unfolding run_stream
run_stream-IsApart [] s t = IsApart-refl t.conv_id s
run_stream-IsApart (e ∷ es) s t =
    let (s', t') = on_event e s t in
    IsApart-trans (on_event-IsApart e s t)
      (IsApart-at (conv_id-on_event e s t) (run_stream-IsApart es s' t'))
