-- ===== src/ConversationStore/Mirror.antt =====
-- The view and the cache (conversationStore.ts): the top-level fields mirror the cache entry of the
-- active conversation. This file has the invariant and the rules for the reducers.
pub mod Handlers
pub mod Turns
pub mod Runs
use encore_hub.Shared.{
  ℕ, String, Bool, Bool-cases, true, false, not, ◌&&◌, ◌||◌, ◌≡◌, ◌≢◌, ◌∙◌, sym, ap, refl, inl, inr,
  Option, Option-cases, none, some, List, [], ◌∷◌, Assoc, lookup, insert, remove, mem, is_some,
  opt_is, or_else, str_eq, if◌then◌else◌, arith, eq_iff, lookup-insert, lookup-remove,
}
use encore_hub.Models.{Message, StreamToolCall}
use encore_hub.ConversationStore.State.{
  Call, ConvCacheEntry, ConversationState, current_view_entry, empty_cache_entry, post,
}
use encore_hub.ConversationStore.Cache.{
  Patch, apply_patch, pick, mirror_patch, cache_update_at, cache_update,
}

-- The empty id is no conversation: `if (!id)` in the source.
pub record Mirrors (s : ConversationState) : Type 0 where
  pub shows :
      (id : String) (e : ConvCacheEntry)
      → id ≢ ""
      → s.active_id ≡ some id
      → lookup id s.conv_cache ≡ some e
      → current_view_entry s ≡ e

pub Mirrors-if :
    {s t : ConversationState} (b : Bool) → Mirrors s → Mirrors t → Mirrors (if b then s else t)
Mirrors-if true h k = h
Mirrors-if false h k = k

pub Mirrors-post : {s : ConversationState} (c : Call) → Mirrors s → Mirrors (post s c)
unfolding post current_view_entry
Mirrors-post c h = record { shows = h.shows }

pick_lem {ℓ} :
    {A : Type ℓ} (o : Option A) (prev old : A) → pick o (or_else o prev) old ≡ or_else o old
pick_lem none prev old = refl
pick_lem (some a) prev old = refl

view-mirror_patch :
    (s : ConversationState) (p : Patch) (prev : ConvCacheEntry)
    → current_view_entry (mirror_patch s p (apply_patch prev p))
      ≡ apply_patch (current_view_entry s) p
unfolding current_view_entry mirror_patch apply_patch
view-mirror_patch s p prev = λ i. record {
  messages = pick_lem p.messages prev.messages s.messages i;
  streaming = pick_lem p.streaming prev.streaming s.streaming i;
  streaming_content = pick_lem p.streaming_content prev.streaming_content s.streaming_content i;
  streaming_reasoning =
      pick_lem p.streaming_reasoning prev.streaming_reasoning s.streaming_reasoning i;
  streaming_duration_ms =
      pick_lem p.streaming_duration_ms prev.streaming_duration_ms s.streaming_duration_ms i;
  streaming_tool_calls =
      pick_lem p.streaming_tool_calls prev.streaming_tool_calls s.streaming_tool_calls i;
  abort_controller = pick_lem p.abort_controller prev.abort_controller s.abort_controller i;
}

pub opt_is-some : (o : Option String) (id j : String) → opt_is o id ≡ true → o ≡ some j → id ≡ j
opt_is-some o id j h e = ground (arith, eq_iff j id)

pub opt_is-other : (o : Option String) (id j : String) → opt_is o id ≡ false → o ≡ some j → id ≢ j
opt_is-other o id j h e = ground (arith, eq_iff j id)

pub insert_hit {ℓ} :
    {V : Type ℓ} (k j : String) (v : V) (d : Assoc V) {w : V}
    → k ≡ j
    → lookup j (insert k v d) ≡ some w
    → v ≡ w
insert_hit k j v d same l = ground (arith, lookup-insert k j v d, eq_iff k j)

pub insert_miss {ℓ} :
    {V : Type ℓ} (k j : String) (v : V) (d : Assoc V) {w : V}
    → k ≢ j
    → lookup j (insert k v d) ≡ some w
    → lookup j d ≡ some w
insert_miss k j v d other l = ground (arith, lookup-insert k j v d, eq_iff k j)

view_of_record :
    (s : ConversationState) (d : Assoc ConvCacheEntry)
    → current_view_entry (record s { conv_cache = d }) ≡ current_view_entry s
unfolding current_view_entry
view_of_record s d = refl

-- The active conversation's own patch reaches the entry and the view alike.
active_patch-Mirrors :
    (s : ConversationState) (id : String) (p : Patch) (prev : ConvCacheEntry)
    → lookup id s.conv_cache ≡ some prev
    → opt_is s.active_id id ≡ true
    → Mirrors s
    → Mirrors (
        mirror_patch
          (record s { conv_cache = insert id (apply_patch prev p) s.conv_cache })
          p
          (apply_patch prev p))
unfolding mirror_patch
active_patch-Mirrors s id p prev found active h = record {
  shows = λ j e named a l.
      let t = record s { conv_cache = insert id (apply_patch prev p) s.conv_cache } in
      let same = opt_is-some s.active_id id j active a in
      view-mirror_patch t p prev
      ∙ ap (λ v. apply_patch v p)
          (view_of_record s t.conv_cache ∙ h.shows id prev (rw same named) (rw same a) found)
      ∙ insert_hit id j (apply_patch prev p) s.conv_cache same l;
}

-- Another conversation's patch leaves the view and the active entry alone.
pub other_patch-Mirrors :
    (s : ConversationState) (id : String) (entry : ConvCacheEntry)
    → opt_is s.active_id id ≡ false
    → Mirrors s
    → Mirrors (record s { conv_cache = insert id entry s.conv_cache })
unfolding current_view_entry
other_patch-Mirrors s id entry other h = record {
  shows = λ j e named a l.
      h.shows j e named a
        (insert_miss id j entry s.conv_cache (opt_is-other s.active_id id j other a) l);
}

cache_update_at-Mirrors :
    (s : ConversationState) (id : String) (p : Patch) (o : Option ConvCacheEntry)
    → lookup id s.conv_cache ≡ o
    → Mirrors s
    → Mirrors (cache_update_at s id p o)
unfolding cache_update_at
cache_update_at-Mirrors s id p none found h = h
cache_update_at-Mirrors s id p (some prev) found h = elim (Bool-cases (opt_is s.active_id id)) [
  | inl e ↦ rw e (active_patch-Mirrors s id p prev found e h)
  | inr e ↦ rw e (other_patch-Mirrors s id (apply_patch prev p) e h)
]

pub cache_update-Mirrors :
    (s : ConversationState) (id : String) (p : Patch) → Mirrors s → Mirrors (cache_update s id p)
cache_update-Mirrors s id p h =
    unfold cache_update in cache_update_at-Mirrors s id p (lookup id s.conv_cache) refl h

-- The view is that of a conversation with no stream.
abbrev pub IsQuiet : ConversationState → Type 0
IsQuiet s = current_view_entry s ≡ empty_cache_entry s.messages
