-- ===== src/Context/AutoCompact.antt =====
-- The compaction before a turn: `sendMessage` of conversationStore.ts with the operations of
-- contextManagementStore.ts.
use encore_hub.Shared.{
  ℕ, String, Bool, true, false, ◌&&◌, ◌≡◌, ap, sym, refl, Option, none, some, List, lookup,
  or_option, leb, if◌then◌else◌, ◌==◌, not,
}
use encore_hub.Models.{Message, CharacterSnapshot}
use encore_hub.TokenModel.{TokenModelState}
use encore_hub.Context.{CompactionState, auto_compact_threshold}
use encore_hub.Context.Estimate.{estimate_context_usage}
use encore_hub.Context.Summary.{build_compaction_summary}
use encore_hub.Context.Store.{ContextState, with_range, store_preview, compact_conversation}
use encore_hub.Context.Compaction.{stored_some}

-- The test that `sendMessage` makes before a turn and again when it is done. A window of 0 is no
-- window.
unfoldable pub is_near_limit : Bool → Option ℕ → ℕ → ℕ → Bool
unfolding auto_compact_threshold
is_near_limit auto none max_completion tokens = false
is_near_limit auto (some limit) max_completion tokens =
    auto && not (limit == 0) && leb (auto_compact_threshold limit max_completion) tokens

unfoldable pub turn_is_near_limit :
    TokenModelState
    → String
    → List Message
    → Option ℕ
    → ℕ
    → Option CharacterSnapshot
    → String
    → ContextState
    → Bool
unfolding is_near_limit
turn_is_near_limit model id previous limit max_completion character time s =
    is_near_limit s.auto_compact limit max_completion
      (estimate_context_usage model previous limit (lookup id s.compactions) 0 character
        time).context_tokens

-- `compactConversation(…) ?? contextSummary`
unfoldable pub compact_if :
    Bool → String → List Message → ℕ → ContextState → ContextState × Option CompactionState
compact_if near id previous now s =
    let existing = lookup id s.compactions in
    let (compacted, made) = compact_conversation id previous now s in
    if near then (compacted, or_option made existing) else (s, existing)

-- The state after the compaction, and the compaction that the turn sends.
unfoldable pub compact_before_turn :
    TokenModelState
    → String
    → List Message
    → Option ℕ
    → ℕ
    → Option CharacterSnapshot
    → String
    → ℕ
    → ContextState
    → ContextState × Option CompactionState
unfolding compact_if turn_is_near_limit
compact_before_turn model id previous limit max_completion character time now s =
    compact_if (turn_is_near_limit model id previous limit max_completion character time s) id
      previous now s

-- What a turn sends of a compaction: `contextSummary` and `contextKeepRecent`.
abbrev pub sent_part : Option CompactionState → Option (String × ℕ)
sent_part none = none
sent_part (some c) = some (c.summary, c.keep_recent)

sent_stored :
    (id : String) (previous : List Message) (s : ContextState) (o : Option CompactionState)
    → sent_part (or_option (store_preview id previous o s).1 (lookup id s.compactions))
      ≡ sent_part (lookup id (store_preview id previous o s).0.compactions)
unfolding store_preview with_range
sent_stored id previous s none = refl
sent_stored id previous s (some r) = sym (ap sent_part (stored_some id previous s (some r) r refl))

sent_compacted :
    (b : Bool) (id : String) (previous : List Message) (now : ℕ) (s : ContextState)
    → sent_part (compact_if b id previous now s).1
      ≡ sent_part (lookup id (compact_if b id previous now s).0.compactions)
unfolding compact_if compact_conversation
sent_compacted true id previous now s =
    sent_stored id previous s (build_compaction_summary previous now)
sent_compacted false id previous now s = refl

-- Whether a turn is near its limit or not, and whether a preview can be made or not, the summary and
-- the number of recent messages that the turn sends are those that the store keeps for the
-- conversation.
pub compact_before_turn-sent :
    (model : TokenModelState) (id : String) (previous : List Message) (limit : Option ℕ)
    (max_completion : ℕ) (character : Option CharacterSnapshot) (time : String) (now : ℕ)
    (s : ContextState)
    → let (stored, sent) =
        compact_before_turn model id previous limit max_completion character time now s in
      sent_part sent ≡ sent_part (lookup id stored.compactions)
unfolding compact_before_turn
compact_before_turn-sent model id previous limit max_completion character time now s =
    sent_compacted (turn_is_near_limit model id previous limit max_completion character time s) id
      previous now s
