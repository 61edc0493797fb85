-- ===== src/Context/Tests.antt =====
-- A short transcript of contextManagementStore.ts, metered, compacted and restored.
use encore_hub.Shared.{String, true, false, ◌≡◌, refl, none, some, List, [], ◌∷◌, lookup, insert}
use encore_hub.Models.{Message, user, assistant, completed}
use encore_hub.TokenModel.{
  count_text_stats, TokenModelState, default_coefficients, default_output_coefficients,
}
use encore_hub.Context.{CompactionState, CompactionSource, estimate_tokens}
use encore_hub.Context.Estimate.{estimate_context_usage}
use encore_hub.Context.Summary.{preview_lines, preview_state, build_compaction_summary}
use encore_hub.Context.Store.{ContextState, compact_conversation, restore_compaction}
use encore_hub.Context.AutoCompact.{sent_part, compact_before_turn, compact_before_turn-sent}
use encore_hub.Context.Reconciled.{RowsAdd, estimate_context_usage-RowsAdd}
use encore_hub.Context.Compaction.{Restores, restore-compact, restore_compaction-keeps}

abbrev question : String → Message
question id = record {
  id = id;
  role = user;
  content = "what is it?";
  reasoning = none;
  parent_id = none;
  sender_character_id = none;
  tool_calls = [];
  context_input_tokens = none;
  context_output_tokens = none;
  status = completed;
  created_at = 1;
}

abbrev reply : String → Message
reply id = record (question id) {
  role = assistant;
  content = "an answer";
  reasoning = some "thinking";
  context_input_tokens = some 3;
  context_output_tokens = some 9;
}

abbrev transcript : List Message
transcript = question "1" ∷ reply "2" ∷ question "3" ∷ reply "4" ∷ question "5" ∷ []

abbrev model : TokenModelState
model = record {
  coeffs = default_coefficients;
  sample_count = 0;
  trusted = false;
  output_coeffs = default_output_coefficients;
  output_sample_count = 0;
  output_trusted = false;
}

estimate_context_usage-RowsAdd_example :
    RowsAdd (estimate_context_usage model transcript (some 1000) none 0 none "12:00")
estimate_context_usage-RowsAdd_example =
    estimate_context_usage-RowsAdd model transcript (some 1000) none 0 none "12:00"

abbrev empty_context : ContextState
empty_context = record { records = []; auto_compact = true; compactions = []; saves = [] }

-- The first three messages are archived and the last two kept.
abbrev compacted : CompactionState
compacted = record {
  summary =
      "Earlier conversation context (3 messages):\nUser: what is it?\nAssistant: an answer\nUser: what is it?";
  keep_recent = 2;
  source_tokens = 9;
  created_at = 50;
  start_message_id = some "1";
  end_message_id = some "3";
  source = some CompactionSource.local;
}

compacted_lem :
    lookup "c" (compact_conversation "c" transcript 50 empty_context).0.compactions ≡ some compacted
unfolding compact_conversation lookup build_compaction_summary preview_lines insert preview_state
    estimate_tokens count_text_stats
compacted_lem = refl

-- Two messages are added before the summary is restored.
restore-compact_example :
    Restores "c" "3" transcript (question "7" ∷ question "8" ∷ []) 90 empty_context compacted
unfolding lookup
restore-compact_example =
    restore-compact "c" "3" transcript (question "7" ∷ question "8" ∷ []) 50 90 empty_context
      empty_context compacted (refl, (refl, (refl, (refl, (refl, (refl, (refl, tt))))))) refl
      compacted_lem refl refl refl

abbrev kept_context : ContextState
kept_context = record empty_context { compactions = ("c", compacted) ∷ [] }

restore_compaction-keeps_example :
    lookup "c"
      (restore_compaction "c"
        (some "older")
        (some "1")
        (some "2")
        transcript
        90
        kept_context).compactions
    ≡ some compacted
unfolding lookup
restore_compaction-keeps_example =
    restore_compaction-keeps "c" "c" (some "older") (some "1") (some "2") transcript 90 kept_context
      compacted refl

-- A window of 100 tokens with the default reserve is always near its limit.
compact_before_turn-sent_example :
    let (stored, sent) =
      compact_before_turn model "c" transcript (some 100) 4096 none "12:00" 50 empty_context in
    sent_part sent ≡ sent_part (lookup "c" stored.compactions)
compact_before_turn-sent_example =
    compact_before_turn-sent model "c" transcript (some 100) 4096 none "12:00" 50 empty_context
