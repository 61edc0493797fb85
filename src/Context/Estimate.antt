-- ===== src/Context/Estimate.antt =====
-- `estimateContextUsage` of contextManagementStore.ts.
use encore_hub.Shared.{
  ℕ, suc, ◌+◌, ◌-◌, String, Bool, false, not, ◌&&◌, Option, none, some, List, [], get_elem?, take,
  drop, take_last, or_else, ltb, is_empty, if◌then◌else◌, ◌==◌,
}
use encore_hub.Models.{Message, CharacterSnapshot}
use encore_hub.TokenModel.{
  TokenCoefficients, OutputCoefficients, split_output_tokens, TokenModelState,
}
use encore_hub.Context.{
  ContextCategories, category_total, tool_payload_tokens, compose_system_prompt_text,
  build_usage_features, categories_from_features, reconcile_snapshot_categories,
  latest_context_snapshot_index, CompactionState,
}

pub data EstimateSource : Type 0 where
  provider estimated : EstimateSource

pub record ContextBreakdown : Type 0 where
  pub used_tokens : ℕ
  pub context_tokens : ℕ
  pub limit : Option ℕ
  pub free_tokens : Option ℕ
  pub reserved_tokens : ℕ
  pub source : EstimateSource
  pub snapshot_input_tokens : Option ℕ
  pub snapshot_output_tokens : Option ℕ
  pub categories : ContextCategories

-- The messages that the next request carries: the recent ones behind a compaction.
unfoldable pub active_messages : Option CompactionState → List Message → List Message
active_messages none messages = messages
active_messages (some c) messages =
    if is_empty c.summary
    then messages
    else if c.keep_recent == 0
    then []
    else take_last c.keep_recent messages

abbrev pub summary_of : Option CompactionState → Option String
summary_of none = none
summary_of (some c) = some c.summary

-- A compaction made after the snapshot's message.
unfoldable pub compacted_after : Option CompactionState → Message → Bool
compacted_after none m = false
compacted_after (some c) m = not (is_empty c.summary) && ltb m.created_at c.created_at

-- The three parts of a measured context: what the provider counted, the visible part of its answer
-- and what was appended since.
pub record Measured : Type 0 where
  pub covered : ContextCategories
  pub visible_output : ℕ
  pub appended_messages : ℕ
  pub appended_tools : ℕ

unfoldable pub measure :
    TokenCoefficients → OutputCoefficients → List Message → ℕ → Message → ℕ → ℕ → String → Measured
measure coeffs output_coeffs messages index snapshot input output system_text =
    let before =
      categories_from_features (build_usage_features (take index messages) system_text) coeffs in
    let with_tools = record before {
      tools = before.tools + tool_payload_tokens snapshot.tool_calls coeffs;
    } in
    let after =
      categories_from_features (build_usage_features (drop (suc index) messages) "") coeffs in
    record {
      covered = reconcile_snapshot_categories with_tools input;
      visible_output =
          (split_output_tokens output_coeffs snapshot.content (or_else snapshot.reasoning "")
            output).visible;
      appended_messages = after.messages;
      appended_tools = after.tools;
    }

unfoldable pub breakdown_of : Option ℕ → ℕ → ℕ → ℕ → ContextBreakdown → ContextBreakdown
breakdown_of limit reserved used context base = record base {
  used_tokens = used;
  context_tokens = context;
  limit = limit;
  free_tokens = elim limit [
    | none ↦ none
    | some n ↦ if n == 0 then none else some (n - context - reserved)
  ];
  reserved_tokens = reserved;
}

unfoldable pub measured_breakdown : Option ℕ → ℕ → ℕ → ℕ → Measured → ContextBreakdown
unfolding breakdown_of
measured_breakdown limit reserved input output m =
    let appended = m.appended_messages + m.appended_tools in
    breakdown_of limit reserved (input + appended) (input + m.visible_output + appended) (record {
      used_tokens = 0;
      context_tokens = 0;
      limit = none;
      free_tokens = none;
      reserved_tokens = 0;
      source = provider;
      snapshot_input_tokens = some input;
      snapshot_output_tokens = some output;
      categories = record (m.covered) {
        messages = m.covered.messages + m.visible_output + m.appended_messages;
        tools = m.covered.tools + m.appended_tools;
      };
    })

unfoldable pub estimated_breakdown : Option ℕ → ℕ → ContextCategories → ContextBreakdown
unfolding breakdown_of
estimated_breakdown limit reserved categories =
    let used = category_total categories in
    breakdown_of limit reserved used used (record {
      used_tokens = 0;
      context_tokens = 0;
      limit = none;
      free_tokens = none;
      reserved_tokens = 0;
      source = estimated;
      snapshot_input_tokens = none;
      snapshot_output_tokens = none;
      categories = categories;
    })

abbrev pub snapshot_at : Option ℕ → List Message → Option Message
snapshot_at none messages = none
snapshot_at (some i) messages = get_elem? messages i

unfoldable pub estimate_context_usage :
    TokenModelState
    → List Message
    → Option ℕ
    → Option CompactionState
    → ℕ
    → Option CharacterSnapshot
    → String
    → ContextBreakdown
unfolding active_messages compacted_after measured_breakdown estimated_breakdown
estimate_context_usage model messages limit compaction reserved character time =
    let system_text = compose_system_prompt_text character time (summary_of compaction) in
    let index = latest_context_snapshot_index messages in
    let rough = estimated_breakdown limit reserved (
      categories_from_features
        (build_usage_features (active_messages compaction messages) system_text) model.coeffs) in
    elim (snapshot_at index messages) [
      | none ↦ rough
      | some m ↦
          let input = or_else m.context_input_tokens 0 in
          let output = or_else m.context_output_tokens 0 in
          if compacted_after compaction m
          then rough
          else measured_breakdown limit reserved input output (
              measure model.coeffs model.output_coeffs messages (or_else index 0) m input output
                system_text)
    ]
