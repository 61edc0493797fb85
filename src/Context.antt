-- ===== src/Context.antt =====
-- frontend/src/stores/contextManagementStore.ts: the context meter, compactions and usage records.
-- Estimates are whole tokens; percentages, prices, sampling parameters and panels are left out.
-- The persisted copies in local storage are written with the state and carry no own behaviour.
pub mod Estimate
pub mod Summary
pub mod Store
pub mod Archive
pub mod Compaction
pub mod Reconciled
pub mod AutoCompact
mod Tests
use Prim.Native.String
use Prim.Native.Char.{code}
use encore_hub.Shared.{
  ℕ, zero, suc, ◌+◌, ◌-◌, ◌*◌, ◌/◌, min, max, String, Bool, true, false, not, ◌&&◌, ◌||◌, Option,
  none, some, List, [], ◌∷◌, ◌++◌, length, take, drop, take_last, or_else, leb, ltb, is_empty, trim,
  if◌then◌else◌, ◌==◌,
}
use encore_hub.Models.{Message, ToolCall, CharacterSnapshot, is_assistant}
use encore_hub.TokenModel.{
  TokenTextStats, TokenFeatures, TokenCoefficients, no_text, add_text_stats, count_text_stats,
  round_over, OutputCoefficients, OutputSplit, split_output_tokens, TokenModelState,
}

abbrev pub max_compaction_output_reserve : ℕ
max_compaction_output_reserve = 20000

abbrev pub auto_compact_buffer_tokens : ℕ
auto_compact_buffer_tokens = 13000

abbrev pub default_keep_recent : ℕ
default_keep_recent = 6

unfoldable pub auto_compact_reserve : ℕ → ℕ
auto_compact_reserve max_completion_tokens =
    min max_completion_tokens max_compaction_output_reserve + auto_compact_buffer_tokens

-- `Math.max(0, limit - reserve)` is the subtraction that stops at 0.
unfoldable pub auto_compact_threshold : ℕ → ℕ → ℕ
unfolding auto_compact_reserve
auto_compact_threshold limit max_completion_tokens =
    limit - auto_compact_reserve max_completion_tokens

-- `Math.ceil(asciiBytes / 4)`
unfoldable pub estimate_tokens : String → ℕ
estimate_tokens text =
    let normalized = trim text in
    let stats = count_text_stats normalized in
    if is_empty normalized then 0 else max 1 ((stats.ascii_bytes + 3) / 4 + stats.non_ascii_chars)

pub record ContextCategories : Type 0 where
  pub system : ℕ
  pub tools : ℕ
  pub skills : ℕ
  pub messages : ℕ
  pub other : ℕ

unfoldable pub category_total : ContextCategories → ℕ
category_total c = c.system + c.tools + c.skills + c.messages + c.other

-- Name, arguments and result of each call.
unfoldable pub tool_payload_stats : List ToolCall → TokenTextStats
tool_payload_stats [] = no_text
tool_payload_stats (call ∷ calls) =
    add_text_stats
      (count_text_stats
        (String.◌++◌ call.name (String.◌++◌ call.arguments (or_else call.result ""))))
      (tool_payload_stats calls)

unfoldable pub tool_payload_tokens : List ToolCall → TokenCoefficients → ℕ
tool_payload_tokens calls c =
    let stats = tool_payload_stats calls in
    round_over (c.ascii_per_byte * stats.ascii_bytes + c.non_ascii_per_char * stats.non_ascii_chars)
      c.unit

-- `parts.join("\n\n")`
unfoldable pub join_sections : List String → String
join_sections [] = ""
join_sections (p ∷ []) = p
join_sections (p ∷ q ∷ ps) = String.◌++◌ p (String.◌++◌ "\n\n" (join_sections (q ∷ ps)))

abbrev pub section_if : String → String → List String
section_if text label = if is_empty (trim text) then [] else String.◌++◌ label text ∷ []

unfoldable pub character_prompt_text : Option CharacterSnapshot → String
unfolding join_sections
character_prompt_text none = ""
character_prompt_text (some c) = join_sections (
    section_if c.name "Name: "
    ++ (section_if c.description "Description:\n"
        ++ section_if c.system_prompt "Character instructions:\n"))

abbrev pub non_empty : List String → List String
non_empty [] = []
non_empty (p ∷ ps) = let rest = non_empty ps in if is_empty p then rest else p ∷ rest

-- `time` is what `timeContextText` writes of the clock.
unfoldable pub compose_system_prompt_text :
    Option CharacterSnapshot → String → Option String → String
unfolding character_prompt_text
compose_system_prompt_text character time summary =
    join_sections (non_empty (character_prompt_text character ∷ time ∷ or_else summary "" ∷ []))

pub record UsageFeatureSet : Type 0 where
  pub aggregate : TokenFeatures
  pub system : TokenTextStats
  pub messages : TokenTextStats
  pub tools : TokenTextStats
  pub message_count : ℕ

unfoldable pub content_stats : List Message → TokenTextStats
content_stats [] = no_text
content_stats (m ∷ ms) = add_text_stats (count_text_stats m.content) (content_stats ms)

unfoldable pub message_tool_stats : List Message → TokenTextStats
message_tool_stats [] = no_text
message_tool_stats (m ∷ ms) =
    add_text_stats (tool_payload_stats m.tool_calls) (message_tool_stats ms)

unfoldable pub build_usage_features : List Message → String → UsageFeatureSet
build_usage_features messages system_text =
    let system = count_text_stats system_text in
    let texts = content_stats messages in
    let tools = message_tool_stats messages in
    record {
      aggregate = record {
        ascii_bytes = system.ascii_bytes + texts.ascii_bytes + tools.ascii_bytes;
        non_ascii_chars = system.non_ascii_chars + texts.non_ascii_chars + tools.non_ascii_chars;
        message_count = length messages;
      };
      system = system;
      messages = texts;
      tools = tools;
      message_count = length messages;
    }

unfoldable pub categories_from_features : UsageFeatureSet → TokenCoefficients → ContextCategories
categories_from_features f c = record {
  system =
      round_over
        (c.intercept
          + c.ascii_per_byte * f.system.ascii_bytes
          + c.non_ascii_per_char * f.system.non_ascii_chars)
        c.unit;
  tools =
      round_over
        (c.ascii_per_byte * f.tools.ascii_bytes + c.non_ascii_per_char * f.tools.non_ascii_chars)
        c.unit;
  skills = 0;
  messages =
      round_over
        (c.ascii_per_byte * f.messages.ascii_bytes
          + c.non_ascii_per_char * f.messages.non_ascii_chars
          + c.per_message * f.message_count)
        c.unit;
  other = 0;
}

-- `Math.floor(n * (snapshot / total))`
unfoldable pub scaled : ℕ → ℕ → ℕ → ℕ
scaled n snapshot total = n * snapshot / total

-- `snapshotTokens - …` is cut off at 0, which `reconcile_total` shows to make no difference.
unfoldable pub reconcile_snapshot_categories : ContextCategories → ℕ → ContextCategories
unfolding category_total scaled
reconcile_snapshot_categories e snapshot =
    let total = category_total e in
    let system = scaled e.system snapshot total in
    let tools = scaled e.tools snapshot total in
    let skills = scaled e.skills snapshot total in
    let messages = scaled e.messages snapshot total in
    if leb total snapshot
    then record e { other = snapshot - total }
    else if total == 0
    then record e { other = snapshot }
    else record {
      system = system;
      tools = tools;
      skills = skills;
      messages = messages;
      other = snapshot - (system + tools + skills + messages);
    }

abbrev both_counts : Option ℕ → Option ℕ → Bool
both_counts (some i) (some o) = true
both_counts _ _ = false

-- A message with the provider's counts for the whole context.
abbrev pub is_snapshot : Message → Bool
is_snapshot m = is_assistant m.role && both_counts m.context_input_tokens m.context_output_tokens

-- The last such message, none for -1.
unfoldable pub latest_context_snapshot_index : List Message → Option ℕ
latest_context_snapshot_index [] = none
latest_context_snapshot_index (m ∷ ms) = elim (latest_context_snapshot_index ms) [
  | some i ↦ some (suc i)
  | none ↦ if is_snapshot m then some zero else none
]

pub data CompactionSource : Type 0 where
  local summary : CompactionSource

pub record CompactionState : Type 0 where
  pub summary : String
  pub keep_recent : ℕ
  pub source_tokens : ℕ
  pub created_at : ℕ
  pub start_message_id : Option String
  pub end_message_id : Option String
  pub source : Option CompactionSource
