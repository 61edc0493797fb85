-- ===== src/Context/Store.antt =====
-- The operations of contextManagementStore.ts on usage records and compactions. `saves` lists the
-- requests to /conversations/{id}/summary; their failures show a toast and change no state.
use encore_hub.Shared.{
  ℕ, ◌+◌, ◌-◌, min, String, Bool, not, ◌&&◌, ◌||◌, Option, none, some, List, [], ◌∷◌, ◌++◌, length,
  get_elem?, take, last?, keep, find_index, Assoc, lookup, insert, remove, or_else, is_empty,
  is_some, str_eq, if◌then◌else◌, ◌==◌,
}
use encore_hub.Models.{Message, CharacterSnapshot, TurnStatus}
use encore_hub.TokenModel.{
  TokenFeatures, ModelStore, add_text_stats, count_text_stats, record_sample, record_output_sample,
}
use encore_hub.Context.{
  CompactionState, CompactionSource, default_keep_recent, compose_system_prompt_text,
  build_usage_features, tool_payload_stats, latest_context_snapshot_index,
}
use encore_hub.Context.Estimate.{summary_of, snapshot_at}
use encore_hub.Context.Summary.{sum_tokens, archived_messages, build_compaction_summary}

abbrev pub max_usage_records : ℕ
max_usage_records = 500

pub record UsageRecord : Type 0 where
  pub id : String
  pub conversation_id : String
  pub provider : String
  pub model : String
  pub input_tokens : ℕ
  pub output_tokens : ℕ
  pub duration_ms : ℕ
  pub status : TurnStatus
  pub created_at : ℕ

pub data SummaryRequest : Type 0 where
  save : (conversation_id summary start_id end_id : String) → SummaryRequest
  delete : (conversation_id : String) → SummaryRequest

pub record ContextState : Type 0 where
  pub records : List UsageRecord
  pub auto_compact : Bool
  pub compactions : Assoc CompactionState
  pub saves : List SummaryRequest

-- The record's id is drawn by the caller.
unfoldable pub record_usage : UsageRecord → ContextState → ContextState
record_usage r s = record s { records = take max_usage_records (r ∷ s.records) }

unfoldable pub clear_usage : ContextState → ContextState
clear_usage s = record s { records = [] }

unfoldable pub set_auto_compact : Bool → ContextState → ContextState
set_auto_compact enabled s = record s { auto_compact = enabled }

abbrev pub message_id : Option Message → Option String
message_id none = none
message_id (some m) = some m.id

-- `if (startMessageId && endMessageId)`
abbrev save_request : String → String → Option String → Option String → List SummaryRequest
save_request id text (some start) (some finish) =
    if is_empty start || is_empty finish then [] else SummaryRequest.save id text start finish ∷ []
save_request id text _ _ = []

unfoldable pub with_range : CompactionState → List Message → CompactionState
with_range c archived = record c {
  start_message_id = message_id (get_elem? archived 0);
  end_message_id = message_id (last? archived);
  source = some CompactionSource.local;
}

-- What `compactConversation` does with the preview.
unfoldable pub store_preview :
    String
    → List Message
    → Option CompactionState
    → ContextState
    → ContextState × Option CompactionState
unfolding with_range
store_preview id messages none s = (s, none)
store_preview id messages (some result) s =
    let ranged = with_range result (archived_messages result.keep_recent messages) in
    (
      record s {
        compactions = insert id ranged s.compactions;
        saves =
            s.saves ++ save_request id result.summary ranged.start_message_id ranged.end_message_id;
      },
      some result,
    )

unfoldable pub compact_conversation :
    String → List Message → ℕ → ContextState → ContextState × Option CompactionState
unfolding store_preview
compact_conversation id messages now s =
    store_preview id messages (build_compaction_summary messages now) s

unfoldable pub clear_compaction : String → ContextState → ContextState
clear_compaction id s = record s {
  compactions = remove id s.compactions;
  saves = s.saves ++ SummaryRequest.delete id ∷ [];
}

pub record SummaryResult : Type 0 where
  pub text : String
  pub keep_recent : ℕ
  pub start_message_id : String
  pub end_message_id : String

unfoldable pub set_summarized_compaction :
    String → SummaryResult → List Message → ℕ → ContextState → ContextState
unfolding sum_tokens
set_summarized_compaction id summary messages now s =
    let kept = min summary.keep_recent (length messages) in
    record s {
      compactions =
          insert id
            (record {
              summary = summary.text;
              keep_recent = kept;
              source_tokens = sum_tokens (archived_messages kept messages);
              created_at = now;
              start_message_id = some summary.start_message_id;
              end_message_id = some summary.end_message_id;
              source = some CompactionSource.summary;
            })
            s.compactions;
    }

-- `endMessageId ? messages.findIndex(…) : -1`
unfoldable pub end_index : Option String → List Message → Option ℕ
end_index none messages = none
end_index (some id) messages =
    if is_empty id then none else find_index (λ m. str_eq m.id id) messages

unfoldable pub restored_keep : Option ℕ → List Message → ℕ
restored_keep none messages = default_keep_recent
restored_keep (some i) messages = length messages - i - 1

unfoldable pub restored_compaction :
    String → Option String → Option String → List Message → ℕ → CompactionState
unfolding end_index restored_keep sum_tokens
restored_compaction summary start finish messages now =
    let kept = restored_keep (end_index finish messages) messages in
    record {
      summary = summary;
      keep_recent = kept;
      source_tokens = sum_tokens (archived_messages kept messages);
      created_at = now;
      start_message_id = start;
      end_message_id = finish;
      source = none;
    }

unfoldable pub restore_compaction :
    String
    → Option String
    → Option String
    → Option String
    → List Message
    → ℕ
    → ContextState
    → ContextState
unfolding restored_compaction
restore_compaction id summary start finish messages now s =
    let text = or_else summary "" in
    if is_empty text || is_some (lookup id s.compactions) then s else record s {
      compactions = insert id (restored_compaction text start finish messages now) s.compactions;
    }

-- What the fit learns from: the prompt without the snapshot's message, with its tool calls.
unfoldable pub snapshot_features : List Message → Message → String → TokenFeatures
snapshot_features messages snapshot system_text =
    let before = keep (λ m. not (str_eq m.id snapshot.id)) messages in
    let base = (build_usage_features before system_text).aggregate in
    let tools = tool_payload_stats snapshot.tool_calls in
    record {
      ascii_bytes = base.ascii_bytes + tools.ascii_bytes;
      non_ascii_chars = base.non_ascii_chars + tools.non_ascii_chars;
      message_count = base.message_count;
    }

unfoldable pub learn_output : ModelStore → String → Message → ℕ → ModelStore
learn_output models key snapshot output =
    let generated =
      add_text_stats (count_text_stats snapshot.content)
        (count_text_stats (or_else snapshot.reasoning "")) in
    if generated.ascii_bytes == 0 && generated.non_ascii_chars == 0
    then models
    else record_output_sample models key snapshot.id generated output

unfoldable pub learn_from_snapshot :
    ModelStore
    → String
    → List Message
    → Option CompactionState
    → Option CharacterSnapshot
    → String
    → ModelStore
unfolding snapshot_features learn_output
learn_from_snapshot models key messages compaction character time =
    let system_text = compose_system_prompt_text character time (summary_of compaction) in
    if is_empty key
    then models
    else elim (snapshot_at (latest_context_snapshot_index messages) messages) [
      | none ↦ models
      | some m ↦
          learn_output
            (record_sample models key m.id (snapshot_features messages m system_text)
              (or_else m.context_input_tokens 0))
            key m (or_else m.context_output_tokens 0)
    ]
