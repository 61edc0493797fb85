-- ===== src/MultiChat/State.antt =====
-- The state of multiChatStore.ts. What a handler asks of the Gateway and of the toasts is appended
-- to `outbox`; an abort controller is the number under which it was made.
use encore_hub.Shared.{ℕ, ltb, String, Bool, false, Option, none, some, List, [], ◌∷◌, ◌++◌, length}
use encore_hub.Models.{
  Message, Conversation, ConversationParticipant, ReplyMode, sequential, GroupChatSettings,
}

pub data SegmentStatus : Type 0 where
  streaming done skipped error : SegmentStatus

pub record GroupSegment : Type 0 where
  pub participant_id : String
  pub name : String
  pub avatar : String
  pub provider : String
  pub model : String
  pub position : ℕ
  pub content : String
  pub reasoning : String
  pub status : SegmentStatus
  pub failure : Option String

-- `GroupParticipantStart`
pub record ParticipantStart : Type 0 where
  pub participant_id : String
  pub name : String
  pub avatar : String
  pub provider : String
  pub model : String
  pub position : ℕ

pub data RunnerState : Type 0 where
  idle running paused : RunnerState

pub record GroupMemberSelection : Type 0 where
  pub character_id : String
  pub provider : Option String
  pub model : Option String

pub data GroupCall : Type 0 where
  create_conversation : String → ReplyMode → List GroupMemberSelection → GroupCall
  get_conversation : String → GroupCall
  update_reply_mode : String → ReplyMode → GroupCall
  update_settings : String → GroupChatSettings → GroupCall
  enqueue : String → String → List String → GroupCall
  toast_error : String → GroupCall

pub record MultiChatState : Type 0 where
  pub conversations : List Conversation
  pub list_loading : Bool
  pub active_id : Option String
  pub participants : List ConversationParticipant
  pub reply_mode : ReplyMode
  pub group_settings : Option GroupChatSettings
  pub messages : List Message
  pub segments : List GroupSegment
  pub runner_state : RunnerState
  pub pending : ℕ
  pub events_controller : Option ℕ
  pub aborted : List ℕ
  pub outbox : List GroupCall

unfoldable pub initial_group : MultiChatState
initial_group = record {
  conversations = [];
  list_loading = false;
  active_id = none;
  participants = [];
  reply_mode = sequential;
  group_settings = none;
  messages = [];
  segments = [];
  runner_state = idle;
  pending = 0;
  events_controller = none;
  aborted = [];
  outbox = [];
}

-- One more call.
unfoldable pub ask : MultiChatState → GroupCall → MultiChatState
ask s call = record s { outbox = s.outbox ++ call ∷ [] }

abbrev participant_count : Option (List ConversationParticipant) → ℕ
participant_count none = 0
participant_count (some ps) = length ps

unfoldable pub is_group_conversation : Conversation → Bool
is_group_conversation c = ltb 1 (participant_count c.participants)
