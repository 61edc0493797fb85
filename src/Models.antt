-- ===== src/Models.antt =====
-- The records that the Gateway's services exchange with the stores:
-- frontend/src/services/conversation.ts, characters.ts and chat.ts. A field that no modelled
-- operation reads or writes is left out (attachments, token totals, avatars, counters). A time
-- stamp is the instant that `Date.parse` reads from it.
use encore_hub.Shared.{ℕ, String, Bool, true, false, Option, List}

pub data Role : Type 0 where
  user assistant system tool : Role

pub data TurnStatus : Type 0 where
  pending completed failed stopped : TurnStatus

pub data CallStatus : Type 0 where
  pending success error : CallStatus

pub record ToolCall : Type 0 where
  pub id : String
  pub name : String
  pub arguments : String
  pub result : Option String
  pub status : Option CallStatus

pub record Message : Type 0 where
  pub id : String
  pub role : Role
  pub content : String
  pub reasoning : Option String
  pub parent_id : Option String
  pub sender_character_id : Option String
  pub tool_calls : List ToolCall
  pub context_input_tokens : Option ℕ
  pub context_output_tokens : Option ℕ
  pub status : TurnStatus
  pub created_at : ℕ

pub data ReplyMode : Type 0 where
  sequential smart : ReplyMode

pub record CharacterSnapshot : Type 0 where
  pub name : String
  pub description : String
  pub system_prompt : String

pub record ConversationParticipant : Type 0 where
  pub character_id : String
  pub position : ℕ
  pub provider : String
  pub model : String

pub record ConversationPersona : Type 0 where
  pub name : String
  pub avatar : String
  pub description : String

pub record GroupChatSettings : Type 0 where
  pub auto_chat_enabled : Bool
  pub max_auto_turns : Option ℕ
  pub allow_bot_mentions : Bool
  pub paused : Bool
  pub user_persona : ConversationPersona

pub record Conversation : Type 0 where
  pub id : String
  pub title : String
  pub provider : String
  pub model : String
  pub character_snapshot : Option CharacterSnapshot
  pub reply_mode : Option ReplyMode
  pub participants : Option (List ConversationParticipant)
  pub group_settings : Option GroupChatSettings

-- A tool call while it streams, told apart by its fragment index.
pub record StreamToolCall : Type 0 where
  pub index : ℕ
  pub id : Option String
  pub name : String
  pub arguments : String
  pub result : Option String
  pub status : Option CallStatus

pub Role-discrete : Discrete Role
Role-discrete = hlevel

-- `role === "user"` and `role === "assistant"`
abbrev pub is_user : Role → Bool
is_user user = true
is_user _ = false

abbrev pub is_assistant : Role → Bool
is_assistant assistant = true
is_assistant _ = false

abbrev pub is_pending : TurnStatus → Bool
is_pending TurnStatus.pending = true
is_pending _ = false
