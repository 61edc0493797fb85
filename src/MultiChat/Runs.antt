-- ===== src/MultiChat/Runs.antt =====
-- A group over time (multiChatStore.ts): its actions in any order, the subscriptions that they
-- make, and the text that the members stream.
use Prim.Native.String
use text.Mathlib.TextLemmas
use encore_hub.Shared.{
  ℕ, String, Bool, true, false, ◌||◌, any, ◌≡◌, ◌≢◌, ◌∙◌, sym, refl, Option, none, some, List, [],
  ◌∷◌, str_eq, ◌==◌, if◌then◌else◌, arith, eq_iff,
}
use encore_hub.Models.{Message, ReplyMode, GroupChatSettings, Conversation}
use encore_hub.MultiChat.State.{GroupMemberSelection, GroupSegment, MultiChatState, ask}
use encore_hub.MultiChat.Handlers.{
  GroupDetail, abort_events, create_group_start, create_group_done, send_group_failed,
  stop_group_failed, subscribe, load_conversations_start, load_conversations_done,
  load_conversations_failed, open_conversation_start, open_conversation_done,
  open_conversation_failed, close_conversation, remove_conversation_start, remove_conversation_done,
  set_reply_mode_start, set_reply_mode_failed, save_group_settings_start, save_group_settings_done,
  save_group_settings_failed, send_group_start, send_group_done, stop_group,
}
use encore_hub.MultiChat.Stream.{update_segment, GroupEvent, runner_changed, delta, on_group_event}
use encore_hub.MultiChat.Segments.{has_member}

pub data GroupAction : Type 0 where
  list_start : GroupAction
  list_done : List Conversation → GroupAction
  list_failed : String → GroupAction
  open_start : String → GroupAction
  opened : String → GroupDetail → ℕ → GroupAction
  open_failed : String → GroupAction
  create_start : String → ReplyMode → List GroupMemberSelection → GroupAction
  created : String → Option GroupChatSettings → GroupAction
  close : GroupAction
  remove_start removed : String → GroupAction
  set_mode : ReplyMode → GroupAction
  mode_failed : ReplyMode → String → GroupAction
  save_settings : GroupChatSettings → GroupAction
  settings_saved : GroupChatSettings → Option GroupChatSettings → GroupAction
  settings_failed : Option GroupChatSettings → String → GroupAction
  subscribed : ℕ → GroupAction
  event : GroupEvent → GroupAction
  send : String → List String → GroupAction
  sent : Option String → Option ℕ → Option Message → GroupAction
  send_failed : String → GroupAction
  stop : GroupAction
  stop_failed : String → GroupAction

unfoldable pub act : MultiChatState → GroupAction → MultiChatState
act s list_start = load_conversations_start s
act s (list_done conversations) = load_conversations_done s conversations
act s (list_failed message) = load_conversations_failed s message
act s (open_start id) = open_conversation_start s id
act s (opened id detail controller) = open_conversation_done s id detail controller
act s (open_failed message) = open_conversation_failed s message
act s (create_start title mode members) = create_group_start s title mode members
act s (created id settings) = create_group_done s id settings
act s close = close_conversation s
act s (remove_start id) = remove_conversation_start s id
act s (removed id) = remove_conversation_done s id
act s (set_mode mode) = (set_reply_mode_start s mode).0
act s (mode_failed previous message) = set_reply_mode_failed s previous message
act s (save_settings settings) = (save_group_settings_start s settings).0
act s (settings_saved settings updated) = save_group_settings_done s settings updated
act s (settings_failed previous message) = save_group_settings_failed s previous message
act s (subscribed controller) = subscribe s controller
act s (event e) = on_group_event s e
act s (send content mentions) = send_group_start s content mentions
act s (sent command queued message) = send_group_done s command queued message
act s (send_failed message) = send_group_failed s message
act s stop = stop_group s
act s (stop_failed message) = stop_group_failed s message

unfoldable pub act_all : MultiChatState → List GroupAction → MultiChatState
act_all s [] = s
act_all s (a ∷ rest) = act_all (act s a) rest

-- The controllers of the subscriptions made.
abbrev pub was_issued : ℕ → List GroupAction → Bool
was_issued c [] = false
was_issued c (opened id detail controller ∷ rest) = controller == c || was_issued c rest
was_issued c (subscribed controller ∷ rest) = controller == c || was_issued c rest
was_issued c (_ ∷ rest) = was_issued c rest

abbrev pub was_aborted : ℕ → MultiChatState → Bool
was_aborted c s = any (λ a. a == c) s.aborted

abbrev pub is_current : ℕ → Option ℕ → Bool
is_current c none = false
is_current c (some d) = d == c

-- A controller is accounted for: it is the current one or aborted.
abbrev accounted : ℕ → MultiChatState → Bool
accounted c s = is_current c s.events_controller || was_aborted c s

abbrev issues : ℕ → GroupAction → Bool
issues c (opened id detail controller) = controller == c
issues c (subscribed controller) = controller == c
issues c _ = false

act-accounted :
    (s : MultiChatState) (a : GroupAction) (c : ℕ)
    → (accounted c s || issues c a) ≡ true
    → accounted c (act s a) ≡ true
unfolding act load_conversations_start load_conversations_done load_conversations_failed
    open_conversation_start open_conversation_done open_conversation_failed close_conversation
    remove_conversation_start remove_conversation_done set_reply_mode_start set_reply_mode_failed
    save_group_settings_start save_group_settings_done save_group_settings_failed subscribe
    on_group_event send_group_start send_group_done stop_group ask abort_events create_group_start
    create_group_done send_group_failed stop_group_failed
act-accounted s (event (runner_changed a b)) c h = ground arith
act-accounted s (event _) c h = ground arith
act-accounted s (created id none) c h = ground arith
act-accounted s (created id (some g)) c h = ground arith
act-accounted s _ c h = ground arith

or_swap : (a b c : Bool) → (a || (b || c)) ≡ true → ((a || b) || c) ≡ true
or_swap a b c h = ground arith

was_issued_cons :
    (a : GroupAction) (rest : List GroupAction) (c : ℕ)
    → was_issued c (a ∷ rest) ≡ (issues c a || was_issued c rest)
was_issued_cons (opened id detail controller) rest c = refl
was_issued_cons (subscribed controller) rest c = refl
was_issued_cons _ rest c = refl

act_all-accounted :
    (rest : List GroupAction) (s : MultiChatState) (c : ℕ)
    → (accounted c s || was_issued c rest) ≡ true
    → accounted c (act_all s rest) ≡ true
unfolding act_all
act_all-accounted [] s c h = ground arith
act_all-accounted (a ∷ rest) s c h =
    act_all-accounted rest (act s a) c
      (ground (arith, act-accounted s a c, was_issued_cons a rest c))

-- Of the subscriptions that were made, in whatever order the group was opened, closed and opened
-- again, each one other than the current is aborted.
pub act_all-aborted :
    (rest : List GroupAction) (s : MultiChatState) (c : ℕ)
    → was_issued c rest ≡ true
    → is_current c (act_all s rest).events_controller ≡ false
    → was_aborted c (act_all s rest) ≡ true
act_all-aborted rest s c issued old = ground (arith, act_all-accounted rest s c)

-- Where one group is opened and then the answer for another group arrives, the group opened is
-- no longer the active one.
pub opened-overrides :
    (s : MultiChatState) (a b : String) (detail : GroupDetail) (c : ℕ)
    → a ≢ b
    → (act_all s (open_start b ∷ opened a detail c ∷ [])).active_id ≢ some b
unfolding act_all act open_conversation_done subscribe abort_events
opened-overrides s a b detail c other = ground (arith, other)

abbrev pub content_at : String → List GroupSegment → String
content_at id [] = ""
content_at id (g ∷ gs) =
    let rest = content_at id gs in if str_eq g.participant_id id then g.content else rest

-- What the member `id` streamed.
abbrev pub streamed : String → List (String × String) → String
streamed id [] = ""
streamed id ((j, text) ∷ ds) =
    let rest = streamed id ds in if str_eq j id then String.◌++◌ text rest else rest

abbrev pub deltas : List (String × String) → List GroupAction
deltas [] = []
deltas ((j, text) ∷ ds) = event (delta j text) ∷ deltas ds

content_at-update :
    (id j text : String) (gs : List GroupSegment)
    → has_member id gs ≡ true
    → content_at id (update_segment gs j (λ g. record g { content = String.◌++◌ g.content text }))
      ≡ (if str_eq j id then String.◌++◌ (content_at id gs) text else content_at id gs)
unfolding update_segment
content_at-update id j text [] h = cc
content_at-update id j text (g ∷ gs) h = ground (
  arith,
  content_at-update id j text gs,
  eq_iff g.participant_id id,
  eq_iff g.participant_id j,
  eq_iff j id,
)

has_member-delta :
    (id j text : String) (gs : List GroupSegment)
    → has_member id (update_segment gs j (λ g. record g { content = String.◌++◌ g.content text }))
      ≡ has_member id gs
unfolding update_segment
has_member-delta id j text [] = refl
has_member-delta id j text (g ∷ gs) = ground (arith, has_member-delta id j text gs)

-- However the deltas of several members interleave, the content of a member with a segment is what
-- it was, followed by that member's own deltas in the order of their arrival.
pub content_at-deltas :
    (id : String) (ds : List (String × String)) (s : MultiChatState)
    → has_member id s.segments ≡ true
    → content_at id (act_all s (deltas ds)).segments
      ≡ String.◌++◌ (content_at id s.segments) (streamed id ds)
unfolding act_all act on_group_event
content_at-deltas id [] s h = sym (TextLemmas.append-nil (content_at id s.segments))
content_at-deltas id ((j, text) ∷ ds) s h =
    content_at-deltas id ds (act s (event (delta j text)))
      (has_member-delta id j text s.segments ∙ h)
    ∙ ground (
      arith,
      content_at-update id j text s.segments h,
      TextLemmas.append_assoc (content_at id s.segments) text (streamed id ds),
    )
