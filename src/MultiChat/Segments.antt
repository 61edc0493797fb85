-- ===== src/MultiChat/Segments.antt =====
-- The live segments and the committed messages of a group (multiChatStore.ts).
use Prim.Native.String
use encore_hub.Shared.{
  String, Bool, Bool-cases, true, false, any, keep, ◌≡◌, ◌∙◌, subst, refl, inl, inr, Option, none,
  some, List, [], ◌∷◌, is_empty, str_eq, if◌then◌else◌, arith, eq_iff,
}
use encore_hub.Models.{Message}
use encore_hub.MultiChat.State.{GroupSegment, ParticipantStart, MultiChatState, ask}
use encore_hub.MultiChat.Stream.{
  upsert_by_id, new_segment, upsert_segment, update_segment, committed, is_idle, GroupEvent,
  runner_changed, queue_updated, message_appended, participant_started, delta, reasoning,
  participant_done, participant_skipped, participant_error, stream_error, on_group_event,
}

abbrev pub has_member : String → List GroupSegment → Bool
has_member id gs = any (λ g. str_eq g.participant_id id) gs

abbrev pub has_message : String → List Message → Bool
has_message id ms = any (λ m. str_eq m.id id) ms

abbrev pub HasDistinctMembers : List GroupSegment → Type 0
HasDistinctMembers [] = Unit
HasDistinctMembers (g ∷ gs) = (has_member g.participant_id gs ≡ false) × HasDistinctMembers gs

abbrev pub HasDistinctMessages : List Message → Type 0
HasDistinctMessages [] = Unit
HasDistinctMessages (m ∷ ms) = (has_message m.id ms ≡ false) × HasDistinctMessages ms

-- One segment for a member, and one message for an id.
pub record IsRoom (s : MultiChatState) : Type 0 where
  pub members : HasDistinctMembers s.segments
  pub messages : HasDistinctMessages s.messages

has_message-upsert :
    (ms : List Message) (m : Message) (id : String)
    → str_eq m.id id ≡ false
    → has_message id (upsert_by_id ms m) ≡ has_message id ms
unfolding upsert_by_id
has_message-upsert [] m id h = ground arith
has_message-upsert (x ∷ ms) m id h =
    ground (arith, has_message-upsert ms m id h, eq_iff x.id m.id, eq_iff x.id id, eq_iff m.id id)

upsert_by_id-distinct :
    (ms : List Message) (m : Message)
    → HasDistinctMessages ms
    → HasDistinctMessages (upsert_by_id ms m)
unfolding upsert_by_id
upsert_by_id-distinct [] m d = (refl, tt)
upsert_by_id-distinct (x ∷ ms) m (fresh, d) = elim (Bool-cases (str_eq x.id m.id)) [
  | inl y ↦ rw y (subst (λ i. has_message i ms ≡ false) ((eq_iff x.id m.id).0 y) fresh, d)
  | inr n ↦ rw n (
    has_message-upsert ms m x.id (ground (arith, eq_iff x.id m.id, eq_iff m.id x.id)) ∙ fresh,
    upsert_by_id-distinct ms m d,
  )
]

has_member-upsert :
    (gs : List GroupSegment) (p : ParticipantStart) (id : String)
    → str_eq p.participant_id id ≡ false
    → has_member id (upsert_segment gs p) ≡ has_member id gs
unfolding upsert_segment new_segment
has_member-upsert [] p id h = ground arith
has_member-upsert (g ∷ gs) p id h = ground (
  arith,
  has_member-upsert gs p id h,
  eq_iff g.participant_id p.participant_id,
  eq_iff g.participant_id id,
  eq_iff p.participant_id id,
)

upsert_segment-distinct :
    (gs : List GroupSegment) (p : ParticipantStart)
    → HasDistinctMembers gs
    → HasDistinctMembers (upsert_segment gs p)
unfolding upsert_segment new_segment
upsert_segment-distinct [] p d = (refl, tt)
upsert_segment-distinct (g ∷ gs) p (fresh, d) =
    elim (Bool-cases (str_eq g.participant_id p.participant_id)) [
      | inl y ↦ rw y (
        subst (λ i. has_member i gs ≡ false) ((eq_iff g.participant_id p.participant_id).0 y) fresh,
        d,
      )
      | inr n ↦ rw n (
        has_member-upsert gs p g.participant_id (
              ground (
                arith,
                eq_iff g.participant_id p.participant_id,
                eq_iff p.participant_id g.participant_id,
              ))
            ∙ fresh,
        upsert_segment-distinct gs p d,
      )
    ]

-- An update that keeps the member keeps the members apart.
module _ (id : String) (f : GroupSegment → GroupSegment)
    (same : (g : GroupSegment) → (f g).participant_id ≡ g.participant_id) where
  has_member-update :
      (gs : List GroupSegment) (j : String)
      → has_member j (update_segment gs id f) ≡ has_member j gs
  unfolding update_segment
  has_member-update [] j = refl
  has_member-update (g ∷ gs) j = ground (arith, has_member-update gs j, same g)

  update_segment-distinct :
      (gs : List GroupSegment) → HasDistinctMembers gs → HasDistinctMembers (update_segment gs id f)
  unfolding update_segment
  update_segment-distinct [] d = tt
  update_segment-distinct (g ∷ gs) (fresh, d) =
      ground (arith, has_member-update gs g.participant_id, update_segment-distinct gs d, same g)

has_member-keep :
    (p : GroupSegment → Bool) (gs : List GroupSegment) (id : String)
    → has_member id gs ≡ false
    → has_member id (keep p gs) ≡ false
has_member-keep p [] id h = refl
has_member-keep p (g ∷ gs) id h = ground (arith, has_member-keep p gs id)

keep-distinct :
    (p : GroupSegment → Bool) (gs : List GroupSegment)
    → HasDistinctMembers gs
    → HasDistinctMembers (keep p gs)
keep-distinct p [] d = tt
keep-distinct p (g ∷ gs) (fresh, d) =
    ground (arith, keep-distinct p gs d, has_member-keep p gs g.participant_id fresh)

committed-distinct :
    (sender : Option String) (gs : List GroupSegment)
    → HasDistinctMembers gs
    → HasDistinctMembers (committed sender gs)
unfolding committed
committed-distinct none gs d = d
committed-distinct (some sender) gs d = elim (Bool-cases (is_empty sender)) [
  | inl y ↦ rw y d
  | inr n ↦ rw n (keep-distinct _ gs d)
]

idle-distinct :
    (b : Bool) (gs : List GroupSegment)
    → HasDistinctMembers gs
    → HasDistinctMembers (if b then [] else gs)
idle-distinct true gs d = tt
idle-distinct false gs d = d

-- Where each member has one segment at most and each message id occurs once at most, this holds
-- after every event of the runner.
pub on_group_event-IsRoom :
    (s : MultiChatState) (e : GroupEvent) → IsRoom s → IsRoom (on_group_event s e)
unfolding on_group_event ask
on_group_event-IsRoom s (runner_changed state pending) r = record {
  members = idle-distinct (is_idle state) s.segments r.members;
  messages = r.messages;
}
on_group_event-IsRoom s (queue_updated pending) r = record {
  members = r.members;
  messages = r.messages;
}
on_group_event-IsRoom s (message_appended m) r = record {
  members = committed-distinct m.sender_character_id s.segments r.members;
  messages = upsert_by_id-distinct s.messages m r.messages;
}
on_group_event-IsRoom s (participant_started p) r = record {
  members = upsert_segment-distinct s.segments p r.members;
  messages = r.messages;
}
on_group_event-IsRoom s (delta id text) r = record {
  members =
      update_segment-distinct id (λ g. record g { content = String.◌++◌ g.content text })
        (λ g. refl) s.segments r.members;
  messages = r.messages;
}
on_group_event-IsRoom s (reasoning id text) r = record {
  members =
      update_segment-distinct id (λ g. record g { reasoning = String.◌++◌ g.reasoning text })
        (λ g. refl) s.segments r.members;
  messages = r.messages;
}
on_group_event-IsRoom s (participant_done id) r = record {
  members = update_segment-distinct id _ (λ g. refl) s.segments r.members;
  messages = r.messages;
}
on_group_event-IsRoom s (participant_skipped id) r = record {
  members = update_segment-distinct id _ (λ g. refl) s.segments r.members;
  messages = r.messages;
}
on_group_event-IsRoom s (participant_error id message) r = record {
  members = update_segment-distinct id _ (λ g. refl) s.segments r.members;
  messages = r.messages;
}
on_group_event-IsRoom s (stream_error message) r = record {
  members = r.members;
  messages = r.messages;
}
