-- ===== src/ConversationGroups.antt =====
-- frontend/src/components/sidebar/conversationGroups.ts: the sidebar's groups by age. Of a
-- conversation the code reads the time of its last update alone, so conversations are any type
-- with such a text. Date.parse and the local day of a time are arguments; times are milliseconds
-- after 1970.
pub mod Sorted
pub mod Flat
mod Tests
use encore_hub.Shared.{
  Bool, List, Option, String, [], false, if◌then◌else◌, leb, ltb, none, some, true, ℕ, ◌++◌, ◌+◌,
  ◌==◌, ◌∷◌,
}

pub data ConversationGroupId : Type 0 where
  today yesterday week older : ConversationGroupId

pub record ConversationGroup (A : Type 0) : Type 0 where
  pub id : ConversationGroupId
  pub conversations : List A

-- The map of buckets.
pub record Buckets (A : Type 0) : Type 0 where
  pub todays : List A
  pub yesterdays : List A
  pub weeks : List A
  pub olders : List A

abbrev pub no_buckets : {A : Type 0} → Buckets A
no_buckets = record { todays = []; yesterdays = []; weeks = []; olders = [] }

-- `buckets.get(group)?.push(conversation)`
abbrev pub push_conversation : {A : Type 0} → ConversationGroupId → A → Buckets A → Buckets A
push_conversation today c b = record b { todays = b.todays ++ c ∷ [] }
push_conversation yesterday c b = record b { yesterdays = b.yesterdays ++ c ∷ [] }
push_conversation week c b = record b { weeks = b.weeks ++ c ∷ [] }
push_conversation older c b = record b { olders = b.olders ++ c ∷ [] }

-- A group without conversations is not listed.
abbrev pub listed : {A : Type 0} → ConversationGroupId → List A → List (ConversationGroup A)
listed id [] = []
listed id (c ∷ cs) = record { id = id; conversations = c ∷ cs } ∷ []

-- Whether the first time is the later one; none, an invalid date, counts as minus infinity.
abbrev pub is_newer : Option ℕ → Option ℕ → Bool
is_newer none y = false
is_newer (some x) none = true
is_newer (some x) (some y) = ltb y x

module _ {A : Type 0} (updated_at : A → String) (parse_date : String → Option ℕ) where
  abbrev pub updated_timestamp : A → Option ℕ
  updated_timestamp c = parse_date (updated_at c)

  -- Array.sort is stable: a conversation stays before those that are not newer.
  unfoldable pub insert_sorted : A → List A → List A
  insert_sorted c [] = c ∷ []
  insert_sorted c (d ∷ ds) =
      let rest = insert_sorted c ds in
      if is_newer (updated_timestamp d) (updated_timestamp c) then d ∷ rest else c ∷ d ∷ ds

  unfoldable pub sort_conversations : List A → List A
  sort_conversations [] = []
  sort_conversations (c ∷ cs) = insert_sorted c (sort_conversations cs)

  module _ (local_day : ℕ → ℕ) where
    -- The group of a time on a day: the difference in days is at most 0, is 1, is at most 7, or
    -- none of these, as it is for an invalid date, where it is infinite.
    abbrev pub group_of_time : ℕ → Option ℕ → ConversationGroupId
    group_of_time day none = older
    group_of_time day (some time) =
        if leb day (local_day time)
        then today
        else if day == local_day time + 1
        then yesterday
        else if leb day (local_day time + 7)
        then week
        else older

    abbrev pub group_of : ℕ → A → ConversationGroupId
    group_of day c = group_of_time day (updated_timestamp c)

    unfoldable pub fill : ℕ → List A → Buckets A → Buckets A
    fill day [] b = b
    fill day (c ∷ cs) b = fill day cs (push_conversation (group_of day c) c b)

    unfoldable pub group_conversations : List A → ℕ → List (ConversationGroup A)
    group_conversations cs now =
        let b = fill (local_day now) (sort_conversations cs) no_buckets in
        listed today b.todays
        ++ listed yesterday b.yesterdays
        ++ listed week b.weeks
        ++ listed older b.olders
