-- ===== src/ConversationGroups/Tests.antt =====
-- A sidebar with four conversations.
use mathlib.Core.List.{Perm}
use encore_hub.ConversationGroups.{group_conversations, sort_conversations}
use encore_hub.ConversationGroups.Flat.{group_conversations-flat, shown}
use encore_hub.ConversationGroups.Sorted.{IsDescending}
use encore_hub.Shared.{Option, String, [], if◌then◌else◌, none, some, str_eq, ℕ, ◌∷◌, ◌≡◌}

abbrev stamp : String → Option ℕ
stamp s = if str_eq s "" then none else if str_eq s "now" then some 20 else some 3

group_conversations-flat_example :
    (shown (group_conversations (λ c. c) stamp (λ t. t) ("" ∷ "then" ∷ "now" ∷ "then" ∷ []) 20)
      ≡ sort_conversations (λ c. c) stamp ("" ∷ "then" ∷ "now" ∷ "then" ∷ []))
    × IsDescending
        (λ c. c)
        stamp
        (shown (group_conversations (λ c. c) stamp (λ t. t) ("" ∷ "then" ∷ "now" ∷ "then" ∷ []) 20))
    × Perm
        (shown (group_conversations (λ c. c) stamp (λ t. t) ("" ∷ "then" ∷ "now" ∷ "then" ∷ []) 20))
        ("" ∷ "then" ∷ "now" ∷ "then" ∷ [])
group_conversations-flat_example =
    group_conversations-flat (λ c. c) stamp (λ t. t) (λ x y l. l)
      ("" ∷ "then" ∷ "now" ∷ "then" ∷ []) 20
