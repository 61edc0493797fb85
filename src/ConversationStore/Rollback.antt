-- ===== src/ConversationStore/Rollback.antt =====
-- A change that the Engine refuses leaves the list of conversations as it was
-- (`renameConversation` and `updateConversationModel` of conversationStore.ts).
use encore_hub.Shared.{
  String, Bool, Bool-cases, false, ◌&&◌, any, ◌≡◌, ◌∙◌, ap, subst, refl, inl, inr, Option, none,
  some, List, [], ◌∷◌, is_empty, trim, str_eq, if◌then◌else◌, arith, eq_iff, eq_refl,
}
use encore_hub.Models.{Conversation}
use encore_hub.ConversationStore.State.{ConversationState, post}
use encore_hub.ConversationStore.Edit.{
  map_id, find_id, title_of, rename_start, restore_title, rename_failed, model_update_previous,
  unless_same, model_update_start, model_update_failed,
}

abbrev holds_id : String → List Conversation → Bool
holds_id id cs = any (λ c. str_eq c.id id) cs

-- No two conversations have one id.
abbrev pub HasDistinctIds : List Conversation → Type 0
HasDistinctIds [] = Unit
HasDistinctIds (c ∷ cs) = (holds_id c.id cs ≡ false) × HasDistinctIds cs

-- Where the id does not occur the map changes nothing.
map_id-absent :
    (id : String) (f : Conversation → Conversation) (cs : List Conversation)
    → holds_id id cs ≡ false
    → map_id id f cs ≡ cs
map_id-absent id f [] h = refl
map_id-absent id f (c ∷ cs) h = ground (arith, map_id-absent id f cs)

-- A change of the conversation under the id, and its inverse there.
map_id_inverse :
    (id : String) (f g : Conversation → Conversation) (cs : List Conversation)
    → HasDistinctIds cs
    → ((c : Conversation) → (f c).id ≡ c.id)
    → ((c : Conversation) → find_id id cs ≡ some c → g (f c) ≡ c)
    → map_id id g (map_id id f cs) ≡ cs
map_id_inverse id f g [] d same inv = refl
map_id_inverse id f g (c ∷ cs) (fresh, d) same inv = elim (Bool-cases (str_eq c.id id)) [
  | inl y ↦
      let absent = subst (λ i. holds_id i cs ≡ false) ((eq_iff c.id id).0 y) fresh in
      let tail = ap (map_id id g) (map_id-absent id f cs absent) ∙ map_id-absent id g cs absent in
      ground (arith, same c, inv c, tail)
  | inr n ↦ ground (arith, map_id_inverse id f g cs d same (λ c' e. inv c' (ground arith)))
]

find-none_absent :
    (id : String) (cs : List Conversation) → find_id id cs ≡ none → holds_id id cs ≡ false
find-none_absent id [] h = refl
find-none_absent id (c ∷ cs) h = ground (arith, find-none_absent id cs)

restore_title-map_id :
    (id title : String) (cs : List Conversation) (o : Option Conversation)
    → find_id id cs ≡ o
    → HasDistinctIds cs
    → restore_title id (title_of o) (map_id id (λ c. record c { title = title }) cs) ≡ cs
unfolding restore_title
restore_title-map_id id title cs (some c) found d =
    map_id_inverse id (λ c. record c { title = title }) (λ c'. record c' { title = c.title }) cs d
      (λ x. refl) (λ x e. ground arith)
restore_title-map_id id title cs none found d = map_id-absent id _ cs (find-none_absent id cs found)

-- Where no two conversations have one id, a rename that the Engine refuses leaves every conversation
-- as it was, whether the title was blank, the id unknown or the title replaced for a while.
pub rename-rollback :
    (s : ConversationState) (id title : String)
    → HasDistinctIds s.conversations
    → let (shown, prev) = rename_start s id title in
      (rename_failed shown id prev).conversations ≡ s.conversations
unfolding rename_start rename_failed post
rename-rollback s id title d = elim (Bool-cases (is_empty (trim title))) [
  | inl y ↦ rw y refl
  | inr n ↦
      rw n
        (restore_title-map_id id (trim title) s.conversations (find_id id s.conversations) refl d)
]

unless_same-some :
    (provider model : String) (o : Option Conversation) (c : Conversation)
    → unless_same provider model o ≡ some c
    → o ≡ some c
unless_same-some provider model none c h = cc
unless_same-some provider model (some x) c h = ground arith

asked_found :
    (s : ConversationState) (id provider model : String) (previous : Conversation)
    → model_update_previous s id provider model ≡ some previous
    → find_id id s.conversations ≡ some previous
unfolding model_update_previous
asked_found s id provider model previous h =
    ground
      (arith, unless_same-some (trim provider) (trim model) (find_id id s.conversations) previous)

-- A change of the model that the Engine refuses is undone where no two conversations have one id,
-- if the request was made at all.
pub model_update-rollback :
    (s : ConversationState) (id provider model : String) (previous : Conversation)
    → HasDistinctIds s.conversations
    → model_update_previous s id provider model ≡ some previous
    → (model_update_failed
        (model_update_start s id provider model)
        id
        previous
        provider
        model).conversations
      ≡ s.conversations
unfolding model_update_start model_update_failed post
model_update-rollback s id provider model previous d asked =
    let found = asked_found s id provider model previous asked in
    rw asked (
      map_id_inverse id (λ c. record c { provider = trim provider; model = trim model })
        (λ c.
          if str_eq c.provider (trim provider) && str_eq c.model (trim model)
          then record c { provider = previous.provider; model = previous.model }
          else c)
        s.conversations d (λ c. refl)
        (λ c e. ground (arith, eq_refl (trim provider), eq_refl (trim model))))
