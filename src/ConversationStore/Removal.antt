-- ===== src/ConversationStore/Removal.antt =====
-- Deleting a message with its answers (`deleteMessage` of conversationStore.ts).
use encore_hub.Shared.{
  String, Bool, Bool-cases, true, false, not, ◌&&◌, any, any-append, keep, ◌≡◌, ◌∙◌, subst, refl,
  inl, inr, List, [], ◌∷◌, ◌++◌, str_eq, arith, eq_iff, eq_refl, opt_is,
}
use mathlib.Core.List.{append_assoc}
use encore_hub.Models.{Message}
use encore_hub.Context.Archive.{HasDistinctIds}
use encore_hub.ConversationStore.Edit.{in_removal, without_removed}

abbrev removed_by : (Message → Bool) → List Message → Message → Bool
removed_by p all m = any (λ r. p r && str_eq r.id m.id) all

removed_here :
    (p : Message → Bool) (before ms : List Message) (m : Message)
    → p m ≡ true
    → removed_by p (before ++ m ∷ ms) m ≡ true
removed_here p before ms m h =
    any-append (λ r. p r && str_eq r.id m.id) before (m ∷ ms) ∙ ground (arith, eq_refl m.id)

keep-removed :
    (p : Message → Bool) (before ms : List Message)
    → any p (keep (λ m. not (removed_by p (before ++ ms) m)) ms) ≡ false
keep-removed p before [] = refl
keep-removed p before (m ∷ ms) =
    let ih =
      subst (λ all. any p (keep (λ x. not (removed_by p all x)) ms) ≡ false)
        (append_assoc before (m ∷ []) ms) (keep-removed p (before ++ m ∷ []) ms) in
    elim (Bool-cases (p m)) [
      | inl y ↦ rw (removed_here p before ms m y) ih
      | inr n ↦ ground (arith, ih)
    ]

keep_all :
    (p : Message → Bool) (all ms : List Message)
    → any p all ≡ false
    → keep (λ m. not (removed_by p all m)) ms ≡ ms
keep_all p all [] h = refl
keep_all p all (m ∷ ms) h = ground (arith, keep_all p all ms h, none_removed all m h)
  where
    none_removed : (rs : List Message) (x : Message) → any p rs ≡ false → removed_by p rs x ≡ false
    none_removed [] x e = refl
    none_removed (r ∷ rs) x e = ground (arith, none_removed rs x)

-- A message of an id of its own is removed only where it is chosen itself.
removed_by-fresh :
    (p : Message → Bool) (xs : List Message) (x : Message)
    → any (λ m. str_eq m.id x.id) xs ≡ false
    → removed_by p xs x ≡ false
removed_by-fresh p [] x h = refl
removed_by-fresh p (y ∷ ys) x h = ground (arith, removed_by-fresh p ys x)

keep-fresh :
    (p : Message → Bool) (x : Message) (all ys : List Message)
    → any (λ m. str_eq m.id x.id) ys ≡ false
    → keep (λ m. not (removed_by p (x ∷ all) m)) ys ≡ keep (λ m. not (removed_by p all m)) ys
keep-fresh p x all [] h = refl
keep-fresh p x all (y ∷ ys) h =
    ground (arith, keep-fresh p x all ys, eq_iff x.id y.id, eq_iff y.id x.id)

keep-chosen :
    (p : Message → Bool) (ms : List Message)
    → HasDistinctIds ms
    → keep (λ m. not (removed_by p ms m)) ms ≡ keep (λ m. not (p m)) ms
keep-chosen p [] d = refl
keep-chosen p (x ∷ xs) (fresh, d) =
    let rest = keep-fresh p x xs xs fresh ∙ keep-chosen p xs d in
    let out = removed_by-fresh p xs x fresh in ground (arith, rest, out, eq_refl x.id)

-- Where no two messages have one id, a deletion keeps, in their order, exactly the messages that
-- neither have the id nor answer the message with the id; and to delete again changes nothing more.
pub without_removed_lem :
    (id : String) (ms : List Message)
    → HasDistinctIds ms
    → (without_removed id ms ≡ keep (λ m. not (str_eq m.id id) && not (opt_is m.parent_id id)) ms)
      × (without_removed id (without_removed id ms) ≡ without_removed id ms)
unfolding without_removed in_removal
without_removed_lem id ms d =
    let gone = keep-removed (in_removal id) [] ms in
    (
      keep-chosen (in_removal id) ms d ∙ keep_de_morgan ms,
      keep_all (in_removal id) (without_removed id ms) (without_removed id ms) gone,
    )
  where
    keep_de_morgan :
        (ms : List Message)
        → keep (λ m. not (in_removal id m)) ms
          ≡ keep (λ m. not (str_eq m.id id) && not (opt_is m.parent_id id)) ms
    keep_de_morgan [] = refl
    keep_de_morgan (m ∷ ms) = ground (arith, keep_de_morgan ms)
