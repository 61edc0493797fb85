-- ===== src/ConversationStore/Reconcile.antt =====
-- What `reconcileTurnMessages` (conversationStore.ts) makes of a transcript.
use mathlib.Core.List.{append-nil}
use encore_hub.ConversationStore.Cache.{outside_turn, reconcile_turn_messages, tail_messages}
use encore_hub.Models.{Message}
use encore_hub.Shared.{
  Bool, List, Option, String, [], ap, arith, eq_refl, false, keep, keep-append, none, refl, true,
  ◌++◌, ◌∙◌, ◌∷◌, ◌≡◌,
}

keep-keep :
    (p q : Message → Bool) (ms : List Message)
    → ((m : Message) → p m ≡ true → q m ≡ true)
    → keep p (keep q ms) ≡ keep p ms
keep-keep p q [] h = refl
keep-keep p q (m ∷ ms) h = ground (arith, h m, keep-keep p q ms h)

module _ (optimistic_id : String) (u : Message) where
  -- The turn's own messages are inside it.
  user_inside : (a : Option Message) → outside_turn optimistic_id u a u ≡ false
  unfolding outside_turn
  user_inside a = ground (arith, eq_refl u.id)

  outside_weaker :
      (a : Option Message) (m : Message)
      → outside_turn optimistic_id u a m ≡ true
      → outside_turn optimistic_id u none m ≡ true
  unfolding outside_turn
  outside_weaker a m h = ground arith

  keep-user : (a : Option Message) → keep (outside_turn optimistic_id u a) (u ∷ []) ≡ []
  keep-user a = rw (user_inside a)

  -- A transcript that was reconciled when the turn started and again when it was done is the one
  -- reconciled when it was done.
  pub reconcile-reconcile :
      (ms : List Message) (a : Option Message)
      → reconcile_turn_messages (reconcile_turn_messages ms optimistic_id u none) optimistic_id u a
        ≡ reconcile_turn_messages ms optimistic_id u a
  unfolding reconcile_turn_messages
  reconcile-reconcile ms a =
      let p = outside_turn optimistic_id u a in
      let q = outside_turn optimistic_id u none in
      ap (λ r. r ++ tail_messages u a)
        (keep-append p (keep q ms) (u ∷ [])
          ∙ ap (λ r. keep p (keep q ms) ++ r) (keep-user a)
          ∙ append-nil (keep p (keep q ms))
          ∙ keep-keep p q ms (outside_weaker a))
