-- ===== src/ConversationGroups/Flat.antt =====
-- The groups, read one after the other, are the sorted list (conversationGroups.ts).
use mathlib.Core.List.{Perm}
use encore_hub.ConversationGroups.{
  Buckets, ConversationGroup, ConversationGroupId, fill, group_conversations, group_of,
  group_of_time, is_newer, listed, no_buckets, older, push_conversation, sort_conversations, today,
  week, yesterday,
}
use encore_hub.ConversationGroups.Sorted.{IsDescending, IsLatest, sort-IsDescending, sort-perm}
use encore_hub.Shared.{
  All, List, Option, String, [], ap, arith, false, keep, none, refl, some, subst, sym, ℕ, ◌++◌, ◌<◌,
  ◌==◌, ◌∙◌, ◌∷◌, ◌≡◌, ◌≤◌,
}

abbrev rank : ConversationGroupId → ℕ
rank today = 0
rank yesterday = 1
rank week = 2
rank older = 3

-- The conversations of a listing, group after group.
abbrev pub shown : {A : Type 0} → List (ConversationGroup A) → List A
shown [] = []
shown (g ∷ gs) = g.conversations ++ shown gs

module _ {A : Type 0} where
  append_assoc : (xs ys zs : List A) → (xs ++ ys) ++ zs ≡ xs ++ (ys ++ zs)
  append_assoc [] ys zs = refl
  append_assoc (x ∷ xs) ys zs = ap (λ r. x ∷ r) (append_assoc xs ys zs)

  append-nil : (xs : List A) → xs ++ [] ≡ xs
  append-nil [] = refl
  append-nil (x ∷ xs) = ap (λ r. x ∷ r) (append-nil xs)

  shown-append : (gs hs : List (ConversationGroup A)) → shown (gs ++ hs) ≡ shown gs ++ shown hs
  shown-append [] hs = refl
  shown-append (g ∷ gs) hs =
      ap (λ r. g.conversations ++ r) (shown-append gs hs)
      ∙ sym (append_assoc g.conversations (shown gs) (shown hs))

  shown-listed : (id : ConversationGroupId) (cs : List A) → shown (listed id cs) ≡ cs
  shown-listed id [] = refl
  shown-listed id (c ∷ cs) = append-nil (c ∷ cs)

  module _ (group : A → ConversationGroupId) where
    -- The conversations of one group, in their order.
    abbrev of_rank : ℕ → List A → List A
    of_rank k = keep (λ c. rank (group c) == k)

    abbrev IsAscending : List A → Type 0
    IsAscending [] = Unit
    IsAscending (c ∷ cs) = All (λ d. rank (group c) ≤ rank (group d)) cs × IsAscending cs

    none_below :
        (k n : ℕ) (cs : List A) → All (λ d. n ≤ rank (group d)) cs → k < n → of_rank k cs ≡ []
    none_below k n [] h l = refl
    none_below k n (c ∷ cs) h l = ground (arith, none_below k n cs h.1 l)

    abbrev in_parts : List A → List A
    in_parts cs = of_rank 0 cs ++ of_rank 1 cs ++ of_rank 2 cs ++ of_rank 3 cs

    parts-cons :
        (g : ConversationGroupId) (c : A) (cs : List A)
        → group c ≡ g
        → All (λ d. rank g ≤ rank (group d)) cs
        → in_parts cs ≡ cs
        → in_parts (c ∷ cs) ≡ c ∷ cs
    parts-cons today c cs e l h = rw e (ap (λ r. c ∷ r) h)
    parts-cons yesterday c cs e l h =
        let zero_th = none_below 0 1 cs l (omega arith) in
        let rest : of_rank 1 cs ++ of_rank 2 cs ++ of_rank 3 cs ≡ cs =
          subst (λ x. x ++ of_rank 1 cs ++ of_rank 2 cs ++ of_rank 3 cs ≡ cs) zero_th h in
        rw (e, zero_th) (ap (λ r. c ∷ r) rest)
    parts-cons week c cs e l h =
        let zero_th = none_below 0 2 cs l (omega arith) in
        let first = none_below 1 2 cs l (omega arith) in
        let rest : of_rank 2 cs ++ of_rank 3 cs ≡ cs =
          subst (λ x. x ++ of_rank 2 cs ++ of_rank 3 cs ≡ cs) first
            (subst (λ x. x ++ of_rank 1 cs ++ of_rank 2 cs ++ of_rank 3 cs ≡ cs) zero_th h) in
        rw (e, zero_th, first) (ap (λ r. c ∷ r) rest)
    parts-cons older c cs e l h =
        let zero_th = none_below 0 3 cs l (omega arith) in
        let first = none_below 1 3 cs l (omega arith) in
        let second = none_below 2 3 cs l (omega arith) in
        let rest : of_rank 3 cs ≡ cs =
          subst (λ x. x ++ of_rank 3 cs ≡ cs) second
            (subst (λ x. x ++ of_rank 2 cs ++ of_rank 3 cs ≡ cs) first
              (subst (λ x. x ++ of_rank 1 cs ++ of_rank 2 cs ++ of_rank 3 cs ≡ cs) zero_th h)) in
        rw (e, zero_th, first, second) (ap (λ r. c ∷ r) rest)

    parts : (cs : List A) → IsAscending cs → in_parts cs ≡ cs
    parts [] h = refl
    parts (c ∷ cs) h = parts-cons (group c) c cs refl h.0 (parts cs h.1)

  module _ (updated_at : A → String) (parse_date : String → Option ℕ) (local_day : ℕ → ℕ) (day : ℕ)
      (monotone : (x y : ℕ) → x ≤ y → local_day x ≤ local_day y) where
    abbrev group : A → ConversationGroupId
    group = group_of updated_at parse_date local_day day

    abbrev filled : List A → Buckets A → Buckets A
    filled = fill updated_at parse_date local_day day

    -- A later time is in the same group or in an earlier one of the list.
    group_later :
        (x y : Option ℕ)
        → is_newer y x ≡ false
        → rank (group_of_time updated_at parse_date local_day day x)
          ≤ rank (group_of_time updated_at parse_date local_day day y)
    group_later none none h = omega arith
    group_later none (some y) h = cc
    group_later (some x) none h = ground arith
    group_later (some x) (some y) h =
        let le : y ≤ x = ground arith in ground (arith, monotone y x le)

    ascending-latest :
        (c : A) (cs : List A)
        → IsLatest updated_at parse_date c cs
        → All (λ d. rank (group c) ≤ rank (group d)) cs
    ascending-latest c [] h = tt
    ascending-latest c (d ∷ cs) h = (
      group_later (parse_date (updated_at c)) (parse_date (updated_at d)) h.0,
      ascending-latest c cs h.1,
    )

    IsAscending-descending :
        (cs : List A) → IsDescending updated_at parse_date cs → IsAscending group cs
    IsAscending-descending [] h = tt
    IsAscending-descending (c ∷ cs) h = (ascending-latest c cs h.0, IsAscending-descending cs h.1)

    record IsFilled (cs : List A) (b after : Buckets A) : Type 0 where
      todays : after.todays ≡ b.todays ++ of_rank group 0 cs
      yesterdays : after.yesterdays ≡ b.yesterdays ++ of_rank group 1 cs
      weeks : after.weeks ≡ b.weeks ++ of_rank group 2 cs
      olders : after.olders ≡ b.olders ++ of_rank group 3 cs

    IsFilled-cons :
        (g : ConversationGroupId) (c : A) (cs : List A) (b after : Buckets A)
        → group c ≡ g
        → IsFilled cs (push_conversation g c b) after
        → IsFilled (c ∷ cs) b after
    IsFilled-cons today c cs b after e h = record {
      todays = rw e (h.todays ∙ append_assoc b.todays (c ∷ []) (of_rank group 0 cs));
      yesterdays = rw e h.yesterdays;
      weeks = rw e h.weeks;
      olders = rw e h.olders;
    }
    IsFilled-cons yesterday c cs b after e h = record {
      todays = rw e h.todays;
      yesterdays = rw e (h.yesterdays ∙ append_assoc b.yesterdays (c ∷ []) (of_rank group 1 cs));
      weeks = rw e h.weeks;
      olders = rw e h.olders;
    }
    IsFilled-cons week c cs b after e h = record {
      todays = rw e h.todays;
      yesterdays = rw e h.yesterdays;
      weeks = rw e (h.weeks ∙ append_assoc b.weeks (c ∷ []) (of_rank group 2 cs));
      olders = rw e h.olders;
    }
    IsFilled-cons older c cs b after e h = record {
      todays = rw e h.todays;
      yesterdays = rw e h.yesterdays;
      weeks = rw e h.weeks;
      olders = rw e (h.olders ∙ append_assoc b.olders (c ∷ []) (of_rank group 3 cs));
    }

    fill-IsFilled : (cs : List A) (b : Buckets A) → IsFilled cs b (filled cs b)
    unfolding fill
    fill-IsFilled [] b = record {
      todays = sym (append-nil b.todays);
      yesterdays = sym (append-nil b.yesterdays);
      weeks = sym (append-nil b.weeks);
      olders = sym (append-nil b.olders);
    }
    fill-IsFilled (c ∷ cs) b =
        IsFilled-cons (group c) c cs b _ refl (fill-IsFilled cs (push_conversation (group c) c b))

    fields :
        (cs : List A) (b : Buckets A)
        → IsAscending group cs
        → IsFilled cs no_buckets b
        → b.todays ++ b.yesterdays ++ b.weeks ++ b.olders ≡ cs
    fields cs b a f = rw (f.todays, f.yesterdays, f.weeks, f.olders) (parts group cs a)

    shown-groups :
        (ts ys ws os : List A)
        → shown (listed today ts ++ listed yesterday ys ++ listed week ws ++ listed older os)
          ≡ ts ++ ys ++ ws ++ os
    shown-groups ts ys ws os =
        rw
          (
            shown-append (listed today ts ++ listed yesterday ys ++ listed week ws)
                (listed older os),
            shown-append (listed today ts ++ listed yesterday ys) (listed week ws),
            shown-append (listed today ts) (listed yesterday ys),
            shown-listed today ts,
            shown-listed yesterday ys,
            shown-listed week ws,
            shown-listed older os,
          )
          refl

-- The sidebar's groups, if the local day never decreases as time passes. Read one after the other,
-- the groups hold the conversations newest first, those with an invalid date last, each
-- conversation exactly once: grouping neither loses a conversation nor changes the sorted order.
pub group_conversations-flat :
    {A : Type 0} (updated_at : A → String) (parse_date : String → Option ℕ) (local_day : ℕ → ℕ)
    → ((x y : ℕ) → x ≤ y → local_day x ≤ local_day y)
    → (cs : List A) (now : ℕ)
    → (shown (group_conversations updated_at parse_date local_day cs now)
        ≡ sort_conversations updated_at parse_date cs)
      × IsDescending updated_at parse_date
          (shown (group_conversations updated_at parse_date local_day cs now))
      × Perm (shown (group_conversations updated_at parse_date local_day cs now)) cs
unfolding group_conversations
group_conversations-flat updated_at parse_date local_day monotone cs now =
    let sorted = sort_conversations updated_at parse_date cs in
    let day = local_day now in
    let b = fill updated_at parse_date local_day day sorted no_buckets in
    let descending = sort-IsDescending updated_at parse_date cs in
    let flat : shown (group_conversations updated_at parse_date local_day cs now) ≡ sorted =
      shown-groups updated_at parse_date local_day day monotone b.todays b.yesterdays b.weeks
        b.olders
      ∙ fields updated_at parse_date local_day day monotone sorted b
          (IsAscending-descending updated_at parse_date local_day day monotone sorted descending)
          (fill-IsFilled updated_at parse_date local_day day monotone sorted no_buckets) in
    (flat, rw flat descending, rw flat (sort-perm updated_at parse_date cs))
