-- ===== src/ConversationGroups/Sorted.antt =====
-- The sidebar's order: newest first, and nothing is lost (conversationGroups.ts).
use mathlib.Core.List.{Perm}
use mathlib.Core.List.Perm
use encore_hub.ConversationGroups.{insert_sorted, is_newer, sort_conversations, updated_timestamp}
use encore_hub.Shared.{
  All, Bool-cases, List, Option, String, [], arith, false, inl, inr, none, refl, some, true, ℕ, ◌∷◌,
  ◌≡◌,
}

is_newer_asym : (x y : Option ℕ) → is_newer x y ≡ true → is_newer y x ≡ false
is_newer_asym none y h = cc
is_newer_asym (some x) none h = refl
is_newer_asym (some x) (some y) h = ground arith

is_newer_trans :
    (x y z : Option ℕ) → is_newer y x ≡ false → is_newer z y ≡ false → is_newer z x ≡ false
is_newer_trans x y none h k = refl
is_newer_trans none none (some z) h k = cc
is_newer_trans none (some y) (some z) h k = cc
is_newer_trans (some x) none (some z) h k = cc
is_newer_trans (some x) (some y) (some z) h k = ground arith

module _ {A : Type 0} (updated_at : A → String) (parse_date : String → Option ℕ) where
  -- None of the later conversations is newer.
  abbrev pub IsLatest : A → List A → Type 0
  IsLatest c = All (λ d.
      is_newer (updated_timestamp updated_at parse_date d)
        (updated_timestamp updated_at parse_date c)
      ≡ false)

  abbrev pub IsDescending : List A → Type 0
  IsDescending [] = Unit
  IsDescending (c ∷ cs) = IsLatest c cs × IsDescending cs

  IsLatest-insert :
      (c d : A) (ds : List A)
      → is_newer
          (updated_timestamp updated_at parse_date c)
          (updated_timestamp updated_at parse_date d)
        ≡ false
      → IsLatest d ds
      → IsLatest d (insert_sorted updated_at parse_date c ds)
  unfolding insert_sorted
  IsLatest-insert c d [] n l = (n, tt)
  IsLatest-insert c d (e ∷ ds) n l = ground (arith, IsLatest-insert c d ds n l.1)

  IsLatest-trans :
      (c d : A) (ds : List A)
      → is_newer
          (updated_timestamp updated_at parse_date d)
          (updated_timestamp updated_at parse_date c)
        ≡ false
      → IsLatest d ds
      → IsLatest c ds
  IsLatest-trans c d [] n l = tt
  IsLatest-trans c d (e ∷ ds) n l = (
    is_newer_trans (updated_timestamp updated_at parse_date c)
        (updated_timestamp updated_at parse_date d) (updated_timestamp updated_at parse_date e) n
        l.0,
    IsLatest-trans c d ds n l.1,
  )

  insert-IsDescending :
      (c : A) (ds : List A)
      → IsDescending ds
      → IsDescending (insert_sorted updated_at parse_date c ds)
  unfolding insert_sorted
  insert-IsDescending c [] h = (tt, tt)
  insert-IsDescending c (d ∷ ds) h =
      elim (Bool-cases (
        is_newer (updated_timestamp updated_at parse_date d)
          (updated_timestamp updated_at parse_date c))) [
            | inl y ↦ rw y (
              IsLatest-insert c d ds
                  (is_newer_asym (updated_timestamp updated_at parse_date d)
                    (updated_timestamp updated_at parse_date c) y)
                  h.0,
              insert-IsDescending c ds h.1,
            )
            | inr n ↦ rw n ((n, IsLatest-trans c d ds n h.0), h)
          ]

  pub sort-IsDescending : (cs : List A) → IsDescending (sort_conversations updated_at parse_date cs)
  unfolding sort_conversations
  sort-IsDescending [] = tt
  sort-IsDescending (c ∷ cs) = insert-IsDescending c _ (sort-IsDescending cs)

  insert-perm : (c : A) (ds : List A) → Perm (insert_sorted updated_at parse_date c ds) (c ∷ ds)
  unfolding insert_sorted
  insert-perm c [] = Perm.refl _
  insert-perm c (d ∷ ds) =
      elim (Bool-cases (
        is_newer (updated_timestamp updated_at parse_date d)
          (updated_timestamp updated_at parse_date c))) [
            | inl y ↦ rw y (Perm.trans (Perm.cons d (insert-perm c ds)) (Perm.swap _ _ _))
            | inr n ↦ rw n (Perm.refl _)
          ]

  pub sort-perm : (cs : List A) → Perm (sort_conversations updated_at parse_date cs) cs
  unfolding sort_conversations
  sort-perm [] = Perm.refl _
  sort-perm (c ∷ cs) = Perm.trans (insert-perm c _) (Perm.cons c (sort-perm cs))
