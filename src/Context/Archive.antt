-- ===== src/Context/Archive.antt =====
-- The last archived message is found again by its id (contextManagementStore.ts).
use mathlib.Core.Option
use encore_hub.Shared.{
  ℕ, zero, suc, ◌≤◌, ◌<◌, String, Bool-cases, true, false, ◌≡◌, ◌∙◌, ap, sym, subst, inl, inr,
  Option-cases, some, List, [], ◌∷◌, any, arith, length, take, last?, find_index, is_empty, str_eq,
  eq_iff, eq_refl,
}
use encore_hub.Models.{Message}
use encore_hub.Context.Summary.{kept_recently}
use encore_hub.Context.Store.{message_id, end_index}

abbrev pub HasDistinctIds : List Message → Type 0
HasDistinctIds [] = Unit
HasDistinctIds (x ∷ xs) = (any (λ m. str_eq m.id x.id) xs ≡ false) × HasDistinctIds xs

last-any :
    (n : ℕ) (xs : List Message) (m : Message)
    → last? (take (suc n) xs) ≡ some m
    → any (λ y. str_eq y.id m.id) xs ≡ true
last-any n [] m h = cc
last-any zero (x ∷ xs) m h = ground (arith, eq_refl x.id)
last-any (suc n) (x ∷ []) m h = ground (arith, eq_refl x.id)
last-any (suc n) (x ∷ y ∷ ys) m h = ground (arith, last-any n (y ∷ ys) m h)

true_not_false : ¬ (true ≡ false)
true_not_false h = cc

-- With distinct ids, the last of the first messages is found at its place.
find_index-last :
    (n : ℕ) (xs : List Message) (m : Message)
    → HasDistinctIds xs
    → n < length xs
    → last? (take (suc n) xs) ≡ some m
    → find_index (λ y. str_eq y.id m.id) xs ≡ some n
find_index-last n [] m d b h = absurd (omega arith)
find_index-last zero (x ∷ xs) m d b h = ground (arith, eq_refl x.id)
find_index-last (suc n) (x ∷ []) m d b h = absurd (omega arith)
find_index-last (suc n) (x ∷ y ∷ ys) m (fresh, d) b h =
    let rest = find_index-last n (y ∷ ys) m d (omega arith) h in
    let found = last-any n (y ∷ ys) m h in
    elim (Bool-cases (str_eq x.id m.id)) [
      | inl e ↦ absurd (
          true_not_false (
            sym found
            ∙ subst (λ i. any (λ z. str_eq z.id i) (y ∷ ys) ≡ false) ((eq_iff x.id m.id).0 e)
                fresh))
      | inr e ↦ rw e (ap (λ o. Option.map suc o) rest)
    ]

pub last-end_index :
    (n : ℕ) (xs : List Message) (finish : String)
    → HasDistinctIds xs
    → n < length xs
    → message_id (last? (take (suc n) xs)) ≡ some finish
    → is_empty finish ≡ false
    → end_index (some finish) xs ≡ some n
unfolding end_index
last-end_index n xs finish d b h full = elim (Option-cases (last? (take (suc n) xs))) [
  | inl e ↦ cc
  | inr (m, e) ↦
      let same : m.id ≡ finish = cc in
      rw full (
        subst (λ f. find_index (λ z. str_eq z.id f) xs ≡ some n) same
          (find_index-last n xs m d b e))
]

pub kept_bounds :
    (xs : List Message) → 4 ≤ length xs → (2 ≤ kept_recently xs) × (kept_recently xs < length xs)
kept_bounds xs h = (omega arith, omega arith)
