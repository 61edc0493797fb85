-- ===== src/Settings/Preferences/Moved.antt =====
-- Dragging a row onto another one: the moved row takes the place of its target, and all other
-- rows keep their order.
use encore_hub.Shared.{
  ℕ, zero, suc, ◌≤◌, String, Bool, Bool-cases, true, false, not, ◌||◌, ◌≡◌, ◌∙◌, refl, ap, sym, inl,
  inr, none, some, List, [], ◌∷◌, keep, find_index, get_elem?, length, mem, or_else, str_eq, eq_iff,
  arith,
}
use encore_hub.Settings.Preferences.{
  Preference, Registry, row_name, names, is_row, remove_at, insert_at, splice, move,
}
use encore_hub.Settings.Preferences.Normalized.{IsDistinct, IsArranged}

module _ {I : Type 0} (R : Registry I) where
  mem-insert_at :
      (k : String) (t : ℕ) (x : Preference I) (ys : List (Preference I))
      → mem k (names R (insert_at R t x ys)) ≡ (str_eq (row_name R x) k || mem k (names R ys))
  mem-insert_at k zero x ys = refl
  mem-insert_at k (suc t) x [] = refl
  mem-insert_at k (suc t) x (y ∷ ys) = ground (arith, mem-insert_at k t x ys)

  mem-remove_at :
      (k : String) (i : ℕ) (x : Preference I) (xs : List (Preference I))
      → get_elem? xs i ≡ some x
      → mem k (names R xs) ≡ (str_eq (row_name R x) k || mem k (names R (remove_at R i xs)))
  mem-remove_at k i x [] e = cc
  mem-remove_at k zero x (y ∷ xs) e = ground arith
  mem-remove_at k (suc i) x (y ∷ xs) e = ground (arith, mem-remove_at k i x xs e)

  IsDistinct-insert_at :
      (t : ℕ) (x : Preference I) (ys : List (Preference I))
      → IsDistinct (names R ys)
      → mem (row_name R x) (names R ys) ≡ false
      → IsDistinct (names R (insert_at R t x ys))
  IsDistinct-insert_at zero x ys d n = (n, d)
  IsDistinct-insert_at (suc t) x [] d n = (refl, tt)
  IsDistinct-insert_at (suc t) x (y ∷ ys) d n = (
    ground (
      arith,
      mem-insert_at (row_name R y) t x ys,
      eq_iff (row_name R x) (row_name R y),
      eq_iff (row_name R y) (row_name R x),
      d.0,
    ),
    IsDistinct-insert_at t x ys d.1 (ground arith),
  )

  IsDistinct-remove_at :
      (i : ℕ) (x : Preference I) (xs : List (Preference I))
      → get_elem? xs i ≡ some x
      → IsDistinct (names R xs)
      → IsDistinct (names R (remove_at R i xs))
        × (mem (row_name R x) (names R (remove_at R i xs)) ≡ false)
  IsDistinct-remove_at i x [] e d = cc
  IsDistinct-remove_at zero x (y ∷ xs) e d = ground arith
  IsDistinct-remove_at (suc i) x (y ∷ xs) e d =
      let rest = IsDistinct-remove_at i x xs e d.1 in
      (
        (ground (arith, mem-remove_at (row_name R y) i x xs e, d.0), rest.0),
        ground (
          arith,
          rest.1,
          mem-remove_at (row_name R y) i x xs e,
          d.0,
          eq_iff (row_name R x) (row_name R y),
          eq_iff (row_name R y) (row_name R x),
        ),
      )

  keep-insert_at :
      (q : Preference I → Bool) (t : ℕ) (x : Preference I) (ys : List (Preference I))
      → q x ≡ false
      → keep q (insert_at R t x ys) ≡ keep q ys
  keep-insert_at q zero x ys h = ground arith
  keep-insert_at q (suc t) x [] h = ground arith
  keep-insert_at q (suc t) x (y ∷ ys) h = ground (arith, keep-insert_at q t x ys h)

  keep-remove_at :
      (q : Preference I → Bool) (i : ℕ) (x : Preference I) (xs : List (Preference I))
      → get_elem? xs i ≡ some x
      → q x ≡ false
      → keep q (remove_at R i xs) ≡ keep q xs
  keep-remove_at q i x [] e h = cc
  keep-remove_at q zero x (y ∷ xs) e h = ground arith
  keep-remove_at q (suc i) x (y ∷ xs) e h = ground (arith, keep-remove_at q i x xs e h)

  length-remove_at :
      (i : ℕ) (x : Preference I) (xs : List (Preference I))
      → get_elem? xs i ≡ some x
      → length xs ≡ suc (length (remove_at R i xs))
  length-remove_at i x [] e = cc
  length-remove_at zero x (y ∷ xs) e = refl
  length-remove_at (suc i) x (y ∷ xs) e = ap suc (length-remove_at i x xs e)

  index-insert_at :
      (i : I) (t : ℕ) (x : Preference I) (ys : List (Preference I))
      → is_row R i x ≡ true
      → mem (R.name i) (names R ys) ≡ false
      → t ≤ length ys
      → find_index (is_row R i) (insert_at R t x ys) ≡ some t
  index-insert_at i zero x ys y n l = rw y refl
  index-insert_at i (suc t) x [] y n l = absurd (omega arith)
  index-insert_at i (suc t) x (z ∷ ys) y n l =
      let rest = index-insert_at i t x ys y (ground arith) (omega arith) in
      ground (arith, rest, eq_iff (row_name R z) (R.name i))

  find_row :
      (i : I) (xs : List (Preference I))
      → mem (R.name i) (names R xs) ≡ true
      → (n : ℕ) × (x : Preference I) × (find_index (is_row R i) xs ≡ some n)
        × (get_elem? xs n ≡ some x)
        × (is_row R i x ≡ true)
        × (suc n ≤ length xs)
  find_row i [] h = cc
  find_row i (y ∷ xs) h = elim (Bool-cases (is_row R i y)) [
    | inl e ↦ (zero, y, rw e refl, refl, e, omega arith)
    | inr n ↦
        let (m, x, f, g, e, l) = find_row i xs (ground arith) in
        (suc m, x, rw (n, f) refl, g, e, omega arith)
  ]

  -- `after` is `before` with the row of `i` in the place of the row of `target`.
  pub record IsMoved (i target : I) (before after : List (Preference I)) : Type 0 where
    pub arranged : IsArranged R after
    pub in_place : find_index (is_row R i) after ≡ find_index (is_row R target) before
    pub others : keep (λ p. not (is_row R i p)) after ≡ keep (λ p. not (is_row R i p)) before

  splice-IsMoved :
      (i target : I) (items : List (Preference I)) (n t : ℕ) (x : Preference I)
      → IsArranged R items
      → find_index (is_row R target) items ≡ some t
      → suc t ≤ length items
      → get_elem? items n ≡ some x
      → is_row R i x ≡ true
      → IsMoved i target items (insert_at R t x (remove_at R n items))
  splice-IsMoved i target items n t x a f l g e =
      let e' : row_name R x ≡ R.name i = (eq_iff (row_name R x) (R.name i)).0 e in
      let out = IsDistinct-remove_at n x items g a.distinct in
      record {
        arranged = record {
          distinct = IsDistinct-insert_at t x (remove_at R n items) out.0 out.1;
          complete = λ k.
              mem-insert_at k t x (remove_at R n items)
              ∙ sym (mem-remove_at k n x items g)
              ∙ a.complete k;
        };
        in_place =
            index-insert_at i t x (remove_at R n items) e (rw (← e') out.1)
              (omega (arith, length-remove_at n x items g))
            ∙ sym f;
        others =
            keep-insert_at (λ p. not (is_row R i p)) t x (remove_at R n items) (rw e refl)
            ∙ keep-remove_at (λ p. not (is_row R i p)) n x items g (rw e refl);
      }

  splice-found :
      (n t : ℕ) (x : Preference I) (items : List (Preference I))
      → get_elem? items n ≡ some x
      → splice R (some n) (some t) items ≡ some (insert_at R t x (remove_at R n items))
  splice-found n t x items g = rw (splice, g) refl

  -- A drag between two different rows always succeeds.
  pub move-IsMoved :
      (i target : I) (items : List (Preference I))
      → IsArranged R items
      → str_eq (R.name i) (R.name target) ≡ false
      → mem (R.name i) (names R R.defaults) ≡ true
      → mem (R.name target) (names R R.defaults) ≡ true
      → (after : List (Preference I)) × (move R i target items ≡ some after)
        × IsMoved i target items after
  unfolding move
  move-IsMoved i target items a n hi ht =
      let (m, x, f, g, e, l) = find_row i items (a.complete (R.name i) ∙ hi) in
      let (t, y, f', g', e', l') = find_row target items (a.complete (R.name target) ∙ ht) in
      (
        insert_at R t x (remove_at R m items),
        rw (n, f, f') (splice-found m t x items g),
        splice-IsMoved i target items m t x a f' l' g e,
      )

  move_same :
      (i target : I) (items : List (Preference I))
      → str_eq (R.name i) (R.name target) ≡ true
      → move R i target items ≡ none
  unfolding move
  move_same i target items y = rw y refl

  -- An operation that may return without a change keeps the list arranged.
  pub move-IsArranged :
      (i target : I) (items : List (Preference I))
      → IsArranged R items
      → mem (R.name i) (names R R.defaults) ≡ true
      → mem (R.name target) (names R R.defaults) ≡ true
      → IsArranged R (or_else (move R i target items) items)
  move-IsArranged i target items a hi ht = elim (Bool-cases (str_eq (R.name i) (R.name target))) [
    | inl y ↦ rw (move_same i target items y) a
    | inr n ↦ let (after, e, m) = move-IsMoved i target items a n hi ht in rw e m.arranged
  ]
