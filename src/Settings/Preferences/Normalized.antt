-- ===== src/Settings/Preferences/Normalized.antt =====
-- A list of preferences that was read back is arranged: every row of this build stands in it once.
use encore_hub.Shared.{
  String, Bool, Bool-cases, true, false, not, ◌≡◌, ◌∙◌, refl, ap, inl, inr, Option, none, some,
  List, [], ◌∷◌, ◌++◌, keep, find, mem, str_eq, eq_iff, eq_refl, arith, ◌||◌, ◌&&◌,
}
use encore_hub.Settings.Preferences.{
  Preference, Registry, Candidate, other, object, Scan, row_name, names, known, accept, scan_all,
  append_missing, normalize, set_visible,
}

abbrev pub IsDistinct : List String → Type 0
IsDistinct [] = Unit
IsDistinct (k ∷ ks) = (mem k ks ≡ false) × IsDistinct ks

pub mem-append : (k : String) (xs ys : List String) → mem k (xs ++ ys) ≡ (mem k xs || mem k ys)
mem-append k [] ys = refl
mem-append k (x ∷ xs) ys = ground (arith, mem-append k xs ys)

pub IsDistinct-append :
    (xs ys : List String)
    → IsDistinct xs
    → IsDistinct ys
    → ((k : String) → mem k xs ≡ true → mem k ys ≡ false)
    → IsDistinct (xs ++ ys)
IsDistinct-append [] ys dx dy apart = dy
IsDistinct-append (x ∷ xs) ys (fresh, dx) dy apart = (
  mem-append x xs ys ∙ ground (arith, apart x, eq_refl x),
  IsDistinct-append xs ys dx dy (λ k h. apart k (ground arith)),
)

module _ {I : Type 0} (R : Registry I) where
  pub record IsArranged (items : List (Preference I)) : Type 0 where
    pub distinct : IsDistinct (names R items)
    pub complete : (k : String) → mem k (names R items) ≡ mem k (names R R.defaults)

  pub names-append : (xs ys : List (Preference I)) → names R (xs ++ ys) ≡ names R xs ++ names R ys
  names-append [] ys = refl
  names-append (x ∷ xs) ys = ap (λ r. row_name R x ∷ r) (names-append xs ys)

  -- What the loop keeps true of `seen` and `normalized`.
  pub record IsScan (s : Scan I) : Type 0 where
    pub distinct : IsDistinct (names R s.normalized)
    pub seen_rows : (k : String) → mem k s.seen ≡ mem k (names R s.normalized)
    pub within : (k : String) → mem k s.seen ≡ true → mem k (names R R.defaults) ≡ true

  pub find-known :
      (k : String) (ds : List (Preference I)) (p : Preference I)
      → find (λ q. str_eq (row_name R q) k) ds ≡ some p
      → (row_name R p ≡ k) × (mem k (names R ds) ≡ true)
  find-known k [] p e = cc
  find-known k (d ∷ ds) p e = elim (Bool-cases (str_eq (row_name R d) k)) [
    | inl y ↦ ground (arith, eq_iff (row_name R d) k)
    | inr n ↦ ground (arith, find-known k ds p)
  ]

  -- A row that is pushed is the only one of its name.
  push-IsScan :
      (s : Scan I) (k : String) (p : Preference I)
      → row_name R p ≡ k
      → mem k (names R R.defaults) ≡ true
      → mem k s.seen ≡ false
      → IsScan s
      → IsScan (record { seen = k ∷ s.seen; normalized = s.normalized ++ p ∷ [] })
  push-IsScan s k p e d n h = record {
    distinct =
        rw (names-append s.normalized (p ∷ []), e)
          (IsDistinct-append (names R s.normalized) (k ∷ []) h.distinct (refl, tt)
            (λ j y. ground (arith, eq_iff k j, h.seen_rows j)));
    seen_rows = λ j.
        rw (names-append s.normalized (p ∷ []), e)
          (ground (arith, mem-append j (names R s.normalized) (k ∷ []), h.seen_rows j));
    within = λ j y. ground (arith, eq_iff k j, h.within j);
  }

  accept-IsScan :
      (s : Scan I) (k : String) (v : Option Bool) (o : Option (Preference I))
      → ((p : Preference I) → o ≡ some p → (row_name R p ≡ k) × (mem k (names R R.defaults) ≡ true))
      → IsScan s
      → IsScan (accept R s k v o)
  accept-IsScan s k v none found h = h
  accept-IsScan s k v (some p) found h = elim (Bool-cases (mem k s.seen)) [
    | inl y ↦ rw y h
    | inr n ↦ rw n (push-IsScan s k _ (found p refl).0 (found p refl).1 n h)
  ]

  pub scan_all-IsScan : (cs : List Candidate) (s : Scan I) → IsScan s → IsScan (scan_all R s cs)
  unfolding scan_all
  scan_all-IsScan [] s h = h
  scan_all-IsScan (other ∷ cs) s h = scan_all-IsScan cs s h
  scan_all-IsScan (object none v ∷ cs) s h = scan_all-IsScan cs s h
  scan_all-IsScan (object (some k) v ∷ cs) s h =
      scan_all-IsScan cs _ (accept-IsScan s k v (known R k) (λ p e. find-known k R.defaults p e) h)

  pub mem-missing :
      (k : String) (seen : List String) (ds : List (Preference I))
      → mem k (names R (keep (λ p. not (mem (row_name R p) seen)) ds))
        ≡ (not (mem k seen) && mem k (names R ds))
  mem-missing k seen [] = ground arith
  mem-missing k seen (d ∷ ds) = ground (arith, mem-missing k seen ds, eq_iff (row_name R d) k)

  IsDistinct-missing :
      (seen : List String) (ds : List (Preference I))
      → IsDistinct (names R ds)
      → IsDistinct (names R (keep (λ p. not (mem (row_name R p) seen)) ds))
  IsDistinct-missing seen [] h = tt
  IsDistinct-missing seen (d ∷ ds) h =
      ground (arith, IsDistinct-missing seen ds h.1, mem-missing (row_name R d) seen ds)

  pub defaults-IsArranged : IsDistinct (names R R.defaults) → IsArranged R.defaults
  defaults-IsArranged d = record { distinct = d; complete = λ k. refl }

  append_missing-IsArranged :
      (s : Scan I) → IsDistinct (names R R.defaults) → IsScan s → IsArranged (append_missing R s)
  append_missing-IsArranged s d h =
      let rest : List (Preference I) = keep (λ p. not (mem (row_name R p) s.seen)) R.defaults in
      record {
        distinct = rw (names-append s.normalized rest) (
            IsDistinct-append (names R s.normalized) (names R rest) h.distinct
              (IsDistinct-missing s.seen R.defaults d)
              (λ k y. ground (arith, mem-missing k s.seen R.defaults, h.seen_rows k)));
        complete = λ k. rw (names-append s.normalized rest) (
            mem-append k (names R s.normalized) (names R rest)
            ∙ ground (arith, mem-missing k s.seen R.defaults, h.seen_rows k, h.within k));
      }

  pub normalize-IsArranged :
      (value : Option (List Candidate))
      → IsDistinct (names R R.defaults)
      → IsArranged (normalize R value)
  unfolding normalize
  normalize-IsArranged none d = defaults-IsArranged d
  normalize-IsArranged (some cs) d =
      append_missing-IsArranged _ d
        (scan_all-IsScan cs _ (record { distinct = tt; seen_rows = λ k. refl; within = λ k e. cc }))

  names-set_visible :
      (i : I) (v : Bool) (items : List (Preference I))
      → names R (set_visible R i v items) ≡ names R items
  names-set_visible i v [] = refl
  names-set_visible i v (p ∷ items) = ground (arith, names-set_visible i v items)

  pub set_visible-IsArranged :
      (i : I) (v : Bool) (items : List (Preference I))
      → IsArranged items
      → IsArranged (set_visible R i v items)
  set_visible-IsArranged i v items h = record {
    distinct = rw (names-set_visible i v items) h.distinct;
    complete = λ k. rw (names-set_visible i v items) (h.complete k);
  }
