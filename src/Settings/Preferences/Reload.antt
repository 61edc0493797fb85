-- ===== src/Settings/Preferences/Reload.antt =====
-- A list of preferences that is written to the storage is read back as it was.
use encore_hub.Shared.{
  String, Bool-cases, true, false, not, ◌≡◌, ◌∙◌, refl, ap, sym, inl, inr, Option, some, List, [],
  ◌∷◌, ◌++◌, keep, find, mem, str_eq, eq_iff, eq_refl, arith,
}
use encore_hub.Settings.Preferences.{
  Preference, Registry, Scan, row_name, names, known, accept, scan_all, normalize, written,
}
use encore_hub.Settings.Preferences.Normalized.{
  IsDistinct, IsArranged, find-known, scan_all-IsScan, mem-missing,
}

append_assoc_cons {ℓ} :
    {A : Type ℓ} (xs : List A) (x : A) (ys : List A) → (xs ++ x ∷ []) ++ ys ≡ xs ++ x ∷ ys
append_assoc_cons [] x ys = refl
append_assoc_cons (z ∷ xs) x ys = ap (λ r. z ∷ r) (append_assoc_cons xs x ys)

append-nil {ℓ} : {A : Type ℓ} (xs : List A) → xs ++ [] ≡ xs
append-nil [] = refl
append-nil (x ∷ xs) = ap (λ r. x ∷ r) (append-nil xs)

module _ {I : Type 0} (R : Registry I) (inj : (i j : I) → R.name i ≡ R.name j → i ≡ j) where
  find-some :
      (k : String) (ds : List (Preference I))
      → mem k (names R ds) ≡ true
      → (p : Preference I) × (find (λ q. str_eq (row_name R q) k) ds ≡ some p)
  find-some k [] h = cc
  find-some k (d ∷ ds) h = elim (Bool-cases (str_eq (row_name R d) k)) [
    | inl y ↦ (d, ground (arith, y))
    | inr n ↦ let (p, e) = find-some k ds (ground arith) in (p, ground (arith, n, e))
  ]

  known-row :
      (p : Preference I)
      → mem (row_name R p) (names R R.defaults) ≡ true
      → (q : Preference I) × (known R (row_name R p) ≡ some q) × (q.id ≡ p.id)
  known-row p h =
      let (q, e) = find-some (row_name R p) R.defaults h in
      (q, e, inj q.id p.id (find-known R (row_name R p) R.defaults q e).0)

  accept-row :
      (s : Scan I) (p : Preference I) (o : Option (Preference I)) (q : Preference I)
      → o ≡ some q
      → q.id ≡ p.id
      → mem (row_name R p) s.seen ≡ false
      → accept R s (row_name R p) (some p.visible) o
        ≡ record { seen = row_name R p ∷ s.seen; normalized = s.normalized ++ p ∷ [] }
  accept-row s p o q e i n = rw (e, i, n) refl

  scan_all-written :
      (items : List (Preference I)) (s : Scan I)
      → IsDistinct (names R items)
      → ((k : String)
          → mem k (names R items) ≡ true
          → (mem k (names R R.defaults) ≡ true) × (mem k s.seen ≡ false))
      → (scan_all R s (written R items)).normalized ≡ s.normalized ++ items
  unfolding scan_all
  scan_all-written [] s d fresh = sym (append-nil s.normalized)
  scan_all-written (p ∷ items) s d fresh =
      let here = fresh (row_name R p) (ground (arith, eq_refl (row_name R p))) in
      let (q, e, i) = known-row p here.0 in
      ap (λ r. (scan_all R r (written R items)).normalized)
        (accept-row s p (known R (row_name R p)) q e i here.1)
      ∙ scan_all-written items
          (record { seen = row_name R p ∷ s.seen; normalized = s.normalized ++ p ∷ [] }) d.1
          (λ k y. (
            (fresh k (ground arith)).0,
            ground (arith, fresh k (ground arith), eq_iff (row_name R p) k, d.0),
          ))
      ∙ append_assoc_cons s.normalized p items

  no_rows : (xs : List (Preference I)) → ((k : String) → mem k (names R xs) ≡ false) → xs ≡ []
  no_rows [] h = refl
  no_rows (x ∷ xs) h = absurd (ground (arith, h (row_name R x), eq_refl (row_name R x)))

  -- Whatever arranged list is persisted, the next start reads the same list: the same rows in the
  -- same order, with the same visibility.
  pub normalize-written :
      (items : List (Preference I))
      → IsArranged R items
      → normalize R (some (written R items)) ≡ items
  unfolding normalize
  normalize-written items a =
      let start : Scan I = record { seen = []; normalized = [] } in
      let end = scan_all R start (written R items) in
      let kept : end.normalized ≡ items =
        scan_all-written items start a.distinct (λ k y. (sym (a.complete k) ∙ y, refl)) in
      let ok =
        scan_all-IsScan R (written R items) start
          (record { distinct = tt; seen_rows = λ k. refl; within = λ k e. cc }) in
      let rest : keep (λ p. not (mem (row_name R p) end.seen)) R.defaults ≡ [] = no_rows _ (λ k.
        mem-missing R k end.seen R.defaults
        ∙ rw (ok.seen_rows k, kept, a.complete k) (ground arith)) in
      rw (kept, rest) (append-nil items)
