-- ===== src/Toasts/Queue.antt =====
-- Toasts are told apart by their ids (toastStore.ts).
use encore_hub.Shared.{
  ℕ, suc, ◌<◌, String, Bool, Bool-cases, false, not, ◌≡◌, ◌∙◌, refl, inl, inr, List, [], ◌∷◌, ◌++◌,
  keep, any, any-append, All, ◌==◌, arith,
}
use encore_hub.Toasts.{
  Toast, ToastKind, ToastState, initial_toasts, push, dismiss, ToastEvent, pushed, dismissed,
  toast_run,
}

abbrev pub has_toast : ℕ → List Toast → Bool
has_toast id ts = any (λ t. t.id == id) ts

abbrev pub HasDistinctToasts : List Toast → Type 0
HasDistinctToasts [] = Unit
HasDistinctToasts (t ∷ ts) = (has_toast t.id ts ≡ false) × HasDistinctToasts ts

-- No two toasts have one id, and the next id is above all of them.
pub record IsQueue (s : ToastState) : Type 0 where
  pub distinct : HasDistinctToasts s.toasts
  pub below : All (λ t. t.id < s.next_id) s.toasts

absent_above : (n : ℕ) (ts : List Toast) → All (λ t. t.id < n) ts → has_toast n ts ≡ false
absent_above n [] h = refl
absent_above n (t ∷ ts) (less, h) = ground (arith, absent_above n ts h)

below_concat :
    (n : ℕ) (ts : List Toast) (t : Toast)
    → All (λ x. x.id < n) ts
    → t.id ≡ n
    → All (λ x. x.id < suc n) (ts ++ t ∷ [])
below_concat n [] t h e = (omega arith, tt)
below_concat n (x ∷ ts) t (less, h) e = (omega arith, below_concat n ts t h e)

distinct_concat :
    (ts : List Toast) (t : Toast)
    → HasDistinctToasts ts
    → has_toast t.id ts ≡ false
    → HasDistinctToasts (ts ++ t ∷ [])
distinct_concat [] t d h = (refl, tt)
distinct_concat (x ∷ ts) t (fresh, d) h = (
  any-append (λ y. y.id == x.id) ts (t ∷ []) ∙ ground arith,
  distinct_concat ts t d (ground arith),
)

has_toast-keep :
    (ts : List Toast) (id j : ℕ)
    → has_toast j ts ≡ false
    → has_toast j (keep (λ t. not (t.id == id)) ts) ≡ false
has_toast-keep [] id j h = refl
has_toast-keep (t ∷ ts) id j h = ground (arith, has_toast-keep ts id j)

distinct_keep :
    (ts : List Toast) (id : ℕ)
    → HasDistinctToasts ts
    → HasDistinctToasts (keep (λ t. not (t.id == id)) ts)
distinct_keep [] id d = tt
distinct_keep (t ∷ ts) id (fresh, d) = elim (Bool-cases (t.id == id)) [
  | inl y ↦ rw y (distinct_keep ts id d)
  | inr n ↦ rw n (has_toast-keep ts id t.id fresh, distinct_keep ts id d)
]

below_keep :
    (n : ℕ) (ts : List Toast) (id : ℕ)
    → All (λ t. t.id < n) ts
    → All (λ t. t.id < n) (keep (λ t. not (t.id == id)) ts)
below_keep n [] id h = tt
below_keep n (t ∷ ts) id (less, h) = elim (Bool-cases (t.id == id)) [
  | inl y ↦ rw y (below_keep n ts id h)
  | inr m ↦ rw m (less, below_keep n ts id h)
]

push-IsQueue :
    (s : ToastState) (kind : ToastKind) (message : String) (duration_ms : ℕ)
    → IsQueue s
    → IsQueue (push s kind message duration_ms).0
unfolding push
push-IsQueue s kind message duration_ms q = record {
  distinct = distinct_concat s.toasts _ q.distinct (absent_above s.next_id s.toasts q.below);
  below = below_concat s.next_id s.toasts _ q.below refl;
}

dismiss-IsQueue : (s : ToastState) (id : ℕ) → IsQueue s → IsQueue (dismiss s id)
unfolding dismiss
dismiss-IsQueue s id q = record {
  distinct = distinct_keep s.toasts id q.distinct;
  below = below_keep s.next_id s.toasts id q.below;
}

toast_run_from : (s : ToastState) (es : List ToastEvent) → IsQueue s → IsQueue (toast_run s es)
unfolding toast_run
toast_run_from s [] q = q
toast_run_from s (pushed kind message duration_ms ∷ es) q =
    toast_run_from (push s kind message duration_ms).0 es
      (push-IsQueue s kind message duration_ms q)
toast_run_from s (dismissed id ∷ es) q = toast_run_from (dismiss s id) es (dismiss-IsQueue s id q)

-- After any pushes and dismissals, by a click or by a timer, no two toasts have one id, and every id
-- is below the one that the next toast gets.
pub toast_run-IsQueue : (es : List ToastEvent) → IsQueue (toast_run initial_toasts es)
toast_run-IsQueue es = toast_run_from initial_toasts es (record { distinct = tt; below = tt })
