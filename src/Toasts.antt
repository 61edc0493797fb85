-- ===== src/Toasts.antt =====
-- frontend/src/stores/toastStore.ts: the queue of toasts. `timers` lists the dismissals that
-- `setTimeout` was asked for, with their delays; a timer that fires is a dismissal.
pub mod Queue
mod Tests
use encore_hub.Shared.{
  ℕ, suc, ◌+◌, String, Bool, true, false, not, List, [], ◌∷◌, ◌++◌, keep, ltb, if◌then◌else◌, ◌==◌,
}

pub data ToastKind : Type 0 where
  success error info warning : ToastKind

pub record Toast : Type 0 where
  pub id : ℕ
  pub kind : ToastKind
  pub message : String

pub record ToastState : Type 0 where
  pub toasts : List Toast
  pub next_id : ℕ
  pub timers : List (ℕ × ℕ)

abbrev pub initial_toasts : ToastState
initial_toasts = record { toasts = []; next_id = 1; timers = [] }

-- `push`, with the id that it returns.
unfoldable pub push : ToastState → ToastKind → String → ℕ → ToastState × ℕ
push s kind message duration_ms = (
  record {
    toasts = s.toasts ++ record { id = s.next_id; kind = kind; message = message } ∷ [];
    next_id = suc s.next_id;
    timers = if ltb 0 duration_ms then s.timers ++ (s.next_id, duration_ms) ∷ [] else s.timers;
  },
  s.next_id,
)

unfoldable pub dismiss : ToastState → ℕ → ToastState
dismiss s id = record s { toasts = keep (λ t. not (t.id == id)) s.toasts }

pub data ToastEvent : Type 0 where
  pushed : ToastKind → String → ℕ → ToastEvent
  dismissed : ℕ → ToastEvent

unfoldable pub toast_run : ToastState → List ToastEvent → ToastState
unfolding push dismiss
toast_run s [] = s
toast_run s (pushed kind message duration_ms ∷ rest) =
    toast_run (push s kind message duration_ms).0 rest
toast_run s (dismissed id ∷ rest) = toast_run (dismiss s id) rest
