-- ===== src/Toasts/Tests.antt =====
-- A run of the queue of toasts.
use encore_hub.Shared.{List, [], ◌∷◌}
use encore_hub.Toasts.{initial_toasts, error, info, ToastEvent, pushed, dismissed, toast_run}
use encore_hub.Toasts.Queue.{IsQueue, toast_run-IsQueue}

abbrev notices : List ToastEvent
notices =
    pushed error "offline" 4000
    ∷ pushed info "saved" 0
    ∷ dismissed 1
    ∷ pushed error "offline" 4000
    ∷ []

toast_run-IsQueue_example : IsQueue (toast_run initial_toasts notices)
toast_run-IsQueue_example = toast_run-IsQueue notices
