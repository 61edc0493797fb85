-- ===== src/Workspace.antt =====
-- frontend/src/stores/workspaceStore.ts: the tabs of the window.
pub mod Tabs
mod Tests
use encore_hub.Shared.{
  ℕ, zero, ◌-◌, min, Bool, true, false, not, ◌||◌, Option, none, some, List, [], ◌∷◌, ◌++◌, any,
  keep, find_index, get_elem?, length, or_else, if◌then◌else◌,
}

pub data WorkspaceTabId : Type 0 where
  home workbench settings multi_chat : WorkspaceTabId

-- `===` on tab ids
abbrev pub same_tab : WorkspaceTabId → WorkspaceTabId → Bool
same_tab home home = true
same_tab workbench workbench = true
same_tab settings settings = true
same_tab multi_chat multi_chat = true
same_tab _ _ = false

pub record WorkspaceState : Type 0 where
  pub active_tab : WorkspaceTabId
  pub open_tabs : List WorkspaceTabId

abbrev pub initial_workspace : WorkspaceState
initial_workspace = record { active_tab = home; open_tabs = home ∷ [] }

-- `tabs.includes(tab)`
abbrev pub includes : WorkspaceTabId → List WorkspaceTabId → Bool
includes tab tabs = any (λ t. same_tab t tab) tabs

pub open_tab : WorkspaceState → WorkspaceTabId → WorkspaceState
open_tab s tab = record {
  active_tab = tab;
  open_tabs = if includes tab s.open_tabs then s.open_tabs else s.open_tabs ++ tab ∷ [];
}

pub activate_tab : WorkspaceState → WorkspaceTabId → WorkspaceState
activate_tab s tab = if includes tab s.open_tabs then record s { active_tab = tab } else s

-- The position of the neighbour on the left. Both subtractions stop at 0, as `Math.max(0, …)` does.
fallback_index : ℕ → List WorkspaceTabId → ℕ
fallback_index closing_index open_tabs = min (closing_index - 1) (length open_tabs - 1)

pub close_tab : WorkspaceState → WorkspaceTabId → WorkspaceState
unfolding fallback_index
close_tab s tab =
    if same_tab tab home || not (includes tab s.open_tabs)
    then s
    else let closing_index = or_else (find_index (λ t. same_tab t tab) s.open_tabs) zero in
      let open_tabs = keep (λ t. not (same_tab t tab)) s.open_tabs in
      if same_tab s.active_tab tab
      then record {
        active_tab = or_else (get_elem? open_tabs (fallback_index closing_index open_tabs)) home;
        open_tabs = open_tabs;
      }
      else record s { open_tabs = open_tabs }

pub data TabEvent : Type 0 where
  opened activated closed : WorkspaceTabId → TabEvent

pub tab_step : WorkspaceState → TabEvent → WorkspaceState
tab_step s (opened tab) = open_tab s tab
tab_step s (activated tab) = activate_tab s tab
tab_step s (closed tab) = close_tab s tab

pub tab_run : WorkspaceState → List TabEvent → WorkspaceState
tab_run s [] = s
tab_run s (e ∷ es) = tab_run (tab_step s e) es
