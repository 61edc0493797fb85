-- ===== src/Workspace/Tests.antt =====
-- The tabs of the window, at a run.
use encore_hub.Shared.{List, [], ◌∷◌}
use encore_hub.Workspace.{
  initial_workspace, settings, workbench, TabEvent, opened, activated, closed, tab_run,
}
use encore_hub.Workspace.Tabs.{IsWindow, tab_run-IsWindow}

abbrev clicks : List TabEvent
clicks = opened settings ∷ opened workbench ∷ activated settings ∷ closed settings ∷ []

tab_run-IsWindow_example : IsWindow (tab_run initial_workspace clicks)
tab_run-IsWindow_example = tab_run-IsWindow clicks
