-- ===== src/Settings/Operations.antt =====
-- The operations of settingsStore.ts on the state, the storage and the window's tabs. Each sets
-- the state first and then writes to the storage. Those on API keys are in Settings.Keys.
use encore_hub.Workspace
use encore_hub.Settings.Load.{clamp_sidebar_width}
use encore_hub.Settings.Preferences.{Preference, move, set_visible, written}
use encore_hub.Settings.State.{
  App, GlobalContextMenuItemId, MathRenderer, SettingsState, SettingsTab, SidebarMode, about,
  characters, conversations, is_developer_settings_tab, katex, mathjax, menu_items, off,
}
use encore_hub.Settings.Storage.{LocalStorage, Pixels, array, flag, pixels, write}
use encore_hub.Shared.{
  Bool, List, Option, String, false, if◌then◌else◌, insert, is_empty, none, not, or_else, remove,
  some, ◌&&◌,
}
use encore_hub.Workspace.{close_tab, open_tab}

-- `set({ ... })` and then the writes
abbrev pub commit : SettingsState → (LocalStorage → LocalStorage) → App → App
commit s set a = record a { settings = s; storage = write set a.storage }

abbrev pub set_theme : String → App → App
set_theme theme a =
    commit (record a.settings { theme = theme }) (λ s. record s { theme = some theme }) a

-- The model is kept when none is given, and written only when it is not empty.
abbrev pub write_model : Option String → LocalStorage → LocalStorage
write_model none s = s
write_model (some model) s = if is_empty model then s else record s { model = some model }

abbrev pub set_provider : String → Option String → App → App
set_provider provider model a =
    commit (record a.settings { provider = provider; model = or_else model a.settings.model })
      (λ s. write_model model (record s { provider = some provider })) a

abbrev pub set_model : String → App → App
set_model model a =
    commit (record a.settings { model = model }) (λ s. record s { model = some model }) a

abbrev pub toggle_sidebar : App → App
toggle_sidebar a = record a {
  settings = record a.settings { sidebar_open = not a.settings.sidebar_open };
}

abbrev pub set_sidebar_width : Pixels → App → App
set_sidebar_width width a =
    let clamped = clamp_sidebar_width width in
    commit (record a.settings { sidebar_width = clamped })
      (λ s. record s { sidebar_width = some (pixels clamped) }) a

abbrev pub sidebar_mode_text : SidebarMode → String
sidebar_mode_text characters = "characters"
sidebar_mode_text conversations = "conversations"

abbrev pub set_sidebar_mode : SidebarMode → App → App
set_sidebar_mode mode a =
    commit (record a.settings { sidebar_mode = mode })
      (λ s. record s { sidebar_mode = some (sidebar_mode_text mode) }) a

abbrev pub open_settings : Option SettingsTab → App → App
open_settings tab a = record a {
  settings = record a.settings { settings_tab = or_else tab a.settings.settings_tab };
  windows = open_tab a.windows Workspace.settings;
}

abbrev pub close_settings : App → App
close_settings a = record a { windows = close_tab a.windows Workspace.settings }

unfoldable pub set_dev_mode : Bool → App → App
set_dev_mode on a =
    commit
      (record a.settings {
        dev_mode = on;
        full_communication_logs = if on then a.settings.full_communication_logs else false;
        settings_tab =
            if not on && is_developer_settings_tab a.settings.settings_tab
            then about
            else a.settings.settings_tab;
      })
      (λ s.
        if on
        then record s { dev_mode = some (flag on) }
        else record s { dev_mode = some (flag on); full_communication_logs = some "0" })
      a

unfoldable pub set_full_communication_logs : Bool → App → App
set_full_communication_logs on a =
    let enabled = on && a.settings.dev_mode in
    commit (record a.settings { full_communication_logs = enabled })
      (λ s. record s { full_communication_logs = some (flag enabled) }) a

abbrev pub set_traffic_light_window_controls : Bool → App → App
set_traffic_light_window_controls on a =
    commit (record a.settings { traffic_light_window_controls = on })
      (λ s. record s { traffic_light_window_controls = some (flag on) }) a

abbrev pub set_global_context_menu_enabled : Bool → App → App
set_global_context_menu_enabled on a =
    commit (record a.settings { global_context_menu_enabled = on })
      (λ s. record s { global_context_menu_enabled = some (flag on) }) a

abbrev pub commit_menu : List (Preference GlobalContextMenuItemId) → App → App
commit_menu items a =
    commit (record a.settings { global_context_menu_items = items })
      (λ s. record s { global_context_menu_items = some (array (written menu_items items)) }) a

unfoldable pub set_global_context_menu_item_visible : GlobalContextMenuItemId → Bool → App → App
set_global_context_menu_item_visible id visible a =
    commit_menu (set_visible menu_items id visible a.settings.global_context_menu_items) a

abbrev pub commit_moved_item : Option (List (Preference GlobalContextMenuItemId)) → App → App
commit_moved_item none a = a
commit_moved_item (some items) a = commit_menu items a

unfoldable pub move_global_context_menu_item :
    GlobalContextMenuItemId → GlobalContextMenuItemId → App → App
move_global_context_menu_item id target a =
    commit_moved_item (move menu_items id target a.settings.global_context_menu_items) a

abbrev pub set_deep_thinking : Bool → App → App
set_deep_thinking on a =
    commit (record a.settings { deep_thinking = on })
      (λ s. record s { deep_thinking = some (flag on) }) a

abbrev pub math_renderer_text : MathRenderer → String
math_renderer_text off = "off"
math_renderer_text katex = "katex"
math_renderer_text mathjax = "mathjax"

abbrev pub set_math_renderer : MathRenderer → App → App
set_math_renderer renderer a =
    commit (record a.settings { math_renderer = renderer })
      (λ s. record s { math_renderer = some (math_renderer_text renderer) }) a

-- The state's part of setApiKey and clearApiKey; the call of the engine that follows is not
-- waited for, and its failure is ignored.
abbrev pub set_api_key : String → String → App → App
set_api_key provider key a = record a {
  settings = record a.settings { api_keys = insert provider key a.settings.api_keys };
}

abbrev pub clear_api_key : String → App → App
clear_api_key provider a = record a {
  settings = record a.settings { api_keys = remove provider a.settings.api_keys };
}
