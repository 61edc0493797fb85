-- ===== src/Settings/State.antt =====
-- The state of frontend/src/stores/settingsStore.ts, and the ids its rows have.
use encore_hub.Settings.Preferences.{Preference, Registry}
use encore_hub.Settings.Search.{
  ExaSearchMode, OpenserpSearchSettings, SearchProvider, WebSearchSettings,
}
use encore_hub.Settings.Storage.{LocalStorage}
use encore_hub.Shared.{Assoc, Bool, List, String, [], false, true, ℕ, ◌∷◌}
use encore_hub.Workspace.{WorkspaceState}

pub data SidebarMode : Type 0 where
  characters conversations : SidebarMode

pub data MathRenderer : Type 0 where
  off katex mathjax : MathRenderer

pub data GlobalContextMenuItemId : Type 0 where
  new_chat open_settings_item : GlobalContextMenuItemId

pub data ContextMeterMetricId : Type 0 where
  percentage remaining used_of_limit used : ContextMeterMetricId

pub data SettingsTab : Type 0 where
  providers model_metadata skills knowledge memories data_tab search appearance : SettingsTab
  context_panel context_menu group_chat security about developer processes logs : SettingsTab
  database token_models usage : SettingsTab

abbrev pub is_developer_settings_tab : SettingsTab → Bool
is_developer_settings_tab developer = true
is_developer_settings_tab processes = true
is_developer_settings_tab logs = true
is_developer_settings_tab database = true
is_developer_settings_tab token_models = true
is_developer_settings_tab _ = false

abbrev pub menu_name : GlobalContextMenuItemId → String
menu_name new_chat = "new-chat"
menu_name open_settings_item = "settings"

abbrev pub metric_name : ContextMeterMetricId → String
metric_name percentage = "percentage"
metric_name remaining = "remaining"
metric_name used_of_limit = "usedOfLimit"
metric_name used = "used"

abbrev pub menu_items : Registry GlobalContextMenuItemId
menu_items = record {
  name = menu_name;
  defaults =
      record { id = new_chat; visible = true }
      ∷ record { id = open_settings_item; visible = true }
      ∷ [];
}

abbrev pub metrics : Registry ContextMeterMetricId
metrics = record {
  name = metric_name;
  defaults =
      record { id = percentage; visible = true }
      ∷ record { id = remaining; visible = true }
      ∷ record { id = used_of_limit; visible = false }
      ∷ record { id = used; visible = false }
      ∷ [];
}

abbrev pub default_context_meter_primary : ContextMeterMetricId
default_context_meter_primary = percentage

pub record SettingsState : Type 0 where
  pub theme : String
  pub provider : String
  pub model : String
  pub api_keys : Assoc String
  pub sidebar_open : Bool
  pub sidebar_width : ℕ
  pub sidebar_mode : SidebarMode
  pub settings_tab : SettingsTab
  pub dev_mode : Bool
  pub full_communication_logs : Bool
  pub traffic_light_window_controls : Bool
  pub global_context_menu_enabled : Bool
  pub global_context_menu_items : List (Preference GlobalContextMenuItemId)
  pub context_meter_primary : ContextMeterMetricId
  pub context_meter_metrics : List (Preference ContextMeterMetricId)
  pub search_enabled : Bool
  pub search_provider : SearchProvider
  pub search_max_results : ℕ
  pub searxng_search_endpoint : String
  pub openserp_search_settings : OpenserpSearchSettings
  pub exa_search_mode : ExaSearchMode
  pub search_settings_loaded : Bool
  pub deep_thinking : Bool
  pub math_renderer : MathRenderer
  pub locale : String

-- The store with what its operations change around it: the local storage, the tabs, and the search
-- settings they send to the Gateway, in the order of the calls.
pub record App : Type 0 where
  pub settings : SettingsState
  pub storage : LocalStorage
  pub windows : WorkspaceState
  pub search_saves : List WebSearchSettings
