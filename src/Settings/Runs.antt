-- ===== src/Settings/Runs.antt =====
-- A session of the program on the settings (settingsStore.ts), and what the next start finds.
use encore_hub.Settings.Load.{initial_settings}
use encore_hub.Settings.Meter.{
  move_context_meter_metric, reset_context_meter_display, set_context_meter_metric_visible,
  set_context_meter_primary,
}
use encore_hub.Settings.Operations.{
  clear_api_key, close_settings, move_global_context_menu_item, open_settings, set_api_key,
  set_deep_thinking, set_dev_mode, set_full_communication_logs, set_global_context_menu_enabled,
  set_global_context_menu_item_visible, set_math_renderer, set_model, set_provider,
  set_sidebar_mode, set_sidebar_width, set_theme, set_traffic_light_window_controls, toggle_sidebar,
}
use encore_hub.Settings.Search.{
  SearchProvider, StoredAnswer, WebSearchSettings, default_web_search_settings,
}
use encore_hub.Settings.SearchOps.{
  load_web_search_settings_done, load_web_search_settings_failed, save_web_search_settings_done,
  set_locale, set_search_enabled, set_search_provider,
}
use encore_hub.Settings.State.{
  App, ContextMeterMetricId, GlobalContextMenuItemId, MathRenderer, SettingsState, SettingsTab,
  SidebarMode, providers,
}
use encore_hub.Settings.Storage.{LocalStorage, Pixels, pixel}
use encore_hub.Shared.{
  ◌*◌, ◌/◌, Bool, List, Option, String, [], false, is_empty, some, true, ◌∷◌, ◌≡◌, ◌≤◌,
}
use encore_hub.Workspace.{initial_workspace}

pub data SettingsEvent : Type 0 where
  theme_chosen : String → SettingsEvent
  provider_chosen : String → Option String → SettingsEvent
  model_chosen : String → SettingsEvent
  api_key_set : String → String → SettingsEvent
  api_key_cleared : String → SettingsEvent
  sidebar_toggled : SettingsEvent
  sidebar_dragged : Pixels → SettingsEvent
  sidebar_switched : SidebarMode → SettingsEvent
  settings_opened : Option SettingsTab → SettingsEvent
  settings_closed : SettingsEvent
  dev_mode_set logs_set lights_set menu_set thinking_set : Bool → SettingsEvent
  menu_item_shown : GlobalContextMenuItemId → Bool → SettingsEvent
  menu_item_moved : GlobalContextMenuItemId → GlobalContextMenuItemId → SettingsEvent
  headline_chosen : ContextMeterMetricId → SettingsEvent
  metric_shown : ContextMeterMetricId → Bool → SettingsEvent
  metric_moved : ContextMeterMetricId → ContextMeterMetricId → SettingsEvent
  meter_reset : SettingsEvent
  renderer_chosen : MathRenderer → SettingsEvent
  search_set : Bool → SettingsEvent
  search_provider_chosen : SearchProvider → SettingsEvent
  search_loaded : WebSearchSettings → StoredAnswer → SettingsEvent
  search_unloaded : SettingsEvent
  search_saved : WebSearchSettings → SettingsEvent
  language_chosen : String → SettingsEvent

unfoldable pub settings_step : List String → SettingsEvent → App → App
settings_step catalogs (theme_chosen theme) = set_theme theme
settings_step catalogs (provider_chosen provider model) = set_provider provider model
settings_step catalogs (model_chosen model) = set_model model
settings_step catalogs (api_key_set provider key) = set_api_key provider key
settings_step catalogs (api_key_cleared provider) = clear_api_key provider
settings_step catalogs sidebar_toggled = toggle_sidebar
settings_step catalogs (sidebar_dragged width) = set_sidebar_width width
settings_step catalogs (sidebar_switched mode) = set_sidebar_mode mode
settings_step catalogs (settings_opened tab) = open_settings tab
settings_step catalogs settings_closed = close_settings
settings_step catalogs (dev_mode_set on) = set_dev_mode on
settings_step catalogs (logs_set on) = set_full_communication_logs on
settings_step catalogs (lights_set on) = set_traffic_light_window_controls on
settings_step catalogs (menu_set on) = set_global_context_menu_enabled on
settings_step catalogs (thinking_set on) = set_deep_thinking on
settings_step catalogs (menu_item_shown id on) = set_global_context_menu_item_visible id on
settings_step catalogs (menu_item_moved id target) = move_global_context_menu_item id target
settings_step catalogs (headline_chosen id) = set_context_meter_primary id
settings_step catalogs (metric_shown id on) = set_context_meter_metric_visible id on
settings_step catalogs (metric_moved id target) = move_context_meter_metric id target
settings_step catalogs meter_reset = reset_context_meter_display
settings_step catalogs (renderer_chosen renderer) = set_math_renderer renderer
settings_step catalogs (search_set on) = set_search_enabled on
settings_step catalogs (search_provider_chosen p) = set_search_provider p
settings_step catalogs (search_loaded fallback stored) =
    load_web_search_settings_done fallback stored
settings_step catalogs search_unloaded = load_web_search_settings_failed
settings_step catalogs (search_saved settings) = save_web_search_settings_done settings
settings_step catalogs (language_chosen l) = set_locale catalogs l

unfoldable pub settings_run : List String → App → List SettingsEvent → App
settings_run catalogs a [] = a
settings_run catalogs a (e ∷ es) = settings_run catalogs (settings_step catalogs e a) es

-- A start of the program with a storage.
abbrev pub start : List String → LocalStorage → App
start catalogs s = record {
  settings = initial_settings catalogs s;
  storage = s;
  windows = initial_workspace;
  search_saves = [];
}

-- The settings without what the local storage does not hold or the next start does not read: keys,
-- the open sidebar, the fraction of a pixel in its width, the tab shown, and what the Gateway stores
-- of the search.
abbrev pub lasting : SettingsState → SettingsState
lasting s = record s {
  api_keys = [];
  sidebar_open = true;
  sidebar_width = s.sidebar_width / pixel * pixel;
  settings_tab = providers;
  search_max_results = default_web_search_settings.max_results;
  searxng_search_endpoint = default_web_search_settings.searxng_endpoint;
  openserp_search_settings = default_web_search_settings.openserp_settings;
  exa_search_mode = default_web_search_settings.exa_mode;
  search_settings_loaded = false;
}

-- An event that does not set the model to an empty text, and whose search settings to fall back
-- on have a number of results from 1 to 10.
abbrev pub IsPlain : SettingsEvent → Type 0
IsPlain (provider_chosen provider (some model)) = is_empty model ≡ false
IsPlain (search_loaded fallback stored) = (1 ≤ fallback.max_results) × (fallback.max_results ≤ 10)
IsPlain _ = Unit
