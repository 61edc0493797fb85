-- ===== src/Settings/Load.antt =====
-- What settingsStore.ts reads from the storage when the program starts.
use encore_hub.Settings.Preferences.{Preference, Registry, normalize}
use encore_hub.Settings.Search.{
  SearchProvider, default_web_search_settings, duckduckgo, exa, normalize_locale_preference,
  openserp, searxng,
}
use encore_hub.Settings.State.{
  ContextMeterMetricId, MathRenderer, SettingsState, SidebarMode, characters, conversations,
  default_context_meter_primary, katex, mathjax, menu_items, metric_name, metrics, off, providers,
}
use encore_hub.Settings.Storage.{
  LocalStorage, Parsed, Pixels, array, broken, is_text, nan, negative, no_array, parse_int, pixel,
  pixels,
}
use encore_hub.Shared.{
  List, Option, String, [], false, find, if◌then◌else◌, map, max, min, none, not, or_else, some,
  str_eq, true, ℕ, ◌&&◌, ◌*◌,
}

abbrev pub sidebar_min_width : ℕ
sidebar_min_width = 260 * pixel

abbrev pub sidebar_max_width : ℕ
sidebar_max_width = 380 * pixel

abbrev pub sidebar_default_width : ℕ
sidebar_default_width = 300 * pixel

unfoldable pub clamp_sidebar_width : Pixels → ℕ
clamp_sidebar_width nan = sidebar_default_width
clamp_sidebar_width (negative n) = min sidebar_max_width (max sidebar_min_width 0)
clamp_sidebar_width (pixels n) = min sidebar_max_width (max sidebar_min_width n)

abbrev pub load_sidebar_width : Option Pixels → ℕ
load_sidebar_width none = sidebar_default_width
load_sidebar_width (some raw) = clamp_sidebar_width (parse_int raw)

abbrev pub load_sidebar_mode : Option String → SidebarMode
load_sidebar_mode raw = if is_text "characters" raw then characters else conversations

abbrev pub load_math_renderer : Option String → MathRenderer
load_math_renderer raw =
    if is_text "off" raw then off else if is_text "mathjax" raw then mathjax else katex

-- `value === "searxng" || value === "openserp" || value === "exa" ? value : "duckduckgo"`
abbrev pub load_search_provider : Option String → SearchProvider
load_search_provider raw =
    if is_text "searxng" raw
    then searxng
    else if is_text "openserp" raw
    then openserp
    else if is_text "exa" raw
    then exa
    else duckduckgo

-- `raw ? normalize(JSON.parse(raw)) : default` under a try that returns the default
abbrev pub load_rows : {I : Type 0} → Registry I → Option Parsed → List (Preference I)
load_rows R none = R.defaults
load_rows R (some broken) = R.defaults
load_rows R (some no_array) = normalize R none
load_rows R (some (array candidates)) = normalize R (some candidates)

abbrev pub context_meter_metric_ids : List ContextMeterMetricId
context_meter_metric_ids = map (λ p. p.id) metrics.defaults

-- A text that names a metric of this build; none for any other text.
abbrev pub context_meter_metric_id : String → Option ContextMeterMetricId
context_meter_metric_id raw = find (λ i. str_eq (metric_name i) raw) context_meter_metric_ids

abbrev pub load_context_meter_primary : Option String → ContextMeterMetricId
load_context_meter_primary none = default_context_meter_primary
load_context_meter_primary (some raw) =
    or_else (context_meter_metric_id raw) default_context_meter_primary

-- The languages are the catalogs that the program registers before.
unfoldable pub initial_settings : List String → LocalStorage → SettingsState
initial_settings catalogs s = record {
  theme = or_else s.theme "dark";
  provider = or_else s.provider "";
  model = or_else s.model "";
  api_keys = [];
  sidebar_open = true;
  sidebar_width = load_sidebar_width s.sidebar_width;
  sidebar_mode = load_sidebar_mode s.sidebar_mode;
  settings_tab = providers;
  dev_mode = is_text "1" s.dev_mode;
  full_communication_logs = is_text "1" s.dev_mode && is_text "1" s.full_communication_logs;
  traffic_light_window_controls = is_text "1" s.traffic_light_window_controls;
  global_context_menu_enabled = not (is_text "0" s.global_context_menu_enabled);
  global_context_menu_items = load_rows menu_items s.global_context_menu_items;
  context_meter_primary = load_context_meter_primary s.context_meter_primary;
  context_meter_metrics = load_rows metrics s.context_meter_metrics;
  search_enabled = is_text "1" s.search_enabled;
  search_provider = load_search_provider s.search_provider;
  search_max_results = default_web_search_settings.max_results;
  searxng_search_endpoint = default_web_search_settings.searxng_endpoint;
  openserp_search_settings = default_web_search_settings.openserp_settings;
  exa_search_mode = default_web_search_settings.exa_mode;
  search_settings_loaded = false;
  deep_thinking = is_text "1" s.deep_thinking;
  math_renderer = load_math_renderer s.math_renderer;
  locale = normalize_locale_preference catalogs s.locale;
}
