-- ===== src/Settings/Remembered.antt =====
-- What is set in one session is what the next start reads (settingsStore.ts).
use encore_hub.Settings.Kept.{
  commit_menu-IsSession, commit_meter-IsSession, ensure-IsArranged, move_menu-IsSession,
  move_meter-IsSession, set_lights-IsSession, set_logs-IsSession, set_menu-IsSession,
  set_metric-IsSession, set_thinking-IsSession,
}
use encore_hub.Settings.Load.{initial_settings, load_rows, load_sidebar_width}
use encore_hub.Settings.Meter.{reset_context_meter_display, set_context_meter_primary}
use encore_hub.Settings.Names.{menu-IsDistinct, metric-IsDistinct}
use encore_hub.Settings.Operations.{set_global_context_menu_item_visible}
use encore_hub.Settings.Preferences.{Registry, names}
use encore_hub.Settings.Preferences.Normalized.{
  IsArranged, IsDistinct, defaults-IsArranged, normalize-IsArranged, set_visible-IsArranged,
}
use encore_hub.Settings.Runs.{
  IsPlain, SettingsEvent, api_key_cleared, api_key_set, dev_mode_set, headline_chosen,
  language_chosen, lasting, lights_set, logs_set, menu_item_moved, menu_item_shown, menu_set,
  meter_reset, metric_moved, metric_shown, model_chosen, provider_chosen, renderer_chosen,
  search_loaded, search_provider_chosen, search_saved, search_set, search_unloaded, settings_closed,
  settings_opened, settings_run, settings_step, sidebar_dragged, sidebar_switched, sidebar_toggled,
  start, theme_chosen, thinking_set,
}
use encore_hub.Settings.Searched.{
  load_search-IsSession, passing-IsSession, save_search-IsSession, set_locale-IsSession,
  set_search-IsSession, set_search_provider-IsSession,
}
use encore_hub.Settings.Session.{
  IsSession, clamp_bounds, parsed_whole, set_dev_mode-IsSession, set_math_renderer-IsSession,
  set_model-IsSession, set_provider-IsSession, set_sidebar_mode-IsSession,
  set_sidebar_width-IsSession, set_theme-IsSession,
}
use encore_hub.Settings.State.{App, menu_items, metrics, percentage}
use encore_hub.Settings.Storage.{
  LocalStorage, Parsed, Pixels, parse_int, pixel, array, broken, is_text, no_array,
}
use encore_hub.Shared.{
  All, ap, sym, ◌*◌, ◌/◌, List, Option, String, [], arith, none, refl, some, true, ◌&&◌, ◌∷◌, ◌≡◌,
  ◌≤◌,
}

module _ (catalogs : List String) where
  settings_step-IsSession :
      (e : SettingsEvent) (a : App)
      → IsPlain e
      → IsSession catalogs a
      → IsSession catalogs (settings_step catalogs e a)
  unfolding settings_step reset_context_meter_display set_context_meter_primary
      set_global_context_menu_item_visible
  settings_step-IsSession (theme_chosen t) a n h = set_theme-IsSession catalogs t a h
  settings_step-IsSession (provider_chosen p m) a n h = set_provider-IsSession catalogs p m a n h
  settings_step-IsSession (model_chosen m) a n h = set_model-IsSession catalogs m a h
  settings_step-IsSession (api_key_set p k) a n h =
      passing-IsSession catalogs _ _ _ a refl refl h.results h
  settings_step-IsSession (api_key_cleared p) a n h =
      passing-IsSession catalogs _ _ _ a refl refl h.results h
  settings_step-IsSession sidebar_toggled a n h =
      passing-IsSession catalogs _ _ _ a refl refl h.results h
  settings_step-IsSession (sidebar_dragged w) a n h = set_sidebar_width-IsSession catalogs w a h
  settings_step-IsSession (sidebar_switched m) a n h = set_sidebar_mode-IsSession catalogs m a h
  settings_step-IsSession (settings_opened t) a n h =
      passing-IsSession catalogs _ _ _ a refl refl h.results h
  settings_step-IsSession settings_closed a n h =
      passing-IsSession catalogs _ _ _ a refl refl h.results h
  settings_step-IsSession (dev_mode_set on) a n h = set_dev_mode-IsSession catalogs on a h
  settings_step-IsSession (logs_set on) a n h = set_logs-IsSession catalogs on a h
  settings_step-IsSession (lights_set on) a n h = set_lights-IsSession catalogs on a h
  settings_step-IsSession (menu_set on) a n h = set_menu-IsSession catalogs on a h
  settings_step-IsSession (thinking_set on) a n h = set_thinking-IsSession catalogs on a h
  settings_step-IsSession (menu_item_shown i on) a n h =
      commit_menu-IsSession catalogs _ a (set_visible-IsArranged menu_items i on _ h.menu) h
  settings_step-IsSession (menu_item_moved i j) a n h = move_menu-IsSession catalogs i j a h
  settings_step-IsSession (headline_chosen i) a n h =
      commit_meter-IsSession catalogs i _ a (ensure-IsArranged catalogs i _ h.meter) h
  settings_step-IsSession (metric_shown i on) a n h = set_metric-IsSession catalogs i on a h
  settings_step-IsSession (metric_moved i j) a n h = move_meter-IsSession catalogs i j a h
  settings_step-IsSession meter_reset a n h =
      commit_meter-IsSession catalogs percentage metrics.defaults a
        (defaults-IsArranged metrics metric-IsDistinct) h
  settings_step-IsSession (renderer_chosen r) a n h = set_math_renderer-IsSession catalogs r a h
  settings_step-IsSession (search_set on) a n h = set_search-IsSession catalogs on a h
  settings_step-IsSession (search_provider_chosen p) a n h =
      set_search_provider-IsSession catalogs p a h
  settings_step-IsSession (search_loaded fallback answer) a n h =
      load_search-IsSession catalogs fallback answer a n h
  settings_step-IsSession search_unloaded a n h =
      passing-IsSession catalogs _ _ _ a refl refl h.results h
  settings_step-IsSession (search_saved settings) a n h =
      save_search-IsSession catalogs settings a h
  settings_step-IsSession (language_chosen l) a n h = set_locale-IsSession catalogs l a h

  settings_run-IsSession :
      (es : List SettingsEvent) (a : App)
      → All IsPlain es
      → IsSession catalogs a
      → IsSession catalogs (settings_run catalogs a es)
  unfolding settings_run
  settings_run-IsSession [] a n h = h
  settings_run-IsSession (e ∷ es) a n h =
      settings_run-IsSession es (settings_step catalogs e a) n.1 (settings_step-IsSession e a n.0 h)

  load_rows-IsArranged :
      {I : Type 0} (R : Registry I) (raw : Option Parsed)
      → IsDistinct (names R R.defaults)
      → IsArranged R (load_rows R raw)
  load_rows-IsArranged R none d = defaults-IsArranged R d
  load_rows-IsArranged R (some broken) d = defaults-IsArranged R d
  load_rows-IsArranged R (some no_array) d = normalize-IsArranged R none d
  load_rows-IsArranged R (some (array cs)) d = normalize-IsArranged R (some cs) d

  load_width_bounds :
      (raw : Option Pixels)
      → (260 * pixel ≤ load_sidebar_width raw) × (load_sidebar_width raw ≤ 380 * pixel)
  load_width_bounds none = (omega arith, omega arith)
  load_width_bounds (some w) = clamp_bounds (parse_int w)

  load_width_whole :
      (raw : Option Pixels) → load_sidebar_width raw / pixel * pixel ≡ load_sidebar_width raw
  load_width_whole none = omega arith
  load_width_whole (some w) = parsed_whole w

  start-IsSession :
      (s : LocalStorage)
      → s.writable ≡ true
      → is_text "1" s.full_communication_logs
        ≡ (initial_settings catalogs s).full_communication_logs
      → IsSession catalogs (start catalogs s)
  unfolding initial_settings
  start-IsSession s w l = record {
    writable = w;
    stored =
        ap (λ n. record (initial_settings catalogs s) { sidebar_width = n })
          (sym (load_width_whole s.sidebar_width));
    menu = load_rows-IsArranged menu_items s.global_context_menu_items menu-IsDistinct;
    meter = load_rows-IsArranged metrics s.context_meter_metrics metric-IsDistinct;
    logs = l;
    developer = λ e. ground arith;
    width = load_width_bounds s.sidebar_width;
    results = (omega arith, omega arith);
  }

  -- What is set in a session survives it. Let the program start with any storage that accepts
  -- writes, in which the flag for full logs is not set without developer mode, and let the user
  -- change settings in any order, and the Gateway answer about the search, as long as no provider
  -- is chosen with an empty model and the search settings to fall back on have from 1 to 10 results.
  -- Then what the next start reads from the storage are the settings of the end of the session,
  -- field by field, but for the API keys, the open sidebar, the shown tab and those settings of the
  -- search that the Gateway stores, which start afresh, and but for the fraction of a pixel in the
  -- width of the sidebar, which is dropped.
  pub settings_run-remembered :
      (es : List SettingsEvent) (s : LocalStorage)
      → s.writable ≡ true
      → is_text "1" s.full_communication_logs
        ≡ (initial_settings catalogs s).full_communication_logs
      → All IsPlain es
      → initial_settings catalogs (settings_run catalogs (start catalogs s) es).storage
        ≡ lasting (settings_run catalogs (start catalogs s) es).settings
  settings_run-remembered es s w l n =
      (settings_run-IsSession es (start catalogs s) n (start-IsSession s w l)).stored

  -- What holds of the settings after any session, whatever the storage held at the start, if it
  -- accepts writes, had no flag for full logs without developer mode, no provider is chosen with an
  -- empty model and the search settings to fall back on have from 1 to 10 results: each item of the
  -- context menu and each metric of the context meter stands in its list exactly once, full logs are
  -- on in developer mode only, the sidebar is at least 260 and at most 380 pixels wide, and the
  -- search asks for at least 1 and at most 10 results.
  pub settings_run-bounds :
      (es : List SettingsEvent) (s : LocalStorage)
      → s.writable ≡ true
      → is_text "1" s.full_communication_logs
        ≡ (initial_settings catalogs s).full_communication_logs
      → All IsPlain es
      → IsArranged menu_items
          (settings_run catalogs (start catalogs s) es).settings.global_context_menu_items
        × IsArranged metrics
            (settings_run catalogs (start catalogs s) es).settings.context_meter_metrics
        × (((settings_run catalogs (start catalogs s) es).settings.full_communication_logs
              && (settings_run catalogs (start catalogs s) es).settings.dev_mode)
            ≡ (settings_run catalogs (start catalogs s) es).settings.full_communication_logs)
        × (260 * pixel ≤ (settings_run catalogs (start catalogs s) es).settings.sidebar_width)
        × ((settings_run catalogs (start catalogs s) es).settings.sidebar_width ≤ 380 * pixel)
        × (1 ≤ (settings_run catalogs (start catalogs s) es).settings.search_max_results)
        × ((settings_run catalogs (start catalogs s) es).settings.search_max_results ≤ 10)
  settings_run-bounds es s w l n =
      let h = settings_run-IsSession es (start catalogs s) n (start-IsSession s w l) in
      (h.menu, h.meter, ground (arith, h.developer), h.width.0, h.width.1, h.results.0, h.results.1)
