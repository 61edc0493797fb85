-- ===== src/Settings/Kept.antt =====
-- Flags and lists of rows keep a session sound (settingsStore.ts).
use encore_hub.Settings.Load.{initial_settings, load_context_meter_primary, load_rows}
use encore_hub.Settings.Meter.{
  commit_meter, commit_moved_metric, ensure_context_meter_primary_visible,
  move_context_meter_metric, next_context_meter_primary, same_metric,
  set_context_meter_metric_visible, write_metrics,
}
use encore_hub.Settings.Names.{
  menu_known, menu_name_inj, metric_id-name, metric_known, metric_name_inj,
}
use encore_hub.Settings.Operations.{
  commit, commit_menu, commit_moved_item, move_global_context_menu_item, set_deep_thinking,
  set_full_communication_logs, set_global_context_menu_enabled, set_traffic_light_window_controls,
}
use encore_hub.Settings.Preferences.{Preference, Registry, set_visible, written}
use encore_hub.Settings.Preferences.Moved.{move-IsArranged}
use encore_hub.Settings.Preferences.Normalized.{IsArranged, set_visible-IsArranged}
use encore_hub.Settings.Preferences.Reload.{normalize-written}
use encore_hub.Settings.Runs.{lasting}
use encore_hub.Settings.Session.{IsSession, commit-IsSession}
use encore_hub.Settings.State.{
  App, ContextMeterMetricId, GlobalContextMenuItemId, SettingsState, menu_items, metric_name,
  metrics, percentage,
}
use encore_hub.Settings.Storage.{array, flag, is_text}
use encore_hub.Shared.{
  Bool, Bool-cases, List, Option, String, ap, arith, false, if◌then◌else◌, inl, inr, none, or_else,
  refl, some, true, ◌&&◌, ◌∙◌, ◌≡◌,
}

pub flag-text : (b : Bool) → is_text "1" (some (flag b)) ≡ b
flag-text true = refl
flag-text false = refl

-- A flag that is read as `=== "1"`.
pub set_flag-stored :
    (b : Bool) (s : SettingsState) (f : Bool → SettingsState → SettingsState) {u : SettingsState}
    → u ≡ lasting s
    → f (is_text "1" (some (flag b))) u ≡ f b (lasting s)
set_flag-stored b s f e = ap (λ c. f c _) (flag-text b) ∙ ap (f b) e

module _ (catalogs : List String) where
  pub set_lights-IsSession :
      (on : Bool) (a : App)
      → IsSession catalogs a
      → IsSession catalogs (set_traffic_light_window_controls on a)
  unfolding initial_settings
  set_lights-IsSession on a h =
      commit-IsSession catalogs _ _ a h refl
        (set_flag-stored on a.settings (λ b s. record s { traffic_light_window_controls = b })
          h.stored)
        h.menu h.meter h.logs h.developer h.width h.results

  pub set_thinking-IsSession :
      (on : Bool) (a : App) → IsSession catalogs a → IsSession catalogs (set_deep_thinking on a)
  unfolding initial_settings
  set_thinking-IsSession on a h =
      commit-IsSession catalogs _ _ a h refl
        (set_flag-stored on a.settings (λ b s. record s { deep_thinking = b }) h.stored) h.menu
        h.meter h.logs h.developer h.width h.results

  pub set_menu-IsSession :
      (on : Bool) (a : App)
      → IsSession catalogs a
      → IsSession catalogs (set_global_context_menu_enabled on a)
  unfolding initial_settings
  set_menu-IsSession true a h =
      commit-IsSession catalogs _ _ a h refl
        (ap (λ (s : SettingsState). record s { global_context_menu_enabled = true }) h.stored)
        h.menu h.meter h.logs h.developer h.width h.results
  set_menu-IsSession false a h =
      commit-IsSession catalogs _ _ a h refl
        (ap (λ (s : SettingsState). record s { global_context_menu_enabled = false }) h.stored)
        h.menu h.meter h.logs h.developer h.width h.results

  pub set_logs-IsSession :
      (on : Bool) (a : App)
      → IsSession catalogs a
      → IsSession catalogs (set_full_communication_logs on a)
  unfolding initial_settings set_full_communication_logs
  set_logs-IsSession on a h =
      let enabled = on && a.settings.dev_mode in
      let dev : is_text "1" a.storage.dev_mode ≡ a.settings.dev_mode =
        ap (λ (s : SettingsState). s.dev_mode) h.stored in
      commit-IsSession catalogs _ _ a h refl
        (ap (λ b. record (initial_settings catalogs a.storage) { full_communication_logs = b })
            (ap (λ b. is_text "1" a.storage.dev_mode && b) (flag-text enabled)
              ∙ rw dev (ground arith))
          ∙ ap (λ (s : SettingsState). record s { full_communication_logs = enabled }) h.stored)
        h.menu h.meter (flag-text enabled) (λ e. ground arith) h.width h.results

  pub load_rows-written :
      {I : Type 0} (R : Registry I)
      → ((i j : I) → R.name i ≡ R.name j → i ≡ j)
      → (rows : List (Preference I)) → IsArranged R rows
      → load_rows R (some (array (written R rows))) ≡ rows
  load_rows-written R inj rows h = normalize-written R inj rows h

  pub commit_menu-IsSession :
      (rows : List (Preference GlobalContextMenuItemId)) (a : App)
      → IsArranged menu_items rows
      → IsSession catalogs a
      → IsSession catalogs (commit_menu rows a)
  unfolding initial_settings
  commit_menu-IsSession rows a r h =
      commit-IsSession catalogs _ _ a h refl
        (ap
            (λ (s : SettingsState). record s {
              global_context_menu_items =
                  load_rows menu_items (some (array (written menu_items rows)));
            })
            h.stored
          ∙ ap (λ x. lasting (record a.settings { global_context_menu_items = x }))
              (load_rows-written menu_items menu_name_inj rows r))
        r h.meter h.logs h.developer h.width h.results

  pub commit_meter-IsSession :
      (primary : ContextMeterMetricId) (rows : List (Preference ContextMeterMetricId)) (a : App)
      → IsArranged metrics rows
      → IsSession catalogs a
      → IsSession catalogs (commit_meter primary rows a)
  unfolding initial_settings
  commit_meter-IsSession primary rows a r h =
      commit-IsSession catalogs _ _ a h refl
        (ap
            (λ (s : SettingsState). record s {
              context_meter_primary = load_context_meter_primary (some (metric_name primary));
              context_meter_metrics = load_rows metrics (some (array (written metrics rows)));
            })
            h.stored
          ∙ ap
              (λ x. lasting (record a.settings {
                context_meter_primary = x;
                context_meter_metrics = load_rows metrics (some (array (written metrics rows)));
              }))
              (ap (λ o. or_else o percentage) (metric_id-name primary))
          ∙ ap
              (λ x.
                lasting (record a.settings {
                  context_meter_primary = primary;
                  context_meter_metrics = x;
                }))
              (load_rows-written metrics metric_name_inj rows r))
        h.menu r h.logs h.developer h.width h.results

  pub commit_rows-IsSession :
      (rows : List (Preference ContextMeterMetricId)) (a : App)
      → IsArranged metrics rows
      → IsSession catalogs a
      → IsSession catalogs
          (commit (record a.settings { context_meter_metrics = rows }) (write_metrics rows) a)
  unfolding initial_settings
  commit_rows-IsSession rows a r h =
      commit-IsSession catalogs _ _ a h refl
        (ap
            (λ (s : SettingsState). record s {
              context_meter_metrics = load_rows metrics (some (array (written metrics rows)));
            })
            h.stored
          ∙ ap (λ x. lasting (record a.settings { context_meter_metrics = x }))
              (load_rows-written metrics metric_name_inj rows r))
        h.menu r h.logs h.developer h.width h.results

  pub ensure-IsArranged :
      (id : ContextMeterMetricId) (rows : List (Preference ContextMeterMetricId))
      → IsArranged metrics rows
      → IsArranged metrics (ensure_context_meter_primary_visible id rows)
  unfolding ensure_context_meter_primary_visible
  ensure-IsArranged id rows h = set_visible-IsArranged metrics id true rows h

  pub set_metric-IsSession :
      (id : ContextMeterMetricId) (on : Bool) (a : App)
      → IsSession catalogs a
      → IsSession catalogs (set_context_meter_metric_visible id on a)
  unfolding set_context_meter_metric_visible
  set_metric-IsSession id on a h =
      let rows = set_visible metrics id on a.settings.context_meter_metrics in
      let arranged =
        set_visible-IsArranged metrics id on a.settings.context_meter_metrics h.meter in
      let current = a.settings.context_meter_primary in
      let primary = if on then current else next_context_meter_primary id rows current in
      commit_meter-IsSession primary _ a
        (elim (Bool-cases (same_metric primary current)) [
          | inl y ↦ rw y arranged
          | inr n ↦ rw n (ensure-IsArranged primary rows arranged)
        ])
        h

  pub moved_item-IsSession :
      (o : Option (List (Preference GlobalContextMenuItemId))) (a : App)
      → IsArranged menu_items (or_else o a.settings.global_context_menu_items)
      → IsSession catalogs a
      → IsSession catalogs (commit_moved_item o a)
  moved_item-IsSession none a r h = h
  moved_item-IsSession (some rows) a r h = commit_menu-IsSession rows a r h

  pub moved_metric-IsSession :
      (o : Option (List (Preference ContextMeterMetricId))) (a : App)
      → IsArranged metrics (or_else o a.settings.context_meter_metrics)
      → IsSession catalogs a
      → IsSession catalogs (commit_moved_metric o a)
  moved_metric-IsSession none a r h = h
  moved_metric-IsSession (some rows) a r h = commit_rows-IsSession rows a r h

  pub move_menu-IsSession :
      (i target : GlobalContextMenuItemId) (a : App)
      → IsSession catalogs a
      → IsSession catalogs (move_global_context_menu_item i target a)
  unfolding move_global_context_menu_item
  move_menu-IsSession i target a h =
      moved_item-IsSession _ a
        (move-IsArranged menu_items i target _ h.menu (menu_known i) (menu_known target)) h

  pub move_meter-IsSession :
      (i target : ContextMeterMetricId) (a : App)
      → IsSession catalogs a
      → IsSession catalogs (move_context_meter_metric i target a)
  unfolding move_context_meter_metric
  move_meter-IsSession i target a h =
      moved_metric-IsSession _ a
        (move-IsArranged metrics i target _ h.meter (metric_known i) (metric_known target)) h
