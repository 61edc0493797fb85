-- ===== src/Settings/Meter.antt =====
-- The context meter in settingsStore.ts: its headline metric and the order of its rows.
pub mod Headline
use encore_hub.Settings.Operations.{commit}
use encore_hub.Settings.Preferences.{Preference, is_row, move, set_visible, written}
use encore_hub.Settings.State.{
  App, ContextMeterMetricId, default_context_meter_primary, metric_name, metrics,
}
use encore_hub.Settings.Storage.{LocalStorage, array}
use encore_hub.Shared.{
  Bool, List, Option, find, if◌then◌else◌, map, none, not, some, str_eq, true, ◌&&◌,
}

-- `===` on metric ids
abbrev pub same_metric : ContextMeterMetricId → ContextMeterMetricId → Bool
same_metric i j = str_eq (metric_name i) (metric_name j)

unfoldable pub ensure_context_meter_primary_visible :
    ContextMeterMetricId
    → List (Preference ContextMeterMetricId)
    → List (Preference ContextMeterMetricId)
ensure_context_meter_primary_visible primary =
    map (λ p. if is_row metrics primary p then record p { visible = true } else p)

abbrev pub id_or_default : Option (Preference ContextMeterMetricId) → ContextMeterMetricId
id_or_default none = default_context_meter_primary
id_or_default (some p) = p.id

unfoldable pub next_context_meter_primary :
    ContextMeterMetricId
    → List (Preference ContextMeterMetricId)
    → ContextMeterMetricId
    → ContextMeterMetricId
next_context_meter_primary hidden rows current =
    if not (same_metric hidden current)
    then current
    else id_or_default (find (λ p. not (is_row metrics hidden p) && p.visible) rows)

abbrev pub write_metrics : List (Preference ContextMeterMetricId) → LocalStorage → LocalStorage
write_metrics rows s = record s { context_meter_metrics = some (array (written metrics rows)) }

abbrev pub write_primary : ContextMeterMetricId → LocalStorage → LocalStorage
write_primary id s = record s { context_meter_primary = some (metric_name id) }

-- Headline and rows are set together, and then written one after the other.
abbrev pub commit_meter : ContextMeterMetricId → List (Preference ContextMeterMetricId) → App → App
commit_meter primary rows a =
    commit (record a.settings { context_meter_primary = primary; context_meter_metrics = rows })
      (λ s. write_metrics rows (write_primary primary s)) a

unfoldable pub set_context_meter_primary : ContextMeterMetricId → App → App
set_context_meter_primary id a =
    commit_meter id (ensure_context_meter_primary_visible id a.settings.context_meter_metrics) a

unfoldable pub set_context_meter_metric_visible : ContextMeterMetricId → Bool → App → App
set_context_meter_metric_visible id visible a =
    let rows = set_visible metrics id visible a.settings.context_meter_metrics in
    let current = a.settings.context_meter_primary in
    let primary = if visible then current else next_context_meter_primary id rows current in
    commit_meter primary
      (if same_metric primary current
        then rows
        else ensure_context_meter_primary_visible primary rows)
      a

abbrev pub commit_moved_metric : Option (List (Preference ContextMeterMetricId)) → App → App
commit_moved_metric none a = a
commit_moved_metric (some rows) a =
    commit (record a.settings { context_meter_metrics = rows }) (write_metrics rows) a

unfoldable pub move_context_meter_metric : ContextMeterMetricId → ContextMeterMetricId → App → App
move_context_meter_metric id target a =
    commit_moved_metric (move metrics id target a.settings.context_meter_metrics) a

unfoldable pub reset_context_meter_display : App → App
reset_context_meter_display a = commit_meter default_context_meter_primary metrics.defaults a
