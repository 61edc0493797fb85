-- ===== src/ContextMeter/Headline.antt =====
-- The headline of the context meter is never empty, and no line is shown twice
-- (contextMeterDisplay.ts).
use encore_hub.ContextMeter.{
  ContextMeterLine, ContextMeterValues, Locale, Variant, context_meter_metric_available,
  display_from, find_available, format_context_meter_line, line_of, primary,
  resolve_context_meter_display, resolve_context_meter_primary, secondary, secondary_lines,
}
use encore_hub.Settings.Meter.{same_metric}
use encore_hub.Settings.Preferences.{Preference}
use encore_hub.Settings.State.{ContextMeterMetricId, percentage, remaining, used, used_of_limit}
use encore_hub.Shared.{
  Bool-cases, List, [], ap, arith, inl, inr, keep, map, not, or_option, refl, some, true, ◌&&◌, ◌∙◌,
  ◌∷◌, ◌≡◌,
}

abbrev pub line_ids : List ContextMeterLine → List ContextMeterMetricId
line_ids = map (λ line. line.id)

-- The rows that stand below the headline.
abbrev pub rows_below :
    ContextMeterValues
    → ContextMeterMetricId
    → List (Preference ContextMeterMetricId)
    → List (Preference ContextMeterMetricId)
rows_below v headline = keep (λ row.
    row.visible && not (same_metric row.id headline) && context_meter_metric_available row.id v)

find_available-available :
    (v : ContextMeterValues) (rows : List (Preference ContextMeterMetricId))
    → context_meter_metric_available (find_available v rows) v ≡ true
find_available-available v [] = refl
find_available-available v (r ∷ rows) = ground (arith, find_available-available v rows)

line_of-id :
    (L : Locale) (i : ContextMeterMetricId) (v : ContextMeterValues) (x : Variant)
    → (line_of L i v x).id ≡ i
line_of-id L percentage v x = refl
line_of-id L remaining v x = refl
line_of-id L used_of_limit v x = refl
line_of-id L used v x = refl

secondary-ids :
    (L : Locale) (v : ContextMeterValues) (i : ContextMeterMetricId)
    (rows : List (Preference ContextMeterMetricId))
    → line_ids (secondary_lines L v i rows) ≡ map (λ row. row.id) (rows_below v i rows)
secondary-ids L v i [] = refl
secondary-ids L v i (r ∷ rows) =
    ground (arith, secondary-ids L v i rows, line_of-id L r.id v secondary)

primary-available :
    (v : ContextMeterValues) (i : ContextMeterMetricId)
    (rows : List (Preference ContextMeterMetricId))
    → context_meter_metric_available (resolve_context_meter_primary v i rows) v ≡ true
unfolding resolve_context_meter_primary
primary-available v i rows = elim (Bool-cases (context_meter_metric_available i v)) [
  | inl y ↦ rw (y, y) refl
  | inr n ↦ rw n (find_available-available v rows)
]

format-available :
    (L : Locale) (i : ContextMeterMetricId) (v : ContextMeterValues)
    → context_meter_metric_available i v ≡ true
    → or_option
        (format_context_meter_line L i v primary)
        (format_context_meter_line L used v primary)
      ≡ some (line_of L i v primary)
format-available L i v h = rw h refl

-- What the meter shows for any occupancy, preferred headline and rows. The headline is a metric
-- whose figures are known, so it is never empty; its line is the one of that metric; and the lines
-- below are those of the visible rows whose figures are known, in their order, without the row of
-- the headline.
pub display-headline :
    (L : Locale) (v : ContextMeterValues) (preferred : ContextMeterMetricId)
    (rows : List (Preference ContextMeterMetricId))
    → (context_meter_metric_available (resolve_context_meter_primary v preferred rows) v ≡ true)
      × ((resolve_context_meter_display L v preferred rows).0
          ≡ line_of L (resolve_context_meter_primary v preferred rows) v primary)
      × (line_ids (resolve_context_meter_display L v preferred rows).1
          ≡ map
              (λ row. row.id)
              (rows_below v (resolve_context_meter_primary v preferred rows) rows))
unfolding resolve_context_meter_display
display-headline L v preferred rows =
    let resolved = resolve_context_meter_primary v preferred rows in
    let known = primary-available v preferred rows in
    let e = format-available L resolved v known in
    (
      known,
      ap (λ o. (display_from L o v resolved rows).0) e,
      ap (λ o. line_ids (display_from L o v resolved rows).1) e ∙ secondary-ids L v resolved rows,
    )
