-- ===== src/ContextMeter/Tests.antt =====
-- Runs of the context meter.
use encore_hub.ContextMeter.{
  ContextMeterValues, Locale, context_meter_metric_available, line_of, primary,
  resolve_context_meter_display, resolve_context_meter_primary,
}
use encore_hub.ContextMeter.Headline.{display-headline, line_ids, rows_below}
use encore_hub.Settings.State.{metrics, remaining}
use encore_hub.Shared.{map, some, true, ◌≡◌}

abbrev plain : Locale
plain = record {
  format_whole = λ n. "n";
  format_fraction = λ n d. "f";
  digits = λ n. "d";
  translate = λ key values. key;
}

abbrev quarter_full : ContextMeterValues
quarter_full = record { used_tokens = 100; limit = some 400; share = some (25, 1); free = some 300 }

display-headline_example :
    (context_meter_metric_available
        (resolve_context_meter_primary quarter_full remaining metrics.defaults)
        quarter_full
      ≡ true)
    × ((resolve_context_meter_display plain quarter_full remaining metrics.defaults).0
        ≡ line_of plain
            (resolve_context_meter_primary quarter_full remaining metrics.defaults)
            quarter_full
            primary)
    × (line_ids (resolve_context_meter_display plain quarter_full remaining metrics.defaults).1
        ≡ map
            (λ row. row.id)
            (rows_below quarter_full
              (resolve_context_meter_primary quarter_full remaining metrics.defaults)
              metrics.defaults))
display-headline_example = display-headline plain quarter_full remaining metrics.defaults
