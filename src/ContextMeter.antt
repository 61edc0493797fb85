-- ===== src/ContextMeter.antt =====
-- frontend/src/components/chat/contextMeterDisplay.ts: which metric of the context meter is the
-- headline, and the lines below it. A percentage is an exact fraction of a percent. The locale's
-- number formats and its translations are arguments.
pub mod Headline
mod Tests
use Prim.Native.String.{◌++◌ as str_append}
use encore_hub.Settings.Meter.{same_metric}
use encore_hub.Settings.Preferences.{Preference}
use encore_hub.Settings.State.{ContextMeterMetricId, percentage, remaining, used, used_of_limit}
use encore_hub.Shared.{
  Bool, List, Option, String, [], if◌then◌else◌, is_some, ltb, none, not, or_else, or_option, some,
  true, ℕ, ◌&&◌, ◌*◌, ◌+◌, ◌/◌, ◌==◌, ◌||◌, ◌∷◌,
}

pub record ContextMeterValues : Type 0 where
  pub used_tokens : ℕ
  pub limit : Option ℕ
  pub share : Option (ℕ × ℕ)
  pub free : Option ℕ

-- Intl.NumberFormat without and with two fraction digits, the digits of a number, and `t`.
pub record Locale : Type 0 where
  pub format_whole : ℕ → String
  pub format_fraction : ℕ → ℕ → String
  pub digits : ℕ → String
  pub translate : String → List (String × String) → String

pub record ContextMeterLine : Type 0 where
  pub id : ContextMeterMetricId
  pub text : String
  pub title : Option String

pub data Variant : Type 0 where
  primary secondary : Variant

abbrev pub context_meter_metric_available : ContextMeterMetricId → ContextMeterValues → Bool
context_meter_metric_available used v = true
context_meter_metric_available _ v = is_some v.limit && is_some v.share && is_some v.free

abbrev pub find_available :
    ContextMeterValues → List (Preference ContextMeterMetricId) → ContextMeterMetricId
find_available v [] = used
find_available v (metric ∷ rest) =
    let later = find_available v rest in
    if metric.visible && context_meter_metric_available metric.id v then metric.id else later

unfoldable pub resolve_context_meter_primary :
    ContextMeterValues
    → ContextMeterMetricId
    → List (Preference ContextMeterMetricId)
    → ContextMeterMetricId
resolve_context_meter_primary v preferred rows =
    if context_meter_metric_available preferred v then preferred else find_available v rows

-- `if (line) secondary.push(line)`, before the later lines
abbrev pub push_line : Option ContextMeterLine → List ContextMeterLine → List ContextMeterLine
push_line none lines = lines
push_line (some line) lines = line ∷ lines

module _ (L : Locale) where
  -- The fraction is n / d of a percent, 0 < d.
  abbrev pub format_context_percentage : ℕ → ℕ → String
  format_context_percentage n d =
      if n == 0
      then "0%"
      else if ltb (n * 100) d
      then "<0.01%"
      else if ltb n d
      then str_append (L.format_fraction n d) "%"
      else str_append (L.digits ((2 * n + d) / (2 * d))) "%"

  -- The counts that the lines of one meter share, and the tooltip with both of them.
  abbrev pub used_of_limit_title : ContextMeterValues → Option String
  used_of_limit_title v = elim v.limit [
    | none ↦ none
    | some limit ↦ some (
        L.translate "context.meter.usedOfLimitTitle"
          (("used", L.format_whole v.used_tokens) ∷ ("limit", L.format_whole limit) ∷ []))
  ]

  abbrev pub percentage_text : Variant → ContextMeterValues → String
  percentage_text variant v =
      let (n, d) = or_else v.share (0, 1) in
      let value = format_context_percentage n d in
      elim variant [
        | primary ↦ value
        | secondary ↦ L.translate "context.meter.percentageOfWindow" (("value", value) ∷ [])
      ]

  abbrev pub remaining_text : Variant → ContextMeterValues → String
  remaining_text variant v =
      let count : List (String × String) = ("count", L.format_whole (or_else v.free 0)) ∷ [] in
      elim variant [
        | primary ↦ L.translate "context.meter.remainingPrimary" count
        | secondary ↦ L.translate "context.meter.remainingSecondary" count
      ]

  abbrev pub used_of_limit_text : Variant → ContextMeterValues → String
  used_of_limit_text variant v =
      let counts : List (String × String) =
        ("used", L.format_whole v.used_tokens)
        ∷ ("limit", L.format_whole (or_else v.limit 0))
        ∷ [] in
      elim variant [
        | primary ↦ L.translate "context.meter.usedOfLimitPrimary" counts
        | secondary ↦ L.translate "context.meter.usedOfLimitSecondary" counts
      ]

  abbrev pub used_text : Variant → ContextMeterValues → String
  used_text variant v =
      let used_count = L.format_whole v.used_tokens in
      let count : List (String × String) = ("count", used_count) ∷ [] in
      elim variant [
        | primary ↦
            if is_some v.limit then L.translate "context.meter.usedPrimary" count else used_count
        | secondary ↦
            if is_some v.limit
            then L.translate "context.meter.usedSecondary" count
            else L.translate "context.meter.usedEstimated" count
      ]

  abbrev pub line_of : ContextMeterMetricId → ContextMeterValues → Variant → ContextMeterLine
  line_of percentage v variant = record {
    id = percentage;
    text = percentage_text variant v;
    title = used_of_limit_title v;
  }
  line_of remaining v variant = record {
    id = remaining;
    text = remaining_text variant v;
    title = used_of_limit_title v;
  }
  line_of used_of_limit v variant = record {
    id = used_of_limit;
    text = used_of_limit_text variant v;
    title = none;
  }
  line_of used v variant = record { id = used; text = used_text variant v; title = none }

  abbrev pub format_context_meter_line :
      ContextMeterMetricId → ContextMeterValues → Variant → Option ContextMeterLine
  format_context_meter_line id v variant =
      if context_meter_metric_available id v then some (line_of id v variant) else none

  abbrev pub secondary_lines :
      ContextMeterValues
      → ContextMeterMetricId
      → List (Preference ContextMeterMetricId)
      → List ContextMeterLine
  secondary_lines v resolved [] = []
  secondary_lines v resolved (metric ∷ rest) =
      let later = secondary_lines v resolved rest in
      if not metric.visible || same_metric metric.id resolved
      then later
      else push_line (format_context_meter_line metric.id v secondary) later

  abbrev pub display_from :
      Option ContextMeterLine
      → ContextMeterValues
      → ContextMeterMetricId
      → List (Preference ContextMeterMetricId)
      → ContextMeterLine × List ContextMeterLine
  display_from none v resolved rows =
      (record { id = used; text = L.format_whole v.used_tokens; title = none }, [])
  display_from (some line) v resolved rows = (line, secondary_lines v resolved rows)

  unfoldable pub resolve_context_meter_display :
      ContextMeterValues
      → ContextMeterMetricId
      → List (Preference ContextMeterMetricId)
      → ContextMeterLine × List ContextMeterLine
  resolve_context_meter_display v preferred rows =
      let resolved = resolve_context_meter_primary v preferred rows in
      display_from
        (or_option (format_context_meter_line resolved v primary)
          (format_context_meter_line used v primary))
        v resolved rows
