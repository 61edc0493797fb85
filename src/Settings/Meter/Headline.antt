-- ===== src/Settings/Meter/Headline.antt =====
-- Hiding rows of the context meter and its headline metric (settingsStore.ts).
use encore_hub.Settings.Meter.{
  ensure_context_meter_primary_visible, id_or_default, next_context_meter_primary, same_metric,
  set_context_meter_metric_visible,
}
use encore_hub.Settings.Names.{metric_name_inj}
use encore_hub.Settings.Preferences.{Preference, is_row, names, row_name, set_visible}
use encore_hub.Settings.Preferences.Normalized.{IsArranged, set_visible-IsArranged}
use encore_hub.Settings.State.{App, ContextMeterMetricId, metric_name, metrics, percentage}
use encore_hub.Shared.{
  Bool, Bool-cases, List, Option, [], any, arith, eq_iff, eq_refl, false, find, if◌then◌else◌, inl,
  inr, mem, none, not, refl, some, true, ◌&&◌, ◌∷◌, ◌≡◌, ◌⊎◌,
}

-- The row of a metric is in the list and visible.
abbrev pub is_shown : ContextMeterMetricId → List (Preference ContextMeterMetricId) → Bool
is_shown id rows = any (λ p. is_row metrics id p && p.visible) rows

abbrev pub is_any_shown : List (Preference ContextMeterMetricId) → Bool
is_any_shown rows = any (λ p. p.visible) rows

is_shown-show :
    (p i : ContextMeterMetricId) (rows : List (Preference ContextMeterMetricId))
    → is_shown p rows ≡ true
    → is_shown p (set_visible metrics i true rows) ≡ true
is_shown-show p i [] h = h
is_shown-show p i (r ∷ rows) h = ground (arith, is_shown-show p i rows)

is_shown-hide_other :
    (p i : ContextMeterMetricId) (rows : List (Preference ContextMeterMetricId))
    → same_metric i p ≡ false
    → is_shown p rows ≡ true
    → is_shown p (set_visible metrics i false rows) ≡ true
is_shown-hide_other p i [] n h = h
is_shown-hide_other p i (r ∷ rows) n h = ground (
  arith,
  is_shown-hide_other p i rows n,
  eq_iff (row_name metrics r) (metric_name i),
  eq_iff (row_name metrics r) (metric_name p),
  eq_iff (metric_name i) (metric_name p),
)

-- A metric that has a row is shown once it is made visible.
is_shown-ensure :
    (p : ContextMeterMetricId) (rows : List (Preference ContextMeterMetricId))
    → mem (metric_name p) (names metrics rows) ≡ true
    → is_shown p (ensure_context_meter_primary_visible p rows) ≡ true
unfolding ensure_context_meter_primary_visible
is_shown-ensure p [] h = h
is_shown-ensure p (r ∷ rows) h = ground (arith, is_shown-ensure p rows)

-- The fallback is another row, and in the list.
find-fallback :
    (i : ContextMeterMetricId) (rows : List (Preference ContextMeterMetricId))
    (q : Preference ContextMeterMetricId)
    → find (λ p. not (is_row metrics i p) && p.visible) rows ≡ some q
    → (same_metric q.id i ≡ false) × (mem (metric_name q.id) (names metrics rows) ≡ true)
find-fallback i [] q e = cc
find-fallback i (r ∷ rows) q e = elim (Bool-cases (not (is_row metrics i r) && r.visible)) [
  | inl y ↦ ground (arith, eq_refl (metric_name q.id))
  | inr n ↦ ground (arith, find-fallback i rows q)
]

-- Without a fallback nothing is visible once the metric itself is hidden.
none_shown :
    (i : ContextMeterMetricId) (rows : List (Preference ContextMeterMetricId))
    → find (λ p. not (is_row metrics i p) && p.visible) (set_visible metrics i false rows) ≡ none
    → is_any_shown (set_visible metrics i false rows) ≡ false
none_shown i [] e = refl
none_shown i (r ∷ rows) e = elim (Bool-cases (is_row metrics i r)) [
  | inl y ↦ ground (arith, none_shown i rows)
  | inr n ↦ ground (arith, none_shown i rows)
]

-- Where the headline stays, the rows are kept as they are.
settled_same :
    (p : ContextMeterMetricId) (rows : List (Preference ContextMeterMetricId))
    → (if same_metric p p then rows else ensure_context_meter_primary_visible p rows) ≡ rows
settled_same p rows = rw (eq_refl (metric_name p)) refl

-- The rows after the headline `i` was hidden and the fallback search had the result `o`.
hide_headline :
    (i : ContextMeterMetricId) (rows : List (Preference ContextMeterMetricId))
    (o : Option (Preference ContextMeterMetricId))
    → IsArranged metrics rows
    → find (λ p. not (is_row metrics i p) && p.visible) (set_visible metrics i false rows) ≡ o
    → (is_shown (id_or_default o) (
          if same_metric (id_or_default o) i
          then set_visible metrics i false rows
          else ensure_context_meter_primary_visible
              (id_or_default o)
              (set_visible metrics i false rows))
        ≡ true)
      ⊎ ((same_metric i percentage ≡ true)
          × (id_or_default o ≡ percentage)
          × (is_any_shown (
                if same_metric (id_or_default o) i
                then set_visible metrics i false rows
                else ensure_context_meter_primary_visible
                    (id_or_default o)
                    (set_visible metrics i false rows))
              ≡ false))
hide_headline i rows (some q) h e =
    let (n, m) = find-fallback i (set_visible metrics i false rows) q e in
    inl (rw n (is_shown-ensure q.id (set_visible metrics i false rows) m))
hide_headline i rows none h e = elim (Bool-cases (same_metric percentage i)) [
  | inl y ↦ inr (
    ground (arith, eq_iff "percentage" (metric_name i), eq_refl "percentage"),
    refl,
    rw y (none_shown i rows e),
  )
  | inr n ↦ inl (
      rw n (
        is_shown-ensure percentage (set_visible metrics i false rows)
          ((set_visible-IsArranged metrics i false rows h).complete "percentage")))
]

next_self :
    (i : ContextMeterMetricId) (rows : List (Preference ContextMeterMetricId))
    → next_context_meter_primary i rows i
      ≡ id_or_default (find (λ p. not (is_row metrics i p) && p.visible) rows)
unfolding next_context_meter_primary
next_self i rows = rw (eq_refl (metric_name i)) refl

-- Showing or hiding a row of the context meter, where each metric has a row and the headline
-- metric is visible before: the headline metric is visible afterwards, or the row that was hidden
-- is the percentage, which is the headline and stays it, and no row at all is visible any more.
pub set_metric_visible-headline :
    (id : ContextMeterMetricId) (on : Bool) (a : App)
    → IsArranged metrics a.settings.context_meter_metrics
    → is_shown a.settings.context_meter_primary a.settings.context_meter_metrics ≡ true
    → (is_shown
          (set_context_meter_metric_visible id on a).settings.context_meter_primary
          (set_context_meter_metric_visible id on a).settings.context_meter_metrics
        ≡ true)
      ⊎ ((same_metric id percentage ≡ true)
          × ((set_context_meter_metric_visible id on a).settings.context_meter_primary ≡ percentage)
          × (is_any_shown (set_context_meter_metric_visible id on a).settings.context_meter_metrics
              ≡ false))
unfolding set_context_meter_metric_visible next_context_meter_primary
set_metric_visible-headline id true a h s =
    let current = a.settings.context_meter_primary in
    let rows = a.settings.context_meter_metrics in
    inl (
      rw (settled_same current (set_visible metrics id true rows))
        (is_shown-show current id rows s))
set_metric_visible-headline id false a h s =
    let current = a.settings.context_meter_primary in
    let rows = a.settings.context_meter_metrics in
    elim (Bool-cases (same_metric id current)) [
      | inl y ↦
          let e : id ≡ current =
            metric_name_inj id current ((eq_iff (metric_name id) (metric_name current)).0 y) in
          rw (e, next_self current (set_visible metrics current false rows))
            (hide_headline current rows _ h refl)
      | inr n ↦ inl (
          rw (n, settled_same current (set_visible metrics id false rows))
            (is_shown-hide_other current id rows n s))
    ]
