-- ===== src/Settings/Tests.antt =====
-- Sessions of the settings.
use encore_hub.Settings.Keys.{
  Engine, missing, holding, fetch_keys, is_nil, legacy_keys, load_keys, migrate_legacy_keys,
}
use encore_hub.Settings.Keys.Loaded.{
  engine_key, load_keys-answer, load_keys-unreachable, pauses_from,
}
use encore_hub.Settings.Load.{initial_settings}
use encore_hub.Settings.Meter.{same_metric, set_context_meter_metric_visible}
use encore_hub.Settings.Meter.Headline.{is_any_shown, is_shown, set_metric_visible-headline}
use encore_hub.Settings.Names.{metric-IsDistinct}
use encore_hub.Settings.Preferences.{Preference, move}
use encore_hub.Settings.Preferences.Moved.{IsMoved, move-IsMoved}
use encore_hub.Settings.Preferences.Normalized.{IsArranged, defaults-IsArranged}
use encore_hub.Settings.Remembered.{settings_run-bounds, settings_run-remembered}
use encore_hub.Settings.Runs.{
  SettingsEvent, dev_mode_set, language_chosen, lasting, logs_set, menu_item_moved, metric_moved,
  metric_shown, provider_chosen, renderer_chosen, search_loaded, search_set, settings_run,
  sidebar_dragged, start, theme_chosen,
}
use encore_hub.Settings.Search.{default_web_search_settings, other_document}
use encore_hub.Settings.State.{
  ContextMeterMetricId, mathjax, menu_items, metrics, new_chat, open_settings_item, percentage,
  remaining, used,
}
use encore_hub.Settings.Storage.{fresh_storage, pixel, pixels}
use encore_hub.Shared.{
  List, String, [], arith, false, if◌then◌else◌, lookup, ltb, none, or_option, refl, some, str_eq,
  true, ℕ, ◌+◌, ◌*◌, ◌&&◌, ◌<◌, ◌∷◌, ◌≡◌, ◌≤◌, ◌⊎◌,
}

abbrev languages : List String
languages = "en" ∷ "zh-CN" ∷ []

abbrev evening : List SettingsEvent
evening =
    theme_chosen "light"
    ∷ provider_chosen "acme" (some "m1")
    ∷ sidebar_dragged (pixels (300 * pixel + 8796093022208))
    ∷ dev_mode_set true
    ∷ logs_set true
    ∷ metric_moved used percentage
    ∷ metric_shown percentage false
    ∷ menu_item_moved new_chat open_settings_item
    ∷ renderer_chosen mathjax
    ∷ search_set true
    ∷ search_loaded default_web_search_settings other_document
    ∷ language_chosen "en"
    ∷ []

settings_run-remembered_example :
    initial_settings languages
      (settings_run languages (start languages fresh_storage) evening).storage
    ≡ lasting (settings_run languages (start languages fresh_storage) evening).settings
unfolding initial_settings
settings_run-remembered_example =
    settings_run-remembered languages evening fresh_storage refl refl (
      tt,
      (
        refl,
        (tt, (tt, (tt, (tt, (tt, (tt, (tt, (tt, ((omega arith, omega arith), (tt, tt)))))))))),
      ),
    )

settings_run-bounds_example :
    IsArranged menu_items
      (settings_run languages
        (start languages fresh_storage)
        evening).settings.global_context_menu_items
    × IsArranged metrics
        (settings_run languages
          (start languages fresh_storage)
          evening).settings.context_meter_metrics
    × (((settings_run languages
            (start languages fresh_storage)
            evening).settings.full_communication_logs
          && (settings_run languages (start languages fresh_storage) evening).settings.dev_mode)
        ≡ (settings_run languages
            (start languages fresh_storage)
            evening).settings.full_communication_logs)
    × (260 * pixel
        ≤ (settings_run languages (start languages fresh_storage) evening).settings.sidebar_width)
    × ((settings_run languages (start languages fresh_storage) evening).settings.sidebar_width
        ≤ 380 * pixel)
    × (1
        ≤ (settings_run languages
            (start languages fresh_storage)
            evening).settings.search_max_results)
    × ((settings_run languages (start languages fresh_storage) evening).settings.search_max_results
        ≤ 10)
unfolding initial_settings
settings_run-bounds_example = settings_run-bounds languages evening fresh_storage refl refl (
  tt,
  (refl, (tt, (tt, (tt, (tt, (tt, (tt, (tt, (tt, ((omega arith, omega arith), (tt, tt))))))))))),
)

move-IsMoved_example :
    (after : List (Preference ContextMeterMetricId)) × (move metrics used remaining metrics.defaults
      ≡ some after)
    × IsMoved metrics used remaining metrics.defaults after
move-IsMoved_example =
    move-IsMoved metrics used remaining metrics.defaults
      (defaults-IsArranged metrics metric-IsDistinct) refl refl refl

set_metric_visible-headline_example :
    (is_shown
        (set_context_meter_metric_visible percentage false
          (start languages fresh_storage)).settings.context_meter_primary
        (set_context_meter_metric_visible percentage false
          (start languages fresh_storage)).settings.context_meter_metrics
      ≡ true)
    ⊎ ((same_metric percentage percentage ≡ true)
        × ((set_context_meter_metric_visible percentage false
              (start languages fresh_storage)).settings.context_meter_primary
            ≡ percentage)
        × (is_any_shown
              (set_context_meter_metric_visible percentage false
                (start languages fresh_storage)).settings.context_meter_metrics
            ≡ false))
unfolding initial_settings
set_metric_visible-headline_example =
    set_metric_visible-headline percentage false (start languages fresh_storage)
      (defaults-IsArranged metrics metric-IsDistinct) refl

-- An engine that answers the third call, with one key in a locked vault.
abbrev slow_engine : Engine
slow_engine = record {
  list = λ t. if ltb t 2 then none else some ("acme" ∷ "beta" ∷ []);
  get_key = λ t p. if str_eq p "acme" then some "k1" else none;
}

slow_engine-silent : (i : ℕ) → i < 2 → slow_engine.list i ≡ none
slow_engine-silent i l = ground arith

load_keys-answer_example :
    (lookup "acme" (load_keys slow_engine missing (("beta", "k2") ∷ [])).api_keys
      ≡ or_option (lookup "acme" (("beta", "k2") ∷ [])) (
          or_option
            (if is_nil (fetch_keys slow_engine 2 ("acme" ∷ "beta" ∷ []) [])
              then lookup "acme" (migrate_legacy_keys missing)
              else none)
            (engine_key slow_engine 2 ("acme" ∷ "beta" ∷ []) "acme")))
    × ((load_keys slow_engine missing (("beta", "k2") ∷ [])).pauses ≡ pauses_from 2 0)
load_keys-answer_example =
    load_keys-answer slow_engine missing (("beta", "k2") ∷ []) 2 ("acme" ∷ "beta" ∷ [])
      (omega arith) slow_engine-silent refl "acme"

abbrev no_engine : Engine
no_engine = record { list = λ t. none; get_key = λ t p. none }

load_keys-unreachable_example :
    (lookup "acme" (load_keys no_engine (holding (("acme", some "k1") ∷ [])) []).api_keys
      ≡ or_option
          (lookup {V = String} "acme" [])
          (lookup "acme" (legacy_keys (("acme", some "k1") ∷ []))))
    × ((load_keys no_engine (holding (("acme", some "k1") ∷ [])) []).legacy_left ≡ false)
    × ((load_keys no_engine (holding (("acme", some "k1") ∷ [])) []).puts
        ≡ legacy_keys (("acme", some "k1") ∷ []))
    × ((load_keys no_engine (holding (("acme", some "k1") ∷ [])) []).pauses ≡ pauses_from 4 0)
load_keys-unreachable_example =
    load_keys-unreachable no_engine (("acme", some "k1") ∷ []) [] (λ i l. refl) "acme"
