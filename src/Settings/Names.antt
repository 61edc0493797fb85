-- ===== src/Settings/Names.antt =====
-- The ids of rows are told apart by their names (settingsStore.ts).
use encore_hub.Settings.Load.{context_meter_metric_id}
use encore_hub.Settings.Preferences.{names}
use encore_hub.Settings.Preferences.Normalized.{IsDistinct}
use encore_hub.Settings.State.{
  ContextMeterMetricId, GlobalContextMenuItemId, menu_items, metric_name, metrics, new_chat,
  open_settings_item, percentage, remaining, used, used_of_limit,
}
use encore_hub.Shared.{
  Option, String, [], ap, find, mem, or_else, refl, some, str_eq, sym, true, ◌∙◌, ◌∷◌, ◌≡◌,
}

-- A name that can be read back belongs to one id only.
pub read_back_inj :
    {I : Type 0} (name : I → String) (read : String → Option I)
    → ((i : I) → read (name i) ≡ some i)
    → (i j : I) → name i ≡ name j
    → i ≡ j
read_back_inj name read back i j e = ap (λ o. or_else o i) (sym (back i) ∙ ap read e ∙ back j)

pub menu_name_inj : (i j : GlobalContextMenuItemId) → menu_items.name i ≡ menu_items.name j → i ≡ j
menu_name_inj =
    read_back_inj menu_items.name
      (λ s. find (λ i. str_eq (menu_items.name i) s) (new_chat ∷ open_settings_item ∷ [])) back
  where
    back :
        (i : GlobalContextMenuItemId)
        → find
            (λ j. str_eq (menu_items.name j) (menu_items.name i))
            (new_chat ∷ open_settings_item ∷ [])
          ≡ some i
    back new_chat = refl
    back open_settings_item = refl

pub metric_id-name : (i : ContextMeterMetricId) → context_meter_metric_id (metric_name i) ≡ some i
metric_id-name percentage = refl
metric_id-name remaining = refl
metric_id-name used_of_limit = refl
metric_id-name used = refl

pub metric_name_inj : (i j : ContextMeterMetricId) → metrics.name i ≡ metrics.name j → i ≡ j
metric_name_inj = read_back_inj metrics.name context_meter_metric_id metric_id-name

pub menu_known :
    (i : GlobalContextMenuItemId)
    → mem (menu_items.name i) (names menu_items menu_items.defaults) ≡ true
menu_known new_chat = refl
menu_known open_settings_item = refl

pub metric_known :
    (i : ContextMeterMetricId) → mem (metrics.name i) (names metrics metrics.defaults) ≡ true
metric_known percentage = refl
metric_known remaining = refl
metric_known used_of_limit = refl
metric_known used = refl

pub menu-IsDistinct : IsDistinct (names menu_items menu_items.defaults)
menu-IsDistinct = (refl, (refl, tt))

pub metric-IsDistinct : IsDistinct (names metrics metrics.defaults)
metric-IsDistinct = (refl, (refl, (refl, (refl, tt))))
