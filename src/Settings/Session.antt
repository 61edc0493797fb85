-- ===== src/Settings/Session.antt =====
-- What a session keeps true of the settings and the storage (settingsStore.ts), and the operations
-- that set one plain field.
use encore_hub.Settings.Load.{
  clamp_sidebar_width, initial_settings, load_math_renderer, load_sidebar_mode,
}
use encore_hub.Settings.Operations.{
  math_renderer_text, set_dev_mode, set_math_renderer, set_model, set_provider, set_sidebar_mode,
  set_sidebar_width, set_theme, sidebar_mode_text, write_model,
}
use encore_hub.Settings.Preferences.Normalized.{IsArranged}
use encore_hub.Settings.Runs.{IsPlain, lasting, provider_chosen}
use encore_hub.Settings.State.{
  App, MathRenderer, SettingsState, SidebarMode, characters, conversations, katex, mathjax,
  menu_items, metrics, off,
}
use encore_hub.Settings.Storage.{
  LocalStorage, Pixels, is_text, nan, negative, parse_int, pixel, pixels,
}
use encore_hub.Shared.{
  Bool, List, Option, String, ap, arith, false, if◌then◌else◌, is_empty, none, refl, some, subst,
  sym, true, ◌∙◌, ◌≡◌, ◌≤◌, ℕ, ◌*◌, ◌/◌,
}

pub clamp_bounds :
    (w : Pixels) → (260 * pixel ≤ clamp_sidebar_width w) × (clamp_sidebar_width w ≤ 380 * pixel)
unfolding clamp_sidebar_width
clamp_bounds nan = omega arith
clamp_bounds (negative n) = omega arith
clamp_bounds (pixels n) = omega arith

-- A width within the bounds is read back without its fraction.
clamp_whole :
    (c : ℕ)
    → 260 * pixel ≤ c
    → c ≤ 380 * pixel
    → clamp_sidebar_width (parse_int (pixels c)) ≡ c / pixel * pixel
unfolding clamp_sidebar_width
clamp_whole c low high = omega (arith, low, high)

pub clamp_idem :
    (w : Pixels)
    → clamp_sidebar_width (parse_int (pixels (clamp_sidebar_width w)))
      ≡ clamp_sidebar_width w / pixel * pixel
clamp_idem w = let (low, high) = clamp_bounds w in clamp_whole (clamp_sidebar_width w) low high

-- What a start reads is whole.
pub parsed_whole :
    (w : Pixels)
    → clamp_sidebar_width (parse_int w) / pixel * pixel ≡ clamp_sidebar_width (parse_int w)
unfolding clamp_sidebar_width
parsed_whole nan = omega arith
parsed_whole (negative n) = omega arith
parsed_whole (pixels n) = omega arith

module _ (catalogs : List String) where
  -- A session with a storage that accepts its writes: the storage holds the settings that last, both
  -- lists of rows are arranged, full logs are a developer's, the sidebar has a usable width,
  -- and the search a usable number of results.
  pub record IsSession (a : App) : Type 0 where
    pub writable : a.storage.writable ≡ true
    pub stored : initial_settings catalogs a.storage ≡ lasting a.settings
    pub menu : IsArranged menu_items a.settings.global_context_menu_items
    pub meter : IsArranged metrics a.settings.context_meter_metrics
    pub logs : is_text "1" a.storage.full_communication_logs ≡ a.settings.full_communication_logs
    pub developer : a.settings.full_communication_logs ≡ true → a.settings.dev_mode ≡ true
    pub width : (260 * pixel ≤ a.settings.sidebar_width) × (a.settings.sidebar_width ≤ 380 * pixel)
    pub results : (1 ≤ a.settings.search_max_results) × (a.settings.search_max_results ≤ 10)

  pub write-writable : (b : Bool) (x y : LocalStorage) → b ≡ true → (if b then x else y) ≡ x
  write-writable b x y h = rw h refl

  -- An operation keeps a session sound when its writes leave in the storage what it sets.
  pub commit-IsSession :
      (s : SettingsState) (st : LocalStorage) (a : App)
      → IsSession a
      → st.writable ≡ a.storage.writable
      → initial_settings catalogs st ≡ lasting s
      → IsArranged menu_items s.global_context_menu_items
      → IsArranged metrics s.context_meter_metrics
      → is_text "1" st.full_communication_logs ≡ s.full_communication_logs
      → (s.full_communication_logs ≡ true → s.dev_mode ≡ true)
      → (260 * pixel ≤ s.sidebar_width) × (s.sidebar_width ≤ 380 * pixel)
      → (1 ≤ s.search_max_results) × (s.search_max_results ≤ 10)
      → IsSession
          (record a { settings = s; storage = if a.storage.writable then st else a.storage })
  commit-IsSession s st a h e stored menu meter logs developer width results =
      subst (λ x. IsSession (record a { settings = s; storage = x }))
        (sym (write-writable a.storage.writable st a.storage h.writable))
        (record {
          writable = e ∙ h.writable;
          stored = stored;
          menu = menu;
          meter = meter;
          logs = logs;
          developer = developer;
          width = width;
          results = results;
        })

  pub set_theme-IsSession : (t : String) (a : App) → IsSession a → IsSession (set_theme t a)
  unfolding initial_settings
  set_theme-IsSession t a h =
      commit-IsSession _ _ a h refl (ap (λ (s : SettingsState). record s { theme = t }) h.stored)
        h.menu h.meter h.logs h.developer h.width h.results

  pub write_model-chosen :
      (m : String) (s : LocalStorage)
      → is_empty m ≡ false
      → write_model (some m) s ≡ record s { model = some m }
  write_model-chosen m s n = rw n refl

  pub set_provider-IsSession :
      (p : String) (m : Option String) (a : App)
      → IsPlain (provider_chosen p m)
      → IsSession a
      → IsSession (set_provider p m a)
  unfolding initial_settings
  set_provider-IsSession p none a n h =
      commit-IsSession _ _ a h refl (ap (λ (s : SettingsState). record s { provider = p }) h.stored)
        h.menu h.meter h.logs h.developer h.width h.results
  set_provider-IsSession p (some m) a n h =
      let e = write_model-chosen m (record a.storage { provider = some p }) n in
      commit-IsSession _ _ a h (ap (λ (s : LocalStorage). s.writable) e)
        (ap (initial_settings catalogs) e
          ∙ ap (λ (s : SettingsState). record s { provider = p; model = m }) h.stored)
        h.menu h.meter (ap (λ (s : LocalStorage). is_text "1" s.full_communication_logs) e ∙ h.logs)
        h.developer h.width h.results

  pub set_model-IsSession : (m : String) (a : App) → IsSession a → IsSession (set_model m a)
  unfolding initial_settings
  set_model-IsSession m a h =
      commit-IsSession _ _ a h refl (ap (λ (s : SettingsState). record s { model = m }) h.stored)
        h.menu h.meter h.logs h.developer h.width h.results

  pub set_sidebar_width-IsSession :
      (w : Pixels) (a : App) → IsSession a → IsSession (set_sidebar_width w a)
  unfolding initial_settings
  set_sidebar_width-IsSession w a h =
      commit-IsSession _ _ a h refl
        (ap
            (λ (s : SettingsState). record s {
              sidebar_width = clamp_sidebar_width (parse_int (pixels (clamp_sidebar_width w)));
            })
            h.stored
          ∙ ap (λ n. record (lasting a.settings) { sidebar_width = n }) (clamp_idem w))
        h.menu h.meter h.logs h.developer (clamp_bounds w) h.results

  pub load_sidebar_mode-text :
      (m : SidebarMode) → load_sidebar_mode (some (sidebar_mode_text m)) ≡ m
  load_sidebar_mode-text characters = refl
  load_sidebar_mode-text conversations = refl

  pub set_sidebar_mode-IsSession :
      (m : SidebarMode) (a : App) → IsSession a → IsSession (set_sidebar_mode m a)
  unfolding initial_settings
  set_sidebar_mode-IsSession m a h =
      commit-IsSession _ _ a h refl
        (ap
            (λ (s : SettingsState). record s {
              sidebar_mode = load_sidebar_mode (some (sidebar_mode_text m));
            })
            h.stored
          ∙ ap (λ x. lasting (record a.settings { sidebar_mode = x })) (load_sidebar_mode-text m))
        h.menu h.meter h.logs h.developer h.width h.results

  pub load_math_renderer-text :
      (r : MathRenderer) → load_math_renderer (some (math_renderer_text r)) ≡ r
  load_math_renderer-text off = refl
  load_math_renderer-text katex = refl
  load_math_renderer-text mathjax = refl

  pub set_math_renderer-IsSession :
      (r : MathRenderer) (a : App) → IsSession a → IsSession (set_math_renderer r a)
  unfolding initial_settings
  set_math_renderer-IsSession r a h =
      commit-IsSession _ _ a h refl
        (ap
            (λ (s : SettingsState). record s {
              math_renderer = load_math_renderer (some (math_renderer_text r));
            })
            h.stored
          ∙ ap (λ x. lasting (record a.settings { math_renderer = x })) (load_math_renderer-text r))
        h.menu h.meter h.logs h.developer h.width h.results

  pub set_dev_mode-IsSession : (on : Bool) (a : App) → IsSession a → IsSession (set_dev_mode on a)
  unfolding initial_settings set_dev_mode
  set_dev_mode-IsSession true a h =
      commit-IsSession _ _ a h refl
        (ap
            (λ b. record (initial_settings catalogs a.storage) {
              dev_mode = true;
              full_communication_logs = b;
            })
            h.logs
          ∙ ap
              (λ (s : SettingsState). record s {
                dev_mode = true;
                full_communication_logs = a.settings.full_communication_logs;
              })
              h.stored)
        h.menu h.meter h.logs (λ e. refl) h.width h.results
  set_dev_mode-IsSession false a h =
      commit-IsSession _ _ a h refl
        (ap (λ (s : SettingsState). record s { dev_mode = false; full_communication_logs = false })
          h.stored)
        h.menu h.meter refl (λ e. cc) h.width h.results
