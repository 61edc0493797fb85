-- ===== src/Settings/Searched.antt =====
-- Web search and language keep a session sound (settingsStore.ts).
use encore_hub.Settings.Kept.{set_flag-stored}
use encore_hub.Settings.Load.{initial_settings, load_search_provider}
use encore_hub.Settings.Preferences.Normalized.{IsArranged}
use encore_hub.Settings.Runs.{lasting}
use encore_hub.Settings.Search.{
  SearchProvider, StoredAnswer, StoredSearch, WebSearchSettings, as_stored,
  default_web_search_settings, document, duckduckgo, exa, no_document, normalize_locale_preference,
  normalize_web_search_settings, openserp, other_document, search_provider_text, searxng,
  stored_max_results,
}
use encore_hub.Settings.SearchOps.{
  adopt_search, load_web_search_settings_done, save_search, save_web_search_settings_done,
  set_locale, set_search_enabled, set_search_provider,
}
use encore_hub.Settings.Session.{IsSession, commit-IsSession}
use encore_hub.Settings.State.{App, SettingsState, menu_items, metrics}
use encore_hub.Settings.Storage.{pixel}
use encore_hub.Shared.{
  ◌*◌, Bool, Bool-cases, List, Option, String, ap, arith, inl, inr, leb, mem, none, refl, some,
  subst, sym, true, ℕ, ◌∙◌, ◌≡◌, ◌≤◌,
}
use encore_hub.Workspace.{WorkspaceState}

search_results :
    (stored : Option ℕ) (n : ℕ)
    → (1 ≤ n) × (n ≤ 10)
    → (1 ≤ stored_max_results stored n) × (stored_max_results stored n ≤ 10)
search_results none n h = h
search_results (some m) n h = elim (Bool-cases (leb 1 m)) [
  | inl y ↦ let le : 1 ≤ m = ground arith in rw y (omega (arith, le))
  | inr no_result ↦ rw no_result h
]

normalize_search-results :
    (stored : Option StoredSearch) (s : WebSearchSettings)
    → (1 ≤ s.max_results) × (s.max_results ≤ 10)
    → (1 ≤ (normalize_web_search_settings stored s).max_results)
      × ((normalize_web_search_settings stored s).max_results ≤ 10)
unfolding normalize_web_search_settings
normalize_search-results none s h = h
normalize_search-results (some d) s h = search_results d.max_results s.max_results h

load_search_provider-text :
    (p : SearchProvider) → load_search_provider (some (search_provider_text p)) ≡ p
load_search_provider-text duckduckgo = refl
load_search_provider-text searxng = refl
load_search_provider-text openserp = refl
load_search_provider-text exa = refl

-- A language that was normalised stays as it is.
locale_idem :
    (catalogs : List String) (o : Option String)
    → normalize_locale_preference catalogs (some (normalize_locale_preference catalogs o))
      ≡ normalize_locale_preference catalogs o
locale_idem catalogs none = ground arith
locale_idem catalogs (some l) = elim (Bool-cases (mem l catalogs)) [
  | inl y ↦ rw (y, y) refl
  | inr n ↦ rw n (ground arith)
]

module _ (catalogs : List String) where
  -- An operation that changes nothing that lasts.
  pub passing-IsSession :
      (s : SettingsState) (w : WorkspaceState) (saves : List WebSearchSettings) (a : App)
      → lasting s ≡ lasting a.settings
      → s.sidebar_width ≡ a.settings.sidebar_width
      → (1 ≤ s.search_max_results) × (s.search_max_results ≤ 10)
      → IsSession catalogs a
      → IsSession catalogs (record a { settings = s; windows = w; search_saves = saves })
  passing-IsSession s w saves a e same results h = record {
    results = results;
    writable = h.writable;
    stored = h.stored ∙ sym e;
    menu =
        subst (λ (x : SettingsState). IsArranged menu_items x.global_context_menu_items) (sym e)
          h.menu;
    meter =
        subst (λ (x : SettingsState). IsArranged metrics x.context_meter_metrics) (sym e) h.meter;
    logs = h.logs ∙ ap (λ (x : SettingsState). x.full_communication_logs) (sym e);
    developer =
        subst (λ (x : SettingsState). x.full_communication_logs ≡ true → x.dev_mode ≡ true) (sym e)
          h.developer;
    width = subst (λ n. (260 * pixel ≤ n) × (n ≤ 380 * pixel)) (sym same) h.width;
  }

  saving-IsSession :
      (settings : WebSearchSettings) (a : App)
      → IsSession catalogs a
      → IsSession catalogs (save_search settings a)
  saving-IsSession settings a h = passing-IsSession a.settings a.windows _ a refl refl h.results h

  pub set_search-IsSession :
      (on : Bool) (a : App) → IsSession catalogs a → IsSession catalogs (set_search_enabled on a)
  unfolding initial_settings
  set_search-IsSession on a h = saving-IsSession _ _ (
      commit-IsSession catalogs _ _ a h refl
        (set_flag-stored on a.settings (λ b s. record s { search_enabled = b }) h.stored) h.menu
        h.meter h.logs h.developer h.width h.results)

  pub set_search_provider-IsSession :
      (p : SearchProvider) (a : App)
      → IsSession catalogs a
      → IsSession catalogs (set_search_provider p a)
  unfolding initial_settings
  set_search_provider-IsSession p a h = saving-IsSession _ _ (
      commit-IsSession catalogs _ _ a h refl
        (ap
            (λ (s : SettingsState). record s {
              search_provider = load_search_provider (some (search_provider_text p));
            })
            h.stored
          ∙ ap (λ x. lasting (record a.settings { search_provider = x }))
              (load_search_provider-text p))
        h.menu h.meter h.logs h.developer h.width h.results)

  adopt_search-IsSession :
      (settings : WebSearchSettings) (a : App)
      → (1 ≤ settings.max_results) × (settings.max_results ≤ 10)
      → IsSession catalogs a
      → IsSession catalogs (adopt_search settings a)
  unfolding initial_settings
  adopt_search-IsSession settings a r h =
      let p = settings.provider in
      commit-IsSession catalogs _ _ a h refl
        (set_flag-stored settings.is_enabled a.settings
            (λ b s. record s {
              search_enabled = b;
              search_provider = load_search_provider (some (search_provider_text p));
            })
            h.stored
          ∙ ap
              (λ x.
                lasting
                  (record a.settings { search_enabled = settings.is_enabled; search_provider = x }))
              (load_search_provider-text p))
        h.menu h.meter h.logs h.developer h.width r

  pub load_search-IsSession :
      (fallback : WebSearchSettings) (answer : StoredAnswer) (a : App)
      → (1 ≤ fallback.max_results) × (fallback.max_results ≤ 10)
      → IsSession catalogs a
      → IsSession catalogs (load_web_search_settings_done fallback answer a)
  unfolding load_web_search_settings_done
  load_search-IsSession fallback no_document a r h =
      saving-IsSession _ _ (adopt_search-IsSession _ a (normalize_search-results none fallback r) h)
  load_search-IsSession fallback other_document a r h =
      adopt_search-IsSession _ a (normalize_search-results none fallback r) h
  load_search-IsSession fallback (document d) a r h =
      adopt_search-IsSession _ a (normalize_search-results (some d) fallback r) h

  pub save_search-IsSession :
      (settings : WebSearchSettings) (a : App)
      → IsSession catalogs a
      → IsSession catalogs (save_web_search_settings_done settings a)
  unfolding save_web_search_settings_done
  save_search-IsSession settings a h =
      adopt_search-IsSession _ _
        (normalize_search-results (some (as_stored settings)) default_web_search_settings
          (omega arith, omega arith))
        (saving-IsSession _ a h)

  pub set_locale-IsSession :
      (l : String) (a : App) → IsSession catalogs a → IsSession catalogs (set_locale catalogs l a)
  unfolding initial_settings
  set_locale-IsSession l a h =
      commit-IsSession catalogs _ _ a h refl
        (ap
            (λ (s : SettingsState). record s {
              locale =
                  normalize_locale_preference catalogs
                    (some (normalize_locale_preference catalogs (some l)));
            })
            h.stored
          ∙ ap (λ x. lasting (record a.settings { locale = x })) (locale_idem catalogs (some l)))
        h.menu h.meter h.logs h.developer h.width h.results
