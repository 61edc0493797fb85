-- ===== src/Settings/SearchOps.antt =====
-- Web search and language in settingsStore.ts. A call of the Gateway that is not waited for is
-- appended to the saves; one that is waited for has its answer as an argument.
use encore_hub.Settings.Operations.{commit}
use encore_hub.Settings.Search.{
  SearchProvider, StoredAnswer, WebSearchSettings, as_stored, default_web_search_settings, document,
  no_document, normalize_locale_preference, normalize_web_search_settings, other_document,
  search_provider_text,
}
use encore_hub.Settings.State.{App, SettingsState}
use encore_hub.Settings.Storage.{LocalStorage, flag}
use encore_hub.Shared.{Bool, List, String, [], none, some, true, ◌++◌, ◌∷◌}

abbrev pub web_search_settings_from_state : SettingsState → WebSearchSettings
web_search_settings_from_state s = record {
  is_enabled = s.search_enabled;
  provider = s.search_provider;
  max_results = s.search_max_results;
  searxng_endpoint = s.searxng_search_endpoint;
  openserp_settings = s.openserp_search_settings;
  exa_mode = s.exa_search_mode;
}

abbrev pub web_search_state : WebSearchSettings → SettingsState → SettingsState
web_search_state settings s = record s {
  search_enabled = settings.is_enabled;
  search_provider = settings.provider;
  search_max_results = settings.max_results;
  searxng_search_endpoint = settings.searxng_endpoint;
  openserp_search_settings = settings.openserp_settings;
  exa_search_mode = settings.exa_mode;
  search_settings_loaded = true;
}

abbrev pub persist_search_selection : WebSearchSettings → LocalStorage → LocalStorage
persist_search_selection settings s = record s {
  search_enabled = some (flag settings.is_enabled);
  search_provider = some (search_provider_text settings.provider);
}

abbrev pub save_search : WebSearchSettings → App → App
save_search settings a = record a { search_saves = a.search_saves ++ settings ∷ [] }

abbrev pub set_search_enabled : Bool → App → App
set_search_enabled on a =
    let s = record a.settings { search_enabled = on } in
    save_search (web_search_settings_from_state s)
      (commit s (λ st. record st { search_enabled = some (flag on) }) a)

abbrev pub set_search_provider : SearchProvider → App → App
set_search_provider p a =
    let s = record a.settings { search_provider = p } in
    save_search (web_search_settings_from_state s)
      (commit s (λ st. record st { search_provider = some (search_provider_text p) }) a)

abbrev pub adopt_search : WebSearchSettings → App → App
adopt_search settings a =
    commit (web_search_state settings a.settings) (persist_search_selection settings) a

-- The Gateway answered; `fallback` are the settings of the moment of the call. Without a stored
-- document the settings are sent; whether that succeeds makes no difference, as the settings are
-- marked as loaded before.
unfoldable pub load_web_search_settings_done : WebSearchSettings → StoredAnswer → App → App
load_web_search_settings_done fallback no_document a =
    let settings = normalize_web_search_settings none fallback in
    save_search settings (adopt_search settings a)
load_web_search_settings_done fallback other_document a =
    adopt_search (normalize_web_search_settings none fallback) a
load_web_search_settings_done fallback (document stored) a =
    adopt_search (normalize_web_search_settings (some stored) fallback) a

abbrev pub load_web_search_settings_failed : App → App
load_web_search_settings_failed a = record a {
  settings = record a.settings { search_settings_loaded = true };
}

-- The Gateway took the settings; when it does not, saveWebSearchSettings throws and sets nothing.
unfoldable pub save_web_search_settings_done : WebSearchSettings → App → App
save_web_search_settings_done settings a =
    let normalized =
      normalize_web_search_settings (some (as_stored settings)) default_web_search_settings in
    adopt_search normalized (save_search normalized a)

abbrev pub set_locale : List String → String → App → App
set_locale catalogs locale a =
    let next = normalize_locale_preference catalogs (some locale) in
    commit (record a.settings { locale = next }) (λ s. record s { locale = some next }) a
