-- ===== src/Settings/Search.antt =====
-- frontend/src/services/webSearch.ts: the settings of the web search and how a stored document is
-- read, and the language preference of frontend/src/i18n/registry.ts.
use encore_hub.Shared.{
  Bool, List, Option, String, [], false, find, if◌then◌else◌, leb, mem, min, none, opt_is, or_else,
  some, str_eq, trim, ℕ, ◌∷◌,
}

pub data SearchProvider : Type 0 where
  duckduckgo searxng openserp exa : SearchProvider

pub data ExaSearchMode : Type 0 where
  free api_key : ExaSearchMode

pub data OpenserpEngine : Type 0 where
  mega google bing duck baidu yandex ecosia : OpenserpEngine

pub record OpenserpSearchSettings : Type 0 where
  pub endpoint : String
  pub engine : OpenserpEngine
  pub engines : String

pub record WebSearchSettings : Type 0 where
  pub is_enabled : Bool
  pub provider : SearchProvider
  pub max_results : ℕ
  pub searxng_endpoint : String
  pub openserp_settings : OpenserpSearchSettings
  pub exa_mode : ExaSearchMode

abbrev pub default_web_search_settings : WebSearchSettings
default_web_search_settings = record {
  is_enabled = false;
  provider = duckduckgo;
  max_results = 5;
  searxng_endpoint = "";
  openserp_settings = record { endpoint = ""; engine = mega; engines = "" };
  exa_mode = free;
}

abbrev pub search_provider_text : SearchProvider → String
search_provider_text duckduckgo = "duckduckgo"
search_provider_text searxng = "searxng"
search_provider_text openserp = "openserp"
search_provider_text exa = "exa"

abbrev pub exa_mode_text : ExaSearchMode → String
exa_mode_text free = "free"
exa_mode_text api_key = "api_key"

abbrev pub engine_text : OpenserpEngine → String
engine_text mega = "mega"
engine_text google = "google"
engine_text bing = "bing"
engine_text duck = "duckduckgo"
engine_text baidu = "baidu"
engine_text yandex = "yandex"
engine_text ecosia = "ecosia"

-- A stored document as the code looks at it: a field is none when it is missing or has another
-- type, the number of results also when it is no whole number from 0 on.
pub record StoredSearch : Type 0 where
  pub is_enabled : Option Bool
  pub provider : Option String
  pub max_results : Option ℕ
  pub searxng_endpoint : Option String
  pub openserp_endpoint : Option String
  pub openserp_engine : Option String
  pub openserp_engines : Option String
  pub exa_mode : Option String

-- What the Gateway answers for the document: null, another value that is no object, or an object.
pub data StoredAnswer : Type 0 where
  no_document other_document : StoredAnswer
  document : StoredSearch → StoredAnswer

-- `LIST.includes(text) ? text : fallback`
abbrev pub included : {A : Type 0} → (A → String) → List A → Option String → A → A
included name all none fallback = fallback
included name all (some text) fallback = or_else (find (λ x. str_eq (name x) text) all) fallback

abbrev pub stored_provider : Option String → SearchProvider → SearchProvider
stored_provider stored fallback =
    if opt_is stored "duckduckgo_html"
    then duckduckgo
    else included search_provider_text (duckduckgo ∷ searxng ∷ openserp ∷ exa ∷ []) stored fallback

abbrev pub stored_max_results : Option ℕ → ℕ → ℕ
stored_max_results none fallback = fallback
stored_max_results (some n) fallback = if leb 1 n then min 10 n else fallback

-- `stringValue(value, fallback).trim()`
abbrev pub trimmed_value : Option String → String → String
trimmed_value stored fallback = trim (or_else stored fallback)

unfoldable pub normalize_web_search_settings :
    Option StoredSearch → WebSearchSettings → WebSearchSettings
normalize_web_search_settings none fallback = fallback
normalize_web_search_settings (some stored) fallback = record {
  is_enabled = or_else stored.is_enabled fallback.is_enabled;
  provider = stored_provider stored.provider fallback.provider;
  max_results = stored_max_results stored.max_results fallback.max_results;
  searxng_endpoint = trimmed_value stored.searxng_endpoint fallback.searxng_endpoint;
  openserp_settings = record {
    endpoint = trimmed_value stored.openserp_endpoint fallback.openserp_settings.endpoint;
    engine =
        included engine_text (mega ∷ google ∷ bing ∷ duck ∷ baidu ∷ yandex ∷ ecosia ∷ [])
          stored.openserp_engine fallback.openserp_settings.engine;
    engines = trimmed_value stored.openserp_engines fallback.openserp_settings.engines;
  };
  exa_mode = included exa_mode_text (free ∷ api_key ∷ []) stored.exa_mode fallback.exa_mode;
}

-- Settings that the program made, seen as a stored document.
abbrev pub as_stored : WebSearchSettings → StoredSearch
as_stored s = record {
  is_enabled = some s.is_enabled;
  provider = some (search_provider_text s.provider);
  max_results = some s.max_results;
  searxng_endpoint = some s.searxng_endpoint;
  openserp_endpoint = some s.openserp_settings.endpoint;
  openserp_engine = some (engine_text s.openserp_settings.engine);
  openserp_engines = some s.openserp_settings.engines;
  exa_mode = some (exa_mode_text s.exa_mode);
}

-- A preference that names a registered catalog stays; anything else is `system`.
abbrev pub normalize_locale_preference : List String → Option String → String
normalize_locale_preference catalogs none = "system"
normalize_locale_preference catalogs (some value) = if mem value catalogs then value else "system"
