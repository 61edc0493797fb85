-- ===== src/Settings/Storage.antt =====
-- `localStorage` as frontend/src/stores/settingsStore.ts uses it: one cell for each key, which is
-- missing or holds a text. A cell that the code only reads by JSON.parse holds what it makes of its
-- text, and the cell of the width the number, without an exponent, that its text begins with.
use encore_hub.Settings.Preferences.{Candidate}
use encore_hub.Shared.{
  Bool, List, Option, String, false, if◌then◌else◌, none, some, str_eq, true, ℕ, ◌/◌, ◌*◌,
}

-- The double of a width between 256 and 512 pixels is a whole number of these parts of a pixel.
abbrev pub pixel : ℕ
pixel = 17592186044416

-- A number of pixels, with its fraction: it counts parts of which `pixel` are one pixel, 2 ^ 44. A
-- finer fraction occurs below 256 pixels only, where `clampSidebarWidth` drops it.
pub data Pixels : Type 0 where
  nan : Pixels
  negative pixels : ℕ → Pixels

-- What JSON.parse makes of a text: it throws, or the value is no array, or an array.
pub data Parsed : Type 0 where
  broken no_array : Parsed
  array : List Candidate → Parsed

-- `Number.parseInt(raw, 10)` drops the fraction.
abbrev pub parse_int : Pixels → Pixels
parse_int nan = nan
parse_int (negative n) = negative (n / pixel * pixel)
parse_int (pixels n) = pixels (n / pixel * pixel)

pub record LocalStorage : Type 0 where
  pub writable : Bool
  pub theme : Option String
  pub provider : Option String
  pub model : Option String
  pub sidebar_width : Option Pixels
  pub sidebar_mode : Option String
  pub dev_mode : Option String
  pub full_communication_logs : Option String
  pub traffic_light_window_controls : Option String
  pub global_context_menu_enabled : Option String
  pub global_context_menu_items : Option Parsed
  pub context_meter_primary : Option String
  pub context_meter_metrics : Option Parsed
  pub search_enabled : Option String
  pub search_provider : Option String
  pub deep_thinking : Option String
  pub math_renderer : Option String
  pub locale : Option String

-- The storage of a new installation.
abbrev pub fresh_storage : LocalStorage
fresh_storage = record {
  writable = true;
  theme = none;
  provider = none;
  model = none;
  sidebar_width = none;
  sidebar_mode = none;
  dev_mode = none;
  full_communication_logs = none;
  traffic_light_window_controls = none;
  global_context_menu_enabled = none;
  global_context_menu_items = none;
  context_meter_primary = none;
  context_meter_metrics = none;
  search_enabled = none;
  search_provider = none;
  deep_thinking = none;
  math_renderer = none;
  locale = none;
}

-- `localStorage.getItem(k) === v`
abbrev pub is_text : String → Option String → Bool
is_text v none = false
is_text v (some t) = str_eq t v

-- `on ? "1" : "0"`
abbrev pub flag : Bool → String
flag on = if on then "1" else "0"

-- `try { localStorage.setItem(...) } catch { /* ignore */ }`: a full or forbidden storage throws
-- at the first write.
abbrev pub write : (LocalStorage → LocalStorage) → LocalStorage → LocalStorage
write set s = if s.writable then set s else s
