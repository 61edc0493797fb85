-- ===== src/Settings/Keys.antt =====
-- API keys in settingsStore.ts: loading them from the engine, and moving those of an old version
-- out of the local storage. An engine is what it answers to each attempt: none where the call
-- throws, as it does while the engine starts or, for a key, while the vault is locked.
pub mod Loaded
use encore_hub.Chat.Frames.{after_prefix}
use encore_hub.Shared.{
  Assoc, Bool, List, Option, String, [], false, if◌then◌else◌, insert, is_empty, is_some, ltb, none,
  not, some, suc, true, zero, ℕ, ◌*◌, ◌+◌, ◌∷◌,
}

pub record Engine : Type 0 where
  pub list : ℕ → Option (List String)
  pub get_key : ℕ → String → Option String

-- `encorehub-api-keys` in the local storage: it is missing, or it cannot be used (it is empty, does
-- not parse, holds no object, or the storage throws), or it holds an object, where a value that is
-- not a text is none.
pub data LegacyKeys : Type 0 where
  missing unusable : LegacyKeys
  holding : Assoc (Option String) → LegacyKeys

abbrev pub set_key : String → Option String → Assoc String → Assoc String
set_key pid none keys = keys
set_key pid (some key) keys = insert pid key keys

-- `pid.startsWith("system.search.")`
abbrev pub is_search_secret : String → Bool
is_search_secret pid = is_some (after_prefix "system.search." pid)

unfoldable pub fetch_keys : Engine → ℕ → List String → Assoc String → Assoc String
fetch_keys e attempt [] keys = keys
fetch_keys e attempt (pid ∷ pids) keys =
    fetch_keys e attempt pids
      (if is_search_secret pid then keys else set_key pid (e.get_key attempt pid) keys)

-- The keys, and the pauses between the attempts in milliseconds.
pub record Fetched : Type 0 where
  pub keys : Assoc String
  pub pauses : List ℕ

abbrev pub answered : Engine → ℕ → Option (List String) → Fetched → Fetched
answered e attempt none later = record later {
  pauses = if ltb attempt 4 then (1000 * (attempt + 1)) ∷ later.pauses else later.pauses;
}
answered e attempt (some pids) later = record { keys = fetch_keys e attempt pids []; pauses = [] }

-- The loop with the attempts that are left and the number of the next one.
unfoldable pub load_attempts : Engine → ℕ → ℕ → Fetched
load_attempts e zero attempt = record { keys = []; pauses = [] }
load_attempts e (suc left) attempt =
    answered e attempt (e.list attempt) (load_attempts e left (attempt + 1))

abbrev pub load_keys_from_engine : Engine → Fetched
load_keys_from_engine e = load_attempts e 5 0

abbrev pub set_legacy_key : String → Option String → Assoc String → Assoc String
set_legacy_key pid none keys = keys
set_legacy_key pid (some key) keys = if is_empty key then keys else insert pid key keys

-- The entries of the object one by one; a later entry of the same name cannot occur.
unfoldable pub legacy_keys : Assoc (Option String) → Assoc String
legacy_keys [] = []
legacy_keys ((pid, key) ∷ rest) = set_legacy_key pid key (legacy_keys rest)

-- `{ ...keys, ...session }`
unfoldable pub merge_keys : Assoc String → Assoc String → Assoc String
merge_keys keys [] = keys
merge_keys keys ((pid, key) ∷ session) = insert pid key (merge_keys keys session)

-- What `loadKeys` leaves: the keys in memory, whether the old cell is left, the calls of putKey
-- that it does not wait for, and the pauses it made.
pub record KeyLoad : Type 0 where
  pub api_keys : Assoc String
  pub legacy_left : Bool
  pub puts : Assoc String
  pub pauses : List ℕ

abbrev pub migrate_legacy_keys : LegacyKeys → Assoc String
migrate_legacy_keys missing = []
migrate_legacy_keys unusable = []
migrate_legacy_keys (holding entries) = legacy_keys entries

-- Whether the old cell is there when the keys are loaded: only an object is removed, and only where
-- the migration is tried.
abbrev pub is_left : LegacyKeys → Bool → Bool
is_left missing tried = false
is_left unusable tried = true
is_left (holding entries) tried = not tried

abbrev pub is_nil : Assoc String → Bool
is_nil [] = true
is_nil (x ∷ xs) = false

unfoldable pub load_keys : Engine → LegacyKeys → Assoc String → KeyLoad
load_keys e legacy session =
    let fetched = load_keys_from_engine e in
    let migrated = if is_nil fetched.keys then migrate_legacy_keys legacy else [] in
    record {
      api_keys = merge_keys (merge_keys fetched.keys migrated) session;
      legacy_left = is_left legacy (is_nil fetched.keys);
      puts = migrated;
      pauses = fetched.pauses;
    }
