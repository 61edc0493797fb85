-- ===== src/Settings/Keys/Loaded.antt =====
-- Which API key is in memory after `loadKeys` (settingsStore.ts).
use encore_hub.Settings.Keys.{
  Engine, LegacyKeys, holding, fetch_keys, is_nil, is_search_secret, legacy_keys, load_attempts,
  load_keys, load_keys_from_engine, merge_keys, migrate_legacy_keys, set_key,
}
use encore_hub.Shared.{
  Assoc, Bool, Bool-cases, List, Option, String, [], ap, arith, eq_iff, false, if◌then◌else◌, inl,
  inr, lookup, lookup-insert, ltb, mem, none, not, or_option, refl, some, str_eq, suc, true, zero,
  ℕ, ◌&&◌, ◌*◌, ◌+◌, ◌<◌, ◌∙◌, ◌∷◌, ◌≡◌,
}

pub lookup-merge_keys :
    (p : String) (keys session : Assoc String)
    → lookup p (merge_keys keys session) ≡ or_option (lookup p session) (lookup p keys)
unfolding merge_keys lookup
lookup-merge_keys p keys [] = refl
lookup-merge_keys p keys ((k, v) ∷ session) =
    lookup-insert k p v (merge_keys keys session) ∙ ground (arith, lookup-merge_keys p keys session)

-- What the engine has for a provider, secrets of the search left out.
abbrev pub engine_key : Engine → ℕ → List String → String → Option String
engine_key e t pids p = if mem p pids && not (is_search_secret p) then e.get_key t p else none

lookup-set_key :
    (p k : String) (o : Option String) (keys : Assoc String)
    → lookup p (set_key k o keys) ≡ or_option (if str_eq k p then o else none) (lookup p keys)
lookup-set_key p k none keys = ground arith
lookup-set_key p k (some v) keys = lookup-insert k p v keys ∙ ground arith

fetch_step :
    (e : Engine) (t : ℕ) (p k : String) (pids : List String) (found : Option String)
    → or_option
        (engine_key e t pids p)
        (or_option (if not (is_search_secret k) && str_eq k p then e.get_key t k else none) found)
      ≡ or_option (engine_key e t (k ∷ pids) p) found
fetch_step e t p k pids found = elim (Bool-cases (str_eq k p)) [
  | inl y ↦
      let same : k ≡ p = (eq_iff k p).0 y in
      rw (y, same) (merged (is_search_secret p) (mem p pids) (e.get_key t p))
  | inr n ↦ rw (n, and_false (not (is_search_secret k))) refl
]
  where
    and_false : (b : Bool) → (b && false) ≡ false
    and_false b = ground arith

    merged :
        (s m : Bool) (o : Option String)
        → or_option
            (if m && not s then o else none)
            (or_option (if not s && true then o else none) found)
          ≡ or_option (if not s then o else none) found
    merged s m none = ground arith
    merged s m (some v) = ground arith

lookup-fetch_keys :
    (e : Engine) (t : ℕ) (p : String) (pids : List String) (keys : Assoc String)
    → lookup p (fetch_keys e t pids keys) ≡ or_option (engine_key e t pids p) (lookup p keys)
unfolding fetch_keys
lookup-fetch_keys e t p [] keys = refl
lookup-fetch_keys e t p (k ∷ pids) keys =
    lookup-fetch_keys e t p pids
      (if is_search_secret k then keys else set_key k (e.get_key t k) keys)
    ∙ ap (λ o. or_option (engine_key e t pids p) o) (stepped (is_search_secret k))
    ∙ fetch_step e t p k pids (lookup p keys)
  where
    stepped :
        (s : Bool)
        → lookup p (if s then keys else set_key k (e.get_key t k) keys)
          ≡ or_option (if not s && str_eq k p then e.get_key t k else none) (lookup p keys)
    stepped true = refl
    stepped false = lookup-set_key p k (e.get_key t k) keys

-- Pauses of 1, 2, 3 ... seconds, from the attempt of number `from`.
pub pauses_from : ℕ → ℕ → List ℕ
pauses_from zero from = []
pauses_from (suc n) from = (1000 * (from + 1)) ∷ pauses_from n (from + 1)

load_attempts-answer :
    (e : Engine) (pids : List String) (t d left attempt : ℕ)
    → t ≡ attempt + d
    → d < left
    → t < 5
    → ((i : ℕ) → i < t → e.list i ≡ none)
    → e.list t ≡ some pids
    → load_attempts e left attempt
      ≡ record { keys = fetch_keys e t pids []; pauses = pauses_from d attempt }
unfolding load_attempts pauses_from
load_attempts-answer e pids t d zero attempt q l b silent said = absurd (omega arith)
load_attempts-answer e pids t zero (suc left) attempt q l b silent said =
    let q' : attempt ≡ t = omega (arith, q) in rw (q', said) refl
load_attempts-answer e pids t (suc d) (suc left) attempt q l b silent said =
    let later =
      load_attempts-answer e pids t d left (attempt + 1) (omega (arith, q)) (omega arith) b silent
        said in
    let n : ltb attempt 4 ≡ true = ground (arith, q) in
    rw (silent attempt (omega (arith, q)), later, n) refl

load_attempts-unreachable :
    (e : Engine)
    → ((i : ℕ) → i < 5 → e.list i ≡ none)
    → load_keys_from_engine e ≡ record { keys = []; pauses = pauses_from 4 0 }
unfolding load_attempts pauses_from
load_attempts-unreachable e silent =
    rw
      (
        silent 0 (omega arith),
        silent 1 (omega arith),
        silent 2 (omega arith),
        silent 3 (omega arith),
        silent 4 (omega arith),
      )
      refl

or_none : (o : Option String) → or_option o none ≡ o
or_none none = refl
or_none (some x) = refl

fetched-lookup :
    (e : Engine) (t : ℕ) (pids : List String) (p : String)
    → lookup p (fetch_keys e t pids []) ≡ engine_key e t pids p
unfolding lookup
fetched-lookup e t pids p = lookup-fetch_keys e t p pids [] ∙ or_none (engine_key e t pids p)

migrated-lookup :
    (p : String) (b : Bool) (keys migrated : Assoc String)
    → lookup p (merge_keys keys (if b then migrated else []))
      ≡ or_option (if b then lookup p migrated else none) (lookup p keys)
unfolding lookup
migrated-lookup p true keys migrated = lookup-merge_keys p keys migrated
migrated-lookup p false keys migrated = lookup-merge_keys p keys []

-- Loading the API keys when the engine answers the attempt of number t, counted from 0, after none
-- before it, and t is below 5. For every provider the key in memory is the one of this session if
-- there is one; else the one of the old local storage if the engine gave no key at all; else
-- the one that the engine has, where secrets of the search are left out and a locked or missing key
-- counts as none. The attempts were made after pauses of 1, 2, ..., t seconds.
pub load_keys-answer :
    (e : Engine) (legacy : LegacyKeys) (session : Assoc String) (t : ℕ) (pids : List String)
    → t < 5
    → ((i : ℕ) → i < t → e.list i ≡ none)
    → e.list t ≡ some pids
    → (p : String)
    → (lookup p (load_keys e legacy session).api_keys
        ≡ or_option (lookup p session) (
            or_option
              (if is_nil (fetch_keys e t pids [])
                then lookup p (migrate_legacy_keys legacy)
                else none)
              (engine_key e t pids p)))
      × ((load_keys e legacy session).pauses ≡ pauses_from t 0)
unfolding load_keys
load_keys-answer e legacy session t pids b silent said p =
    let loaded = load_attempts-answer e pids t t 5 0 (omega arith) b b silent said in
    (
      lookup-merge_keys p _ session
          ∙ rw
              (
                loaded,
                migrated-lookup p (is_nil (fetch_keys e t pids [])) (fetch_keys e t pids [])
                    (migrate_legacy_keys legacy),
                fetched-lookup e t pids p,
              )
              refl,
      rw loaded refl,
    )

-- Loading the API keys when the engine answers none of the five attempts: after pauses of 1, 2, 3
-- and 4 seconds the keys of the old local storage are moved all the same. They are in memory
-- below the keys of this session, the old cell is gone, and what is left of it are calls to the
-- same engine to store them.
pub load_keys-unreachable :
    (e : Engine) (entries : Assoc (Option String)) (session : Assoc String)
    → ((i : ℕ) → i < 5 → e.list i ≡ none)
    → (p : String)
    → (lookup p (load_keys e (holding entries) session).api_keys
        ≡ or_option (lookup p session) (lookup p (legacy_keys entries)))
      × ((load_keys e (holding entries) session).legacy_left ≡ false)
      × ((load_keys e (holding entries) session).puts ≡ legacy_keys entries)
      × ((load_keys e (holding entries) session).pauses ≡ pauses_from 4 0)
unfolding load_keys lookup
load_keys-unreachable e entries session silent p =
    let loaded = load_attempts-unreachable e silent in
    (
      lookup-merge_keys p _ session
          ∙ rw (loaded, lookup-merge_keys p [] (legacy_keys entries))
              (ap (or_option (lookup p session)) (or_none (lookup p (legacy_keys entries)))),
      rw loaded refl,
      rw loaded refl,
      rw loaded refl,
    )
