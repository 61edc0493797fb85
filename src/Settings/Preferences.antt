-- ===== src/Settings/Preferences.antt =====
-- frontend/src/stores/settingsStore.ts: the ordered lists of preferences, that is the rows of the
-- context menu and the metrics of the context meter. The source writes each function twice, once
-- for each kind of id; here they are written once over the kind.
pub mod Normalized
pub mod Moved
pub mod Reload
use encore_hub.Shared.{
  ℕ, suc, String, ◌≡◌, Bool, true, false, not, ◌||◌, Option, none, some, List, [], ◌∷◌, ◌++◌, map,
  keep, find, find_index, get_elem?, take, drop, mem, or_else, str_eq, if◌then◌else◌,
}

pub record Preference (I : Type 0) : Type 0 where
  pub id : I
  pub visible : Bool

-- The ids of one kind of row: the text that stands for an id, and the rows of a fresh install.
pub record Registry (I : Type 0) : Type 0 where
  pub name : I → String
  pub defaults : List (Preference I)

-- An entry of a parsed array, as the code looks at it: not an object, or an object with its `id`
-- if that is a text and its `visible` if that is a Boolean.
pub data Candidate : Type 0 where
  other : Candidate
  object : Option String → Option Bool → Candidate

-- The loop over the candidates: `seen` and `normalized`.
pub record Scan (I : Type 0) : Type 0 where
  pub seen : List String
  pub normalized : List (Preference I)

module _ {I : Type 0} (R : Registry I) where
  abbrev pub row_name : Preference I → String
  row_name p = R.name p.id

  abbrev pub names : List (Preference I) → List String
  names = map row_name

  -- `item.id === id`
  abbrev pub is_row : I → Preference I → Bool
  is_row i p = str_eq (row_name p) (R.name i)

  -- `defaults.get(id)`
  abbrev pub known : String → Option (Preference I)
  known s = find (λ p. str_eq (row_name p) s) R.defaults

  abbrev pub accept : Scan I → String → Option Bool → Option (Preference I) → Scan I
  accept s k v none = s
  accept s k v (some p) = if mem k s.seen then s else record {
    seen = k ∷ s.seen;
    normalized = s.normalized ++ record { id = p.id; visible = or_else v p.visible } ∷ [];
  }

  abbrev pub scan : Scan I → Candidate → Scan I
  scan s other = s
  scan s (object none v) = s
  scan s (object (some k) v) = accept s k v (known k)

  pub scan_all : Scan I → List Candidate → Scan I
  scan_all s [] = s
  scan_all s (c ∷ cs) = scan_all (scan s c) cs

  abbrev pub append_missing : Scan I → List (Preference I)
  append_missing s = s.normalized ++ keep (λ p. not (mem (row_name p) s.seen)) R.defaults

  -- none stands for a value that is not an array.
  unfoldable pub normalize : Option (List Candidate) → List (Preference I)
  unfolding scan_all
  normalize none = R.defaults
  normalize (some cs) = append_missing (scan_all (record { seen = []; normalized = [] }) cs)

  -- What `JSON.parse` reads of what `JSON.stringify` wrote.
  abbrev pub written : List (Preference I) → List Candidate
  written = map (λ p. object (some (row_name p)) (some p.visible))

  abbrev pub set_visible : I → Bool → List (Preference I) → List (Preference I)
  set_visible i v = map (λ p. if is_row i p then record p { visible = v } else p)

  -- `items.splice(i, 1)` and `items.splice(i, 0, x)`
  abbrev pub remove_at : ℕ → List (Preference I) → List (Preference I)
  remove_at i items = take i items ++ drop (suc i) items

  abbrev pub insert_at : ℕ → Preference I → List (Preference I) → List (Preference I)
  insert_at i x items = take i items ++ x ∷ drop i items

  abbrev pub splice : Option ℕ → Option ℕ → List (Preference I) → Option (List (Preference I))
  splice none t items = none
  splice (some i) none items = none
  splice (some i) (some t) items = elim (get_elem? items i) [
    | none ↦ none
    | some moving ↦ some (insert_at t moving (remove_at i items))
  ]

  -- none where the operation returns without a change.
  unfoldable pub move : I → I → List (Preference I) → Option (List (Preference I))
  move i target items =
      if str_eq (R.name i) (R.name target)
      then none
      else splice (find_index (is_row i) items) (find_index (is_row target) items) items
