-- ===== src/Characters/Table.antt =====
-- What the engine promises of its table of characters, as far as the store depends on it, and the
-- runs of the store (characterStore.ts) against it. A profile has one row for its id; a change is
-- made only if it names the revision of the row, and counts the revision up.
use encore_hub.Characters.{
  CharacterProfile, CharacterState, Thrown, adopt, character_of, clear_failure, create_done,
  create_failed, load_done, load_failed, load_start, remove_done, remove_failed, sent_revision,
  update_failed, update_start,
}
use encore_hub.Shared.{List, Option, String, if◌then◌else◌, none, some, str_eq, ℕ, ◌+◌, ◌==◌, ◌≡◌}

abbrev pub Table : Type 0
Table = String → Option CharacterProfile

abbrev pub set_row : String → Option CharacterProfile → Table → Table
set_row id row table k = if str_eq id k then row else table k

-- The row after a change to the row of a given id and revision.
abbrev pub edited :
    String → ℕ → (CharacterProfile → CharacterProfile) → CharacterProfile → CharacterProfile
edited id revision edit c = record (edit c) { id = id; revision = revision + 1 }

-- The engine's check of the expected revision.
abbrev pub checked :
    ℕ
    → (CharacterProfile → CharacterProfile)
    → String
    → Option CharacterProfile
    → Option CharacterProfile
checked expected edit id none = none
checked expected edit id (some c) =
    if c.revision == expected then some (edited id expected edit c) else none

abbrev pub engine_change :
    String → ℕ → (CharacterProfile → CharacterProfile) → Table → Option CharacterProfile
engine_change id expected edit table = checked expected edit id (table id)

pub record World : Type 0 where
  pub store : CharacterState
  pub table : Table

-- The four calls that change a character; only `update` puts a failure into the state.
pub data ChangeKind : Type 0 where
  update commit_version create_branch restore_version : ChangeKind

abbrev pub change_start : ChangeKind → String → CharacterState → CharacterState
change_start update id s = update_start id s
change_start _ id s = s

abbrev pub change_failed : ChangeKind → Thrown → CharacterState → CharacterState
change_failed update e s = update_failed e s
change_failed _ e s = s

-- One action of the store from its start to its end, with what the engine answers. The store does
-- not start the next one before: overlapping changes of one character send the same revision.
pub data Served : World → World → Type 0 where
  loads :
      (w : World) (cs : List CharacterProfile)
      → ((k : String) → character_of k cs ≡ w.table k)
      → Served w (record w { store = load_done cs (load_start w.store) })
  load_fails :
      (w : World) (e : Thrown) → Served w (record w { store = load_failed e (load_start w.store) })
  creates :
      (w : World) (c : CharacterProfile)
      → w.table c.id ≡ none
      → Served w (record { store = create_done c w.store; table = set_row c.id (some c) w.table })
  create_fails : (w : World) (e : Thrown) → Served w (record w { store = create_failed e w.store })
  changes :
      (w : World) (kind : ChangeKind) (id : String) (edit : CharacterProfile → CharacterProfile)
      (r : ℕ) (c : CharacterProfile)
      → sent_revision id w.store ≡ some r
      → engine_change id r edit w.table ≡ some c
      → Served w (record { store = adopt id c w.store; table = set_row id (some c) w.table })
  change_unknown :
      (w : World) (kind : ChangeKind) (id : String)
      → sent_revision id w.store ≡ none
      → Served w (record w { store = change_start kind id w.store })
  change_fails :
      (w : World) (kind : ChangeKind) (e : Thrown)
      → Served w (record w { store = change_failed kind e w.store })
  removes :
      (w : World) (id : String)
      → Served w (record { store = remove_done id w.store; table = set_row id none w.table })
  remove_fails : (w : World) (e : Thrown) → Served w (record w { store = remove_failed e w.store })
  clears : (w : World) → Served w (record w { store = clear_failure w.store })

pub data Runs (w : World) : World → Type 0 where
  here : Runs w w
  next : {u v : World} → Runs w u → Served u v → Runs w v
