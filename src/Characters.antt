-- ===== src/Characters.antt =====
-- frontend/src/stores/characterStore.ts: the characters and the calls that change them. A handler
-- that awaits is cut in two at the call; of a profile the fields are kept that the store or the
-- engine's check reads, and the text of the character.
pub mod Table
pub mod Mirrored
mod Tests
use encore_hub.Models.{CharacterSnapshot}
use encore_hub.Shared.{
  Bool, List, Option, String, [], false, find, if◌then◌else◌, keep, map, none, not, some, str_eq,
  true, ℕ, ◌++◌, ◌∷◌,
}

pub record CharacterProfile : Type 0 where
  pub id : String
  pub snapshot : CharacterSnapshot
  pub version : ℕ
  pub revision : ℕ
  pub active_branch : String

-- What a promise was rejected with: an Error with its message, or any other value.
pub data Thrown : Type 0 where
  error_value : String → Thrown
  other_value : Thrown

pub record CharacterState : Type 0 where
  pub characters : List CharacterProfile
  pub is_loading : Bool
  pub is_loaded : Bool
  pub failure : Option String

abbrev pub initial_characters : CharacterState
initial_characters = record {
  characters = [];
  is_loading = false;
  is_loaded = false;
  failure = none;
}

abbrev pub error_message : Thrown → String → String
error_message (error_value message) fallback = message
error_message other_value fallback = fallback

abbrev pub load_start : CharacterState → CharacterState
load_start s = record s { is_loading = true; failure = none }

abbrev pub load_done : List CharacterProfile → CharacterState → CharacterState
load_done cs s = record s { characters = cs; is_loading = false; is_loaded = true }

abbrev pub load_failed : Thrown → CharacterState → CharacterState
load_failed e s = record s {
  is_loading = false;
  failure = some (error_message e "Failed to load characters");
}

abbrev pub create_done : CharacterProfile → CharacterState → CharacterState
create_done c s = record s { characters = s.characters ++ c ∷ []; is_loaded = true; failure = none }

abbrev pub create_failed : Thrown → CharacterState → CharacterState
create_failed e s = record s { failure = some (error_message e "Failed to create character") }

-- `characters.find((character) => character.id === id)`
abbrev pub character_of : String → List CharacterProfile → Option CharacterProfile
character_of id = find (λ c. str_eq c.id id)

abbrev pub revision_of : Option CharacterProfile → Option ℕ
revision_of none = none
revision_of (some c) = some c.revision

abbrev pub not_loaded : Option ℕ → CharacterState → CharacterState
not_loaded none s = record s { failure = some "Character is not loaded" }
not_loaded (some r) s = s

-- The revision that the call sends; none where the handler throws before the call.
abbrev pub sent_revision : String → CharacterState → Option ℕ
sent_revision id s = revision_of (character_of id s.characters)

abbrev pub update_start : String → CharacterState → CharacterState
update_start id s = not_loaded (sent_revision id s) s

-- The stretch after the call, the same in update, commitVersion, createBranch and restoreVersion.
unfoldable pub adopt : String → CharacterProfile → CharacterState → CharacterState
adopt id c s = record s {
  characters = map (λ item. if str_eq item.id id then c else item) s.characters;
  failure = none;
}

abbrev pub update_failed : Thrown → CharacterState → CharacterState
update_failed e s = record s { failure = some (error_message e "Failed to update character") }

unfoldable pub remove_done : String → CharacterState → CharacterState
remove_done id s = record s {
  characters = keep (λ c. not (str_eq c.id id)) s.characters;
  failure = none;
}

abbrev pub remove_failed : Thrown → CharacterState → CharacterState
remove_failed e s = record s { failure = some (error_message e "Failed to delete character") }

abbrev pub clear_failure : CharacterState → CharacterState
clear_failure s = record s { failure = none }
