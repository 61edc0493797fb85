-- ===== src/Characters/Tests.antt =====
-- A character that is made, renamed and read back.
use encore_hub.Characters.{
  CharacterProfile, adopt, character_of, create_done, initial_characters, sent_revision,
}
use encore_hub.Characters.Mirrored.{Runs-refines, asked}
use encore_hub.Characters.Table.{World, changes, creates, edited, here, next, set_row, update}
use encore_hub.Models.{CharacterSnapshot}
use encore_hub.Shared.{String, is_some, none, refl, some, true, ◌≡◌}

abbrev plain : String → CharacterSnapshot
plain name = record { name = name; description = ""; system_prompt = "" }

abbrev ada : CharacterProfile
ada = record {
  id = "c1";
  snapshot = plain "Ada";
  version = 1;
  revision = 1;
  active_branch = "main";
}

abbrev rename : CharacterProfile → CharacterProfile
rename c = record c { snapshot = plain "Ada L." }

abbrev empty : World
empty = record { store = initial_characters; table = λ k. none }

abbrev with_ada : World
with_ada = record {
  store = create_done ada empty.store;
  table = set_row "c1" (some ada) empty.table;
}

abbrev renamed_ada : CharacterProfile
renamed_ada = edited "c1" 1 rename ada

abbrev with_renamed : World
with_renamed = record {
  store = adopt "c1" renamed_ada with_ada.store;
  table = set_row "c1" (some renamed_ada) with_ada.table;
}

Runs-refines_example :
    (character_of "c1" with_renamed.store.characters ≡ with_renamed.table "c1")
    × (is_some (asked (sent_revision "c1" with_renamed.store) "c1" rename with_renamed.table)
        ≡ is_some (with_renamed.table "c1"))
Runs-refines_example =
    Runs-refines {w = empty} {v = with_renamed} (λ k. refl)
      (next (next here (creates empty ada refl))
        (changes with_ada update "c1" rename 1 renamed_ada refl refl))
      "c1" rename

-- A character that is made before the list was loaded marks the list as loaded.
create_before_load : (c : CharacterProfile) → (create_done c initial_characters).is_loaded ≡ true
create_before_load c = refl
