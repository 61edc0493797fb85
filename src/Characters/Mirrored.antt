-- ===== src/Characters/Mirrored.antt =====
-- The character store refines the engine's table (characterStore.ts).
use encore_hub.Characters.{
  CharacterProfile, CharacterState, Thrown, adopt, character_of, not_loaded, remove_done,
  revision_of, sent_revision,
}
use encore_hub.Characters.Table.{
  ChangeKind, Runs, Served, Table, World, change_failed, change_fails, change_start, change_unknown,
  changes, checked, clears, commit_version, create_branch, create_fails, creates, edited,
  engine_change, here, load_fails, loads, next, remove_fails, removes, restore_version, update,
}
use encore_hub.Shared.{
  Bool-cases, List, Option, String, [], ap, arith, eq_iff, eq_refl, false, if◌then◌else◌, inl, inr,
  is_some, keep, map, none, not, or_else, refl, some, str_eq, sym, ℕ, ◌++◌, ◌==◌, ◌∙◌, ◌∷◌, ◌≡◌,
}

-- The store, read by id, is the table; the order of the list carries no meaning.
abbrev pub Mirrors : World → Type 0
Mirrors w = (k : String) → character_of k w.store.characters ≡ w.table k

character-append :
    (k : String) (c : CharacterProfile) (cs : List CharacterProfile)
    → character_of c.id cs ≡ none
    → character_of k (cs ++ c ∷ []) ≡ (if str_eq c.id k then some c else character_of k cs)
character-append k c [] h = refl
character-append k c (d ∷ cs) h =
    ground (arith, character-append k c cs, eq_iff d.id c.id, eq_iff d.id k, eq_iff c.id k)

character-keep :
    (k id : String) (cs : List CharacterProfile)
    → character_of k (keep (λ c. not (str_eq c.id id)) cs)
      ≡ (if str_eq id k then none else character_of k cs)
character-keep k id [] = ground arith
character-keep k id (d ∷ cs) =
    ground (arith, character-keep k id cs, eq_iff d.id id, eq_iff d.id k, eq_iff id k)

abbrev replaced : String → CharacterProfile → List CharacterProfile → List CharacterProfile
replaced id c = map (λ item. if str_eq item.id id then c else item)

replace_other :
    (k id : String) (c : CharacterProfile) (cs : List CharacterProfile)
    → c.id ≡ id
    → str_eq id k ≡ false
    → character_of k (replaced id c cs) ≡ character_of k cs
replace_other k id c [] e n = refl
replace_other k id c (x ∷ cs) e n = elim (Bool-cases (str_eq x.id id)) [
  | inl y ↦ ground (arith, replace_other k id c cs, eq_iff x.id id, eq_iff x.id k, eq_iff id k, y)
  | inr m ↦ ground (arith, replace_other k id c cs, m)
]

replace_same :
    (id : String) (c d : CharacterProfile) (cs : List CharacterProfile)
    → c.id ≡ id
    → character_of id cs ≡ some d
    → character_of id (replaced id c cs) ≡ some c
replace_same id c d [] e h = cc
replace_same id c d (x ∷ cs) e h = elim (Bool-cases (str_eq x.id id)) [
  | inl y ↦ rw (y, e, eq_refl id) refl
  | inr n ↦ rw (n, n) (replace_same id c d cs e (ground arith))
]

character-replace :
    (k id : String) (c d : CharacterProfile) (cs : List CharacterProfile)
    → c.id ≡ id
    → character_of id cs ≡ some d
    → character_of k (replaced id c cs) ≡ (if str_eq id k then some c else character_of k cs)
character-replace k id c d cs e h = elim (Bool-cases (str_eq id k)) [
  | inl y ↦ let same : id ≡ k = (eq_iff id k).0 y in rw (y, ← same) (replace_same id c d cs e h)
  | inr n ↦ rw (n, replace_other k id c cs e n) refl
]

revision_of-some :
    (o : Option CharacterProfile) (r : ℕ)
    → revision_of o ≡ some r
    → (d : CharacterProfile) × (o ≡ some d)
revision_of-some none r e = cc
revision_of-some (some d) r e = (d, refl)

checked-id :
    (r : ℕ) (edit : CharacterProfile → CharacterProfile) (id : String) (o : Option CharacterProfile)
    (c : CharacterProfile)
    → checked r edit id o ≡ some c
    → c.id ≡ id
checked-id r edit id none c e = cc
checked-id r edit id (some d) c e = elim (Bool-cases (d.revision == r)) [
  | inl y ↦
      let q : checked r edit id (some d) ≡ some (edited id r edit d) = rw y refl in
      ap (λ (o : Option CharacterProfile). (or_else o d).id) (sym e ∙ q)
  | inr n ↦ absurd (ground (arith, n, e))
]

not_loaded-characters :
    (o : Option ℕ) (s : CharacterState) → (not_loaded o s).characters ≡ s.characters
not_loaded-characters none s = refl
not_loaded-characters (some r) s = refl

change_start-characters :
    (kind : ChangeKind) (id : String) (s : CharacterState)
    → (change_start kind id s).characters ≡ s.characters
change_start-characters update id s = not_loaded-characters (sent_revision id s) s
change_start-characters commit_version id s = refl
change_start-characters create_branch id s = refl
change_start-characters restore_version id s = refl

change_failed-characters :
    (kind : ChangeKind) (e : Thrown) (s : CharacterState)
    → (change_failed kind e s).characters ≡ s.characters
change_failed-characters update e s = refl
change_failed-characters commit_version e s = refl
change_failed-characters create_branch e s = refl
change_failed-characters restore_version e s = refl

Served-Mirrors : {w v : World} → Served w v → Mirrors w → Mirrors v
unfolding adopt remove_done
Served-Mirrors (loads w cs h) m = h
Served-Mirrors (load_fails w e) m = m
Served-Mirrors (creates w c f) m = λ k.
    character-append k c w.store.characters (m c.id ∙ f)
    ∙ ap (λ o. if str_eq c.id k then some c else o) (m k)
Served-Mirrors (create_fails w e) m = m
Served-Mirrors (changes w kind id edit r c s e) m =
    let (d, found) = revision_of-some (character_of id w.store.characters) r s in
    λ k.
      character-replace k id c d w.store.characters (checked-id r edit id (w.table id) c e) found
      ∙ ap (λ o. if str_eq id k then some c else o) (m k)
Served-Mirrors (change_unknown w kind id s) m =
    λ k. ap (character_of k) (change_start-characters kind id w.store) ∙ m k
Served-Mirrors (change_fails w kind e) m =
    λ k. ap (character_of k) (change_failed-characters kind e w.store) ∙ m k
Served-Mirrors (removes w id) m =
    λ k. character-keep k id w.store.characters ∙ ap (λ o. if str_eq id k then none else o) (m k)
Served-Mirrors (remove_fails w e) m = m
Served-Mirrors (clears w) m = m

Runs-Mirrors : {w v : World} → Runs w v → Mirrors w → Mirrors v
Runs-Mirrors here m = m
Runs-Mirrors (next r s) m = Served-Mirrors s (Runs-Mirrors r m)

-- The change that the store asks for: with the revision that it sends, if it sends one.
abbrev pub asked :
    Option ℕ → String → (CharacterProfile → CharacterProfile) → Table → Option CharacterProfile
asked none id edit table = none
asked (some r) id edit table = engine_change id r edit table

checked-own :
    (edit : CharacterProfile → CharacterProfile) (id : String) (o : Option CharacterProfile)
    (table : Table)
    → table id ≡ o
    → is_some (asked (revision_of o) id edit table) ≡ is_some o
checked-own edit id none table e = refl
checked-own edit id (some c) table e = rw e (ground arith)

-- The character store implements the engine's table. From any moment at which the list holds the
-- rows of the table, let the store run any loads, creations, changes and removals, one after the
-- other, each answered or failed. Then every id has in the store the row that the table has, and a
-- change of it that the store asks for next names the revision that the table expects: it is
-- turned down only where the table has no such row.
pub Runs-refines :
    {w v : World}
    → Mirrors w
    → Runs w v
    → (id : String) (edit : CharacterProfile → CharacterProfile)
    → (character_of id v.store.characters ≡ v.table id)
      × (is_some (asked (sent_revision id v.store) id edit v.table) ≡ is_some (v.table id))
Runs-refines {w} {v} m r id edit =
    let mirrored = Runs-Mirrors r m id in
    (
      mirrored,
      ap (λ o. is_some (asked (revision_of o) id edit v.table)) mirrored
          ∙ checked-own edit id (v.table id) v.table refl,
    )
