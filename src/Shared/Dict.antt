-- ===== src/Shared/Dict.antt =====
-- A JavaScript object used as a dictionary (`Record<string, V>`), as an association list. The
-- program reads such objects by key alone, so the order of the entries carries no meaning.
use Prim.Native.String.{String}
use mathlib.Core.Path.{◌≡◌, refl, subst}
use mathlib.Core.Logic.{inl, inr}
use mathlib.Core.Bool.{Bool, true, false, ◌||◌}
use mathlib.Core.List.{List, [], ◌∷◌}
use mathlib.Core.Option.{Option, none, some}
use native.Mathlib.Omega.{arith}
use text.Mathlib.Text.{◌==◌ as str_eq}
use text.Mathlib.TextEquality.{eq_iff}
use encore_hub.Shared.Tests.{if◌then◌else◌, Bool-cases}

abbrev pub Assoc {ℓ} : Type ℓ → Type ℓ
Assoc V = List (String × V)

module _ {ℓ} {V : Type ℓ} where
  -- d[k]
  unfoldable pub lookup : String → Assoc V → Option V
  lookup k [] = none
  lookup k ((j, v) ∷ d) = if str_eq j k then some v else lookup k d

  -- { ...d, [k]: v }
  unfoldable pub insert : String → V → Assoc V → Assoc V
  insert k v [] = (k, v) ∷ []
  insert k v ((j, w) ∷ d) = if str_eq j k then (k, v) ∷ d else (j, w) ∷ insert k v d

  -- delete d[k]
  unfoldable pub remove : String → Assoc V → Assoc V
  remove k [] = []
  remove k ((j, v) ∷ d) = let rest = remove k d in if str_eq j k then rest else (j, v) ∷ rest

  pub lookup-insert :
      (k j : String) (v : V) (d : Assoc V)
      → lookup j (insert k v d) ≡ (if str_eq k j then some v else lookup j d)
  unfolding lookup insert
  lookup-insert k j v [] = refl
  lookup-insert k j v ((i, w) ∷ d) =
      ground (arith, eq_iff k j, eq_iff i k, eq_iff i j, lookup-insert k j v d)

  pub lookup-remove :
      (k j : String) (d : Assoc V)
      → lookup j (remove k d) ≡ (if str_eq k j then none else lookup j d)
  unfolding lookup remove
  lookup-remove k j [] = ground arith
  lookup-remove k j ((i, v) ∷ d) =
      ground (arith, lookup-remove k j d, eq_iff i k, eq_iff i j, eq_iff k j)

-- A `Set<string>`, or an object used as one (`Record<string, true>`).
abbrev pub mem : String → List String → Bool
mem k [] = false
mem k (j ∷ d) = str_eq j k || mem k d

unfoldable pub add : String → List String → List String
add k d = if mem k d then d else k ∷ d

unfoldable pub without : String → List String → List String
without k [] = []
without k (j ∷ d) = let rest = without k d in if str_eq j k then rest else j ∷ rest

pub mem-add : (k j : String) (d : List String) → mem j (add k d) ≡ (str_eq k j || mem j d)
unfolding add
mem-add k j d = elim (Bool-cases (mem k d)) [
  | inl h ↦ elim (Bool-cases (str_eq k j)) [
    | inl e ↦ rw (h, e) (subst (λ i. mem i d ≡ true) ((eq_iff k j).0 e) h)
    | inr n ↦ rw (h, n)
  ]
  | inr h ↦ rw h
]

pub mem-without :
    (k j : String) (d : List String) → mem j (without k d) ≡ (if str_eq k j then false else mem j d)
unfolding without
mem-without k j [] = ground arith
mem-without k j (i ∷ d) = ground (arith, mem-without k j d, eq_iff i k, eq_iff i j, eq_iff k j)

pub ruleset dict_laws = (lookup-insert, lookup-remove, mem-add, mem-without)
