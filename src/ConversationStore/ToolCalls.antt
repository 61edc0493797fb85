-- ===== src/ConversationStore/ToolCalls.antt =====
-- Tool calls that arrive in fragments (`onToolCall` of conversationStore.ts).
use Prim.Native.String
use text.Mathlib.TextLemmas
use encore_hub.Shared.{
  ℕ, String, Bool-cases, false, any, ◌≡◌, ◌∙◌, sym, refl, inl, inr, List, [], ◌∷◌, or_else, ◌==◌,
  if◌then◌else◌, arith,
}
use encore_hub.Models.{StreamToolCall}
use encore_hub.ConversationStore.Turn.{ToolFragment, apply_fragment}

-- No two calls have one index.
abbrev pub HasDistinctIndices : List StreamToolCall → Type 0
HasDistinctIndices [] = Unit
HasDistinctIndices (c ∷ cs) = (any (λ d. d.index == c.index) cs ≡ false) × HasDistinctIndices cs

-- The indices of the list after a fragment are those before and the fragment's own.
any-apply_fragment :
    (i : ℕ) (cs : List StreamToolCall) (f : ToolFragment)
    → (f.index == i) ≡ false
    → any (λ d. d.index == i) (apply_fragment cs f) ≡ any (λ d. d.index == i) cs
unfolding apply_fragment
any-apply_fragment i [] f h = ground arith
any-apply_fragment i (c ∷ cs) f h = ground (arith, any-apply_fragment i cs f h)

apply_fragment-HasDistinctIndices :
    (cs : List StreamToolCall) (f : ToolFragment)
    → HasDistinctIndices cs
    → HasDistinctIndices (apply_fragment cs f)
unfolding apply_fragment
apply_fragment-HasDistinctIndices [] f d = (refl, tt)
apply_fragment-HasDistinctIndices (c ∷ cs) f (fresh, d) = elim (Bool-cases (c.index == f.index)) [
  | inl y ↦ rw y (fresh, d)
  | inr n ↦ rw n (
    any-apply_fragment c.index cs f (ground arith) ∙ fresh,
    apply_fragment-HasDistinctIndices cs f d,
  )
]

-- The arguments of the call with an index, empty if there is none.
abbrev pub arguments_at : ℕ → List StreamToolCall → String
arguments_at i [] = ""
arguments_at i (c ∷ cs) = let rest = arguments_at i cs in if c.index == i then c.arguments else rest

-- The fragments of one call, joined in the order of their arrival.
abbrev pub joined_at : ℕ → List ToolFragment → String
joined_at i [] = ""
joined_at i (f ∷ fs) =
    let rest = joined_at i fs in
    if f.index == i then String.◌++◌ (or_else f.arguments "") rest else rest

abbrev pub receive : List StreamToolCall → List ToolFragment → List StreamToolCall
receive cs [] = cs
receive cs (f ∷ fs) = receive (apply_fragment cs f) fs

arguments_at-apply_fragment :
    (i : ℕ) (cs : List StreamToolCall) (f : ToolFragment)
    → arguments_at i (apply_fragment cs f) ≡ (
        if f.index == i
        then String.◌++◌ (arguments_at i cs) (or_else f.arguments "")
        else arguments_at i cs)
unfolding apply_fragment
arguments_at-apply_fragment i [] f = ground (arith, TextLemmas.nil-append (or_else f.arguments ""))
arguments_at-apply_fragment i (c ∷ cs) f = ground (arith, arguments_at-apply_fragment i cs f)

arguments_at-receive :
    (i : ℕ) (cs : List StreamToolCall) (fs : List ToolFragment)
    → arguments_at i (receive cs fs) ≡ String.◌++◌ (arguments_at i cs) (joined_at i fs)
arguments_at-receive i cs [] = sym (TextLemmas.append-nil (arguments_at i cs))
arguments_at-receive i cs (f ∷ fs) =
    arguments_at-receive i (apply_fragment cs f) fs
    ∙ ground (
      arith,
      arguments_at-apply_fragment i cs f,
      TextLemmas.append_assoc (arguments_at i cs) (or_else f.arguments "") (joined_at i fs),
    )

receive-HasDistinctIndices :
    (cs : List StreamToolCall) (fs : List ToolFragment)
    → HasDistinctIndices cs
    → HasDistinctIndices (receive cs fs)
receive-HasDistinctIndices cs [] d = d
receive-HasDistinctIndices cs (f ∷ fs) d =
    receive-HasDistinctIndices (apply_fragment cs f) fs (apply_fragment-HasDistinctIndices cs f d)

-- Where no two tool calls have one index, and whatever the order in which the fragments of several
-- calls interleave, no two calls have one index after them, and the arguments of each call are
-- those it had before, followed by its own fragments in the order of their arrival.
pub receive_lem :
    (i : ℕ) (cs : List StreamToolCall) (fs : List ToolFragment)
    → HasDistinctIndices cs
    → HasDistinctIndices (receive cs fs)
      × (arguments_at i (receive cs fs) ≡ String.◌++◌ (arguments_at i cs) (joined_at i fs))
receive_lem i cs fs d = (receive-HasDistinctIndices cs fs d, arguments_at-receive i cs fs)
