-- ===== src/ToolProtocol/Ends.antt =====
-- The loop that takes DSML blocks out of a message ends, with no complete block left
-- (conversation.ts).
use text.Mathlib.TextLemmas.{cons-append, nil-append}
use Prim.Native.Char.{code}
use Prim.Native.String.{◌++◌ as str_append}
use encore_hub.Chat.Frames.{after_prefix, chars}
use encore_hub.Shared.{
  All, Bool-cases, List, Option, Option-cases, String, [], ap, arith, inl, inr, is_empty, ltb, none,
  refl, some, subst, suc, trim_end, trim_start, zero, ℕ, ◌+◌, ◌<◌, ◌==◌, ◌∙◌, ◌∷◌, ◌≡◌, ◌≤◌,
}
use encore_hub.ToolProtocol.{
  Around, clean_loop, cut_at, dsml_tool_call_markers, earlier, ended, find_block, find_kind,
  found_at, found_here, join_around, next_round, started, without_block,
}

after_prefix-chars : (p s r : String) → after_prefix p s ≡ some r → chars s ≡ chars p + chars r
unfolding after_prefix chars
after_prefix-chars String.[] s r e = ground arith
after_prefix-chars (String.◌∷◌ p ps) String.[] r e = cc
after_prefix-chars (String.◌∷◌ p ps) (String.◌∷◌ c s) r e = elim (Bool-cases (code p == code c)) [
  | inl y ↦ ground (arith, after_prefix-chars ps s r)
  | inr n ↦ ground arith
]

cut_at-chars :
    (needle s b a : String)
    → cut_at needle s ≡ some (b, a)
    → chars s ≡ chars b + chars needle + chars a
unfolding cut_at chars
cut_at-chars needle String.[] b a e =
    here (after_prefix needle String.[]) e (after_prefix-chars needle String.[])
  where
    here :
        (o : Option String)
        → found_here o ≡ some (b, a)
        → ((r : String) → o ≡ some r → 0 ≡ chars needle + chars r)
        → 0 ≡ chars b + chars needle + chars a
    here none e' h = cc
    here (some r) e' h =
        let eb : String.[] ≡ b = cc in
        let ea : r ≡ a = cc in rw (← eb, ← ea) (omega (arith, h r refl))
cut_at-chars needle (String.◌∷◌ c s) b a e =
    there (after_prefix needle (String.◌∷◌ c s)) (cut_at needle s) e
      (after_prefix-chars needle (String.◌∷◌ c s)) (cut_at-chars needle s)
  where
    there :
        (o : Option String) (later : Option (String × String))
        → found_at o c later ≡ some (b, a)
        → ((r : String) → o ≡ some r → suc (chars s) ≡ chars needle + chars r)
        → ((b' a' : String) → later ≡ some (b', a') → chars s ≡ chars b' + chars needle + chars a')
        → suc (chars s) ≡ chars b + chars needle + chars a
    there (some r) later e' h k =
        let eb : String.[] ≡ b = cc in
        let ea : r ≡ a = cc in rw (← eb, ← ea) (omega (arith, h r refl))
    there none none e' h k = cc
    there none (some (b', a')) e' h k =
        let eb : String.◌∷◌ c b' ≡ b = cc in
        let ea : a' ≡ a = cc in rw (← eb, ← ea) (omega (arith, k b' a' refl))

find_kind-chars :
    (s : String) (kind : String × String) (b a : String)
    → find_kind s kind ≡ some (b, a)
    → chars b + chars a + (chars kind.0 + chars kind.1) ≤ chars s
unfolding find_kind
find_kind-chars s (start, end) b a e = first (cut_at start s) e (cut_at-chars start s)
  where
    second :
        (before rest : String) (o : Option (String × String))
        → ended before o ≡ some (b, a)
        → ((i r : String) → o ≡ some (i, r) → chars rest ≡ chars i + chars end + chars r)
        → chars b + chars a + chars end ≤ chars before + chars rest
    second before rest none e' h = cc
    second before rest (some (i, r)) e' h =
        let eb : before ≡ b = cc in
        let ea : r ≡ a = cc in rw (← eb, ← ea) (omega (arith, h i r refl))

    first :
        (o : Option (String × String))
        → started end o ≡ some (b, a)
        → ((x y : String) → o ≡ some (x, y) → chars s ≡ chars x + chars start + chars y)
        → chars b + chars a + (chars start + chars end) ≤ chars s
    first none e' h = cc
    first (some (x, y)) e' h =
        omega (arith, h x y refl, second x y (cut_at end y) e' (cut_at-chars end y))

-- A block that was found takes at least two code points.
IsBlock : String → Option Around → Type 0
IsBlock s none = Unit
IsBlock s (some (b, a)) = chars b + chars a + 2 ≤ chars s

IsBlock-earlier :
    (s : String) (o p : Option Around) → IsBlock s o → IsBlock s p → IsBlock s (earlier o p)
unfolding IsBlock
IsBlock-earlier s o none h k = h
IsBlock-earlier s none (some c) h k = k
IsBlock-earlier s (some b) (some c) h k = elim (Bool-cases (ltb (chars c.0) (chars b.0))) [
  | inl y ↦ rw y k
  | inr n ↦ rw n h
]

IsBlock-kind :
    (s : String) (kind : String × String) (o : Option Around)
    → 2 ≤ chars kind.0 + chars kind.1
    → find_kind s kind ≡ o
    → IsBlock s o
unfolding IsBlock
IsBlock-kind s kind none h e = tt
IsBlock-kind s kind (some (b, a)) h e = omega (arith, find_kind-chars s kind b a e)

find_block-IsBlock :
    (s : String) (best : Option Around) (kinds : List (String × String))
    → All (λ kind. 2 ≤ chars kind.0 + chars kind.1) kinds
    → IsBlock s best
    → IsBlock s (find_block s best kinds)
unfolding find_block
find_block-IsBlock s best [] k h = h
find_block-IsBlock s best (kind ∷ kinds) k h =
    find_block-IsBlock s (earlier best (find_kind s kind)) kinds k.1 (
      IsBlock-earlier s best (find_kind s kind) h (IsBlock-kind s kind (find_kind s kind) k.0 refl))

chars-append : (s t : String) → chars (str_append s t) ≡ chars s + chars t
unfolding chars
chars-append String.[] t = ap chars (nil-append t) ∙ omega arith
chars-append (String.◌∷◌ c s) t = ap chars (cons-append c s t) ∙ omega (arith, chars-append s t)

chars-trim_start : (s : String) → chars (trim_start s) ≤ chars s
unfolding trim_start chars
chars-trim_start String.[] = omega arith
chars-trim_start (String.◌∷◌ c s) = ground (arith, chars-trim_start s)

chars-trim_end : (s : String) → chars (trim_end s) ≤ chars s
unfolding trim_end chars
chars-trim_end String.[] = omega arith
chars-trim_end (String.◌∷◌ c s) = ground (arith, chars-trim_end s)

chars_newline : chars "\n" ≡ 1
unfolding chars
chars_newline = refl

chars-join :
    (before after : String) → chars (join_around before after) ≤ chars before + 1 + chars after
chars-join before after = elim (Bool-cases (is_empty before)) [
  | inl y ↦ rw y (omega arith)
  | inr n ↦ elim (Bool-cases (is_empty after)) [
    | inl y ↦ rw (n, y) (omega arith)
    | inr m ↦
        rw (n, m)
          (omega (
            arith,
            chars-append before (str_append "\n" after),
            chars-append "\n" after,
            chars_newline,
          ))
  ]
]

markers_long : All (λ kind. 2 ≤ chars kind.0 + chars kind.1) dsml_tool_call_markers
unfolding chars
markers_long = omega arith

block_shorter :
    (s : String) (around : Around)
    → find_block s none dsml_tool_call_markers ≡ some around
    → chars (without_block around) < chars s
unfolding IsBlock
block_shorter s (before, after) e =
    let found : IsBlock s (some (before, after)) =
      subst (IsBlock s) e (find_block-IsBlock s none dsml_tool_call_markers markers_long tt) in
    omega (
      arith,
      found,
      chars-join (trim_end before) (trim_start after),
      chars-trim_end before,
      chars-trim_start after,
    )

clean_loop-done :
    (fuel : ℕ) (s : String)
    → find_block s none dsml_tool_call_markers ≡ none
    → clean_loop fuel s ≡ s
unfolding clean_loop
clean_loop-done zero s e = refl
clean_loop-done (suc fuel) s e = ap (λ o. next_round o s (clean_loop fuel)) e

clean_loop-more :
    (fuel : ℕ) (s : String) (around : Around)
    → find_block s none dsml_tool_call_markers ≡ some around
    → clean_loop (suc fuel) s ≡ clean_loop fuel (without_block around)
unfolding clean_loop
clean_loop-more fuel s around e = ap (λ o. next_round o s (clean_loop fuel)) e

no_block : (s : String) → chars s ≤ 0 → find_block s none dsml_tool_call_markers ≡ none
no_block s l = elim (Option-cases (find_block s none dsml_tool_call_markers)) [
  | inl e ↦ e
  | inr (around, e) ↦ absurd (omega (arith, block_shorter s around e))
]

-- Two amounts of fuel that are both enough.
rounds :
    (n m : ℕ) (s : String)
    → chars s ≤ n
    → chars s ≤ m
    → (find_block (clean_loop n s) none dsml_tool_call_markers ≡ none)
      × (clean_loop n s ≡ clean_loop m s)
      × (chars (clean_loop n s) ≤ chars s)
rounds zero m s ln lm =
    let e = no_block s (omega arith) in
    rw (clean_loop-done zero s e, clean_loop-done m s e) (e, refl, omega arith)
rounds (suc n) zero s ln lm =
    let e = no_block s (omega arith) in
    rw (clean_loop-done (suc n) s e, clean_loop-done zero s e) (e, refl, omega arith)
rounds (suc n) (suc m) s ln lm = elim (Option-cases (find_block s none dsml_tool_call_markers)) [
  | inl e ↦ rw (clean_loop-done (suc n) s e, clean_loop-done (suc m) s e) (e, refl, omega arith)
  | inr (around, e) ↦
      let short = block_shorter s around e in
      let rest = rounds n m (without_block around) (omega arith) (omega arith) in
      rw (clean_loop-more n s around e, clean_loop-more m s around e) (rest.0, rest.1, omega arith)
]

-- The loop of cleanToolProtocol ends on every text. It makes at most as many rounds as the text
-- has code points: with that many or more it always gives the same text, in which no complete block
-- of any of the nine kinds is left, and which is no longer than the text it began with.
pub clean_loop-ends :
    (fuel : ℕ) (s : String)
    → chars s ≤ fuel
    → (find_block (clean_loop fuel s) none dsml_tool_call_markers ≡ none)
      × (clean_loop fuel s ≡ clean_loop (chars s) s)
      × (chars (clean_loop fuel s) ≤ chars s)
clean_loop-ends fuel s l = rounds fuel (chars s) s l (omega arith)
