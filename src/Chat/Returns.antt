-- ===== src/Chat/Returns.antt =====
-- Lines that end in `\r\n` before the reader's loop (chat.ts).
use Prim.Native.Char.{Char, code}
use encore_hub.Shared.{
  String, Bool, Bool-cases, false, ◌&&◌, ◌≡◌, ◌∙◌, ap, refl, inl, inr, none, List, [],
  if◌then◌else◌, arith,
}
use encore_hub.Chat.Frames.{
  chars, is_newline, starts_newline, before_cut, cut_block, drain_all, read_chunks,
}
use encore_hub.Chat.Chunks.{
  cut_none, cut_later, drain-none, drain_all_lem, join_chunks, read_chunks-join,
}

abbrev returned : String → String
returned s = String.◌∷◌ "\r" s

-- The text with `\r\n` for every `\n`.
unfoldable pub with_returns : String → String
with_returns String.[] = String.[]
with_returns (String.◌∷◌ c s) =
    let rest = with_returns s in
    if is_newline (code c) then returned (String.◌∷◌ c rest) else String.◌∷◌ c rest

returns-start : (s : String) → starts_newline (with_returns s) ≡ false
unfolding with_returns
returns-start String.[] = refl
returns-start (String.◌∷◌ c s) = elim (Bool-cases (is_newline (code c))) [
  | inl y ↦ rw y refl
  | inr n ↦ rw n n
]

-- A character before a text that has no blank line and does not begin one.
cut_past :
    (c : Char) (s : String)
    → (is_newline (code c) && starts_newline s) ≡ false
    → cut_block s ≡ none
    → cut_block (String.◌∷◌ c s) ≡ none
cut_past c s h k = cut_later c s h ∙ ap (λ o. before_cut o (λ block. String.◌∷◌ c block)) k

and-false : (a b : Bool) → b ≡ false → (a && b) ≡ false
and-false a b h = ground arith

returns-cut : (s : String) → cut_block (with_returns s) ≡ none
unfolding with_returns
returns-cut String.[] = cut_none
returns-cut (String.◌∷◌ c s) =
    let rest = with_returns s in
    let past = cut_past c rest (and-false _ _ (returns-start s)) (returns-cut s) in
    elim (Bool-cases (is_newline (code c))) [
      | inl y ↦ rw y (cut_past "\r" (String.◌∷◌ c rest) refl past)
      | inr n ↦ rw n past
    ]

-- A text whose lines end in `\r\n` has no block for the reader, however many blank lines it has and
-- however it is cut: all of it stays in the buffer until the stream ends.
pub read_chunks-returns :
    (s : String) (chunks : List String)
    → join_chunks chunks ≡ with_returns s
    → read_chunks chunks "" ≡ ([], with_returns s)
read_chunks-returns s chunks h =
    let text = with_returns s in
    read_chunks-join chunks
    ∙ ap drain_all h
    ∙ drain_all_lem text (chars text) (omega arith)
    ∙ drain-none (chars text) text (returns-cut s)
