-- ===== src/Chat/Frames.antt =====
-- The framing of chat.ts: the loop of `sendMessageStream` over the buffer, and `parseEvent`.
use Prim.Native.String
use Prim.Native.Char.{Char, code}
use encore_hub.Shared.{
  ℕ, zero, suc, String, Bool, false, ◌&&◌, ◌||◌, Option, none, some, List, [], ◌∷◌, ◌++◌, is_empty,
  trim, if◌then◌else◌, ◌==◌,
}

unfoldable pub chars : String → ℕ
chars String.[] = 0
chars (String.◌∷◌ c s) = suc (chars s)

abbrev pub is_newline : ℕ → Bool
is_newline c = c == 10

abbrev pub starts_newline : String → Bool
starts_newline String.[] = false
starts_newline (String.◌∷◌ c s) = is_newline (code c)

abbrev pub after_first : String → String
after_first String.[] = String.[]
after_first (String.◌∷◌ c s) = s

-- `indexOf("\n\n")` with the two slices: what stands before the first blank line and after it.
abbrev pub before_cut : Option (String × String) → (String → String) → Option (String × String)
before_cut none f = none
before_cut (some (block, rest)) f = some (f block, rest)

unfoldable pub cut_block : String → Option (String × String)
cut_block String.[] = none
cut_block (String.◌∷◌ c s) =
    let later = before_cut (cut_block s) (λ block. String.◌∷◌ c block) in
    if is_newline (code c) && starts_newline s then some (String.[], after_first s) else later

-- The inner loop, with fuel for the blocks: the blocks of the buffer and what stays in it.
unfoldable pub drain : ℕ → String → List String × String
drain zero buffer = ([], buffer)
drain (suc fuel) buffer = elim (cut_block buffer) [
  | none ↦ ([], buffer)
  | some (block, rest) ↦ let (blocks, left) = drain fuel rest in (block ∷ blocks, left)
]

-- Each block takes two characters at least, so the length is fuel enough.
unfoldable pub drain_all : String → List String × String
unfolding drain chars
drain_all buffer = drain (chars buffer) buffer

-- The outer loop over the chunks that the reader returns.
unfoldable pub read_chunks : List String → String → List String × String
unfolding drain_all
read_chunks [] buffer = ([], buffer)
read_chunks (chunk ∷ chunks) buffer =
    let (blocks, left) = drain_all (String.◌++◌ buffer chunk) in
    let (more, rest) = read_chunks chunks left in (blocks ++ more, rest)

pub record ParsedSseEvent : Type 0 where
  pub event : String
  pub content : String

-- `s.split("\n")`
abbrev onto_first : Char → List String → List String
onto_first c [] = String.◌∷◌ c "" ∷ []
onto_first c (l ∷ ls) = String.◌∷◌ c l ∷ ls

unfoldable pub split_lines : String → List String
split_lines String.[] = "" ∷ []
split_lines (String.◌∷◌ c s) =
    let rest = split_lines s in if is_newline (code c) then "" ∷ rest else onto_first c rest

-- `raw.replace(/\r$/, "")`
unfoldable pub strip_return : String → String
strip_return String.[] = String.[]
strip_return (String.◌∷◌ c s) =
    if is_empty s && code c == 13 then String.[] else String.◌∷◌ c (strip_return s)

-- `startsWith` with the slice behind it.
unfoldable pub after_prefix : String → String → Option String
after_prefix String.[] s = some s
after_prefix (String.◌∷◌ p ps) String.[] = none
after_prefix (String.◌∷◌ p ps) (String.◌∷◌ c s) =
    let rest = after_prefix ps s in if code p == code c then rest else none

-- `replace(/^ /, "")`
unfoldable pub drop_space : String → String
drop_space String.[] = String.[]
drop_space (String.◌∷◌ c s) = if code c == 32 then s else String.◌∷◌ c s

abbrev Fields : Type 0
Fields = String × List String

abbrev is_comment : String → Bool
is_comment String.[] = false
is_comment (String.◌∷◌ c s) = code c == 58

abbrev data_line : Option String → Fields → Fields
data_line none fields = fields
data_line (some text) (event, lines) = (event, lines ++ drop_space text ∷ [])

abbrev event_line : Option String → String → Fields → Fields
event_line none line fields = data_line (after_prefix "data:" line) fields
event_line (some name) line (event, lines) = (trim name, lines)

unfoldable pub parse_line : String → Fields → Fields
unfolding after_prefix drop_space
parse_line line fields =
    if is_empty line || is_comment line
    then fields
    else event_line (after_prefix "event:" line) line fields

unfoldable pub parse_lines : List String → Fields → Fields
unfolding parse_line strip_return
parse_lines [] fields = fields
parse_lines (raw ∷ rest) fields = parse_lines rest (parse_line (strip_return raw) fields)

unfoldable pub join_newlines : List String → String
join_newlines [] = ""
join_newlines (l ∷ []) = l
join_newlines (l ∷ k ∷ ls) = String.◌++◌ l (String.◌++◌ "\n" (join_newlines (k ∷ ls)))

abbrev parsed : Fields → Option ParsedSseEvent
parsed (event, []) = none
parsed (event, l ∷ ls) = some (record { event = event; content = join_newlines (l ∷ ls) })

unfoldable pub parse_event : String → Option ParsedSseEvent
unfolding split_lines parse_lines join_newlines
parse_event block = parsed (parse_lines (split_lines block) ("message", []))
