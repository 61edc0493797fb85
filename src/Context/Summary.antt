-- ===== src/Context/Summary.antt =====
-- `buildCompactionSummary` of contextManagementStore.ts: the local preview of the older messages.
use Prim.Native.String
use Prim.Native.Char.{code}
use encore_hub.Shared.{
  ℕ, zero, suc, ◌+◌, ◌/◌, ◌%◌, min, max, String, Bool, false, ◌||◌, Option, none, some, List, [],
  ◌∷◌, map, length, get_elem?, drop_last, take_last, keep, or_else, ltb, is_space, trim,
  if◌then◌else◌, ◌==◌,
}
use encore_hub.Models.{Message, is_user, is_assistant}
use encore_hub.Context.{CompactionState, estimate_tokens}

-- A collapsed text that begins with a space.
abbrev starts_blank : String → Bool
starts_blank String.[] = false
starts_blank (String.◌∷◌ c s) = code c == 32

-- `s.replace(/\s+/g, " ")`
unfoldable pub collapse_spaces : String → String
unfolding is_space
collapse_spaces String.[] = String.[]
collapse_spaces (String.◌∷◌ c s) =
    let rest = collapse_spaces s in
    if is_space (code c)
    then if starts_blank rest then rest else String.◌++◌ " " rest
    else String.◌∷◌ c rest

-- `s.slice(0, n)`, over code points
unfoldable pub take_text : ℕ → String → String
take_text zero s = String.[]
take_text (suc n) String.[] = String.[]
take_text (suc n) (String.◌∷◌ c s) = String.◌∷◌ c (take_text n s)

abbrev digit : ℕ → String
digit n = or_else (get_elem? ("0" ∷ "1" ∷ "2" ∷ "3" ∷ "4" ∷ "5" ∷ "6" ∷ "7" ∷ "8" ∷ "9" ∷ []) n) ""

-- A number in decimal, with fuel for its digits.
unfoldable decimal_digits : ℕ → ℕ → String → String
decimal_digits zero n text = text
decimal_digits (suc fuel) n text =
    let longer = String.◌++◌ (digit (n % 10)) text in
    let rest = decimal_digits fuel (n / 10) longer in if ltb n 10 then longer else rest

unfoldable pub decimal : ℕ → String
unfolding decimal_digits
decimal n = decimal_digits (suc n) n ""

unfoldable pub preview_line : Message → String
unfolding collapse_spaces take_text trim
preview_line m =
    String.◌++◌ (if is_user m.role then "User: " else "Assistant: ")
      (take_text 180 (trim (collapse_spaces m.content)))

unfoldable pub join_lines : List String → String
join_lines [] = ""
join_lines (l ∷ []) = l
join_lines (l ∷ k ∷ ls) = String.◌++◌ l (String.◌++◌ "\n" (join_lines (k ∷ ls)))

unfoldable pub sum_tokens : List Message → ℕ
sum_tokens [] = 0
sum_tokens (m ∷ ms) = estimate_tokens m.content + sum_tokens ms

-- `keepRecent > 0 ? messages.slice(0, -keepRecent) : messages`
abbrev pub archived_messages : ℕ → List Message → List Message
archived_messages n messages = if n == 0 then messages else drop_last n messages

abbrev pub kept_recently : List Message → ℕ
kept_recently messages = min 6 (max 2 (length messages / 3))

unfoldable pub preview_lines : List Message → List String
unfolding preview_line
preview_lines archived =
    map preview_line (take_last 12 (keep (λ m. is_user m.role || is_assistant m.role) archived))

unfoldable pub summary_text : List Message → List String → String
unfolding decimal join_lines
summary_text archived lines =
    String.◌++◌ "Earlier conversation context ("
      (String.◌++◌ (decimal (length archived)) (String.◌++◌ " messages):\n" (join_lines lines)))

unfoldable pub preview_state : List Message → ℕ → CompactionState
unfolding summary_text sum_tokens
preview_state messages now =
    let archived = drop_last (kept_recently messages) messages in
    record {
      summary = summary_text archived (preview_lines archived);
      keep_recent = kept_recently messages;
      source_tokens = sum_tokens archived;
      created_at = now;
      start_message_id = none;
      end_message_id = none;
      source = none;
    }

unfoldable pub build_compaction_summary : List Message → ℕ → Option CompactionState
build_compaction_summary messages now =
    if ltb (length messages) 4
      || length (preview_lines (drop_last (kept_recently messages) messages)) == 0
    then none
    else some (preview_state messages now)
