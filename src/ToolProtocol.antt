-- ===== src/ToolProtocol.antt =====
-- frontend/src/services/conversation.ts: taking complete DSML blocks, the providers' tool call
-- protocol, out of a message. Texts are measured in code points; the code only compares and adds
-- positions that indexOf returned, so the unit does not matter.
pub mod Ends
mod Tests
use Prim.Native.String.{◌++◌ as str_append}
use Prim.Native.Char.{Char}
use encore_hub.Chat.Frames.{after_prefix, chars}
use encore_hub.Shared.{
  List, Option, String, [], if◌then◌else◌, is_empty, is_some, ltb, none, some, suc, trim, trim_end,
  trim_start, zero, ℕ, ◌∷◌,
}

abbrev pub found_at : Option String → Char → Option (String × String) → Option (String × String)
found_at (some rest) c later = some (String.[], rest)
found_at none c none = none
found_at none c (some (before, after)) = some (String.◌∷◌ c before, after)

abbrev pub found_here : Option String → Option (String × String)
found_here none = none
found_here (some rest) = some (String.[], rest)

-- What stands before and after the first occurrence that `indexOf` finds.
unfoldable pub cut_at : String → String → Option (String × String)
cut_at needle String.[] = found_here (after_prefix needle String.[])
cut_at needle (String.◌∷◌ c s) = found_at (after_prefix needle (String.◌∷◌ c s)) c (cut_at needle s)

abbrev pub dsml_tool_call_markers : List (String × String)
dsml_tool_call_markers =
    ("<|DSML|><|tool_calls|>", "</|tool_calls>")
    ∷ ("<|DSML|tool_calls>", "<|/DSML|tool_calls>")
    ∷ ("<|DSML|tool_calls>", "<|DSML|/tool_calls>")
    ∷ ("<|DSML|tool_calls>", "</|DSML|tool_calls>")
    ∷ ("<||DSML||tool_calls>", "</||DSML||tool_calls>")
    ∷ ("<｜DSML｜tool_calls>", "<｜/DSML｜tool_calls>")
    ∷ ("<｜DSML｜tool_calls>", "<｜DSML｜/tool_calls>")
    ∷ ("<｜DSML｜tool_calls>", "</｜DSML｜tool_calls>")
    ∷ ("<｜｜DSML｜｜tool_calls>", "</｜｜DSML｜｜tool_calls>")
    ∷ []

-- The text before and after a block.
abbrev pub Around : Type 0
Around = String × String

abbrev pub ended : String → Option (String × String) → Option Around
ended before none = none
ended before (some (inside, after)) = some (before, after)

abbrev pub started : String → Option (String × String) → Option Around
started end none = none
started end (some (before, rest)) = ended before (cut_at end rest)

-- The first start of one kind of block that has an end behind it.
unfoldable pub find_kind : String → (String × String) → Option Around
find_kind s (start, end) = started end (cut_at start s)

-- `startIndex < 0 || candidateStart < startIndex`
abbrev pub earlier : Option Around → Option Around → Option Around
earlier best none = best
earlier none (some c) = some c
earlier (some b) (some c) = if ltb (chars c.0) (chars b.0) then some c else some b

unfoldable pub find_block : String → Option Around → List (String × String) → Option Around
find_block s best [] = best
find_block s best (kind ∷ kinds) = find_block s (earlier best (find_kind s kind)) kinds

-- before && after ? `${before}\n${after}` : before || after
abbrev pub join_around : String → String → String
join_around before after =
    if is_empty before
    then after
    else if is_empty after
    then before
    else str_append before (str_append "\n" after)

abbrev pub without_block : Around → String
without_block (before, after) = join_around (trim_end before) (trim_start after)

abbrev pub next_round : Option Around → String → (String → String) → String
next_round none s again = s
next_round (some around) s again = again (without_block around)

-- The loop; its fuel is the number of rounds.
unfoldable pub clean_loop : ℕ → String → String
clean_loop zero s = s
clean_loop (suc fuel) s = next_round (find_block s none dsml_tool_call_markers) s (clean_loop fuel)

unfoldable pub clean_tool_protocol : String → String
clean_tool_protocol content =
    if is_some (cut_at "DSML" content) then trim (clean_loop (chars content) content) else content
