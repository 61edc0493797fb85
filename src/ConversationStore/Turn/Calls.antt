-- ===== src/ConversationStore/Turn/Calls.antt =====
-- The tool calls of a stream (`onToolCall` and `onToolResult` of conversationStore.ts).
use Prim.Native.String
use encore_hub.Shared.{
  String, Bool, true, false, not, ◌&&◌, ◌||◌, Option, none, some, List, [], ◌∷◌, or_else, opt_is,
  is_empty, ◌==◌, if◌then◌else◌,
}
use encore_hub.Models.{StreamToolCall, CallStatus}
use encore_hub.ConversationStore.Turn.Types.{ToolFragment}

-- `if (x) …` on an optional text
abbrev pub truthy : Option String → Bool
truthy none = false
truthy (some s) = not (is_empty s)

unfoldable pub merge_fragment : StreamToolCall → ToolFragment → StreamToolCall
merge_fragment c f = record {
  index = c.index;
  id = if truthy f.id then f.id else c.id;
  name = if truthy f.name then or_else f.name "" else c.name;
  arguments = String.◌++◌ c.arguments (or_else f.arguments "");
  result = c.result;
  status = c.status;
}

unfoldable pub new_call : ToolFragment → StreamToolCall
new_call f = record {
  index = f.index;
  id = f.id;
  name = or_else f.name "";
  arguments = or_else f.arguments "";
  result = none;
  status = some CallStatus.pending;
}

-- `onToolCall`: the first call with the fragment's index grows, or a new one is appended.
unfoldable pub apply_fragment : List StreamToolCall → ToolFragment → List StreamToolCall
unfolding merge_fragment new_call
apply_fragment [] f = new_call f ∷ []
apply_fragment (c ∷ calls) f =
    if c.index == f.index then merge_fragment c f ∷ calls else c ∷ apply_fragment calls f

abbrev pub awaits_result : Option CallStatus → Bool
awaits_result (some CallStatus.pending) = true
awaits_result _ = false

unfoldable pub apply_result : String → String → CallStatus → StreamToolCall → StreamToolCall
apply_result id result status c =
    if opt_is c.id id || (not (truthy c.id) && awaits_result c.status)
    then record c { result = some result; status = some status }
    else c
