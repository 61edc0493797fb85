-- ===== src/ToolProtocol/Tests.antt =====
-- A run of the loop over a message with one block.
use encore_hub.Chat.Frames.{after_prefix, chars}
use encore_hub.Shared.{String, arith, is_space, none, refl, trim_end, trim_start, ◌≡◌, ◌≤◌}
use encore_hub.ToolProtocol.{clean_loop, cut_at, dsml_tool_call_markers, find_block, find_kind}
use encore_hub.ToolProtocol.Ends.{clean_loop-ends}

abbrev called : String
called = "Hi <|DSML|tool_calls>f()</|DSML|tool_calls> there"

one_round : clean_loop 50 called ≡ "Hi\nthere"
unfolding clean_loop find_block find_kind cut_at after_prefix trim_start trim_end is_space chars
one_round = refl

clean_loop-ends_example :
    (find_block (clean_loop 50 called) none dsml_tool_call_markers ≡ none)
    × (clean_loop 50 called ≡ clean_loop (chars called) called)
    × (chars (clean_loop 50 called) ≤ chars called)
unfolding chars
clean_loop-ends_example = clean_loop-ends 50 called (omega arith)
