-- ===== src/GroupStream/Live.antt =====
-- The store of a group behind its event stream (groupChat.ts, multiChatStore.ts): what the store
-- holds does not depend on how the network cuts the text of the stream into chunks.
use Prim.Native.String
use encore_hub.Chat.Chunks.{join_chunks, read_chunks-join}
use encore_hub.Chat.Frames.{drain_all, read_chunks}
use encore_hub.GroupStream.Events.{
  GroupContent, Reading, StreamEnd, apply_blocks, apply_next, finished_reading, reading,
  receive_chunks, streamed, subscribe_group_events,
}
use encore_hub.MultiChat.State.{MultiChatState}
use encore_hub.Shared.{List, String, [], ap, refl, sym, ◌++◌, ◌∙◌, ◌∷◌, ◌≡◌}

apply_blocks-append :
    (read : String → GroupContent) (bs cs : List String) (r : Reading)
    → apply_blocks read r (bs ++ cs) ≡ apply_blocks read (apply_blocks read r bs) cs
unfolding apply_blocks
apply_blocks-append read [] cs r = refl
apply_blocks-append read (b ∷ bs) cs r =
    apply_blocks-append read bs cs (apply_next read r.halted r b)

receive_chunks-read_chunks :
    (read : String → GroupContent) (chunks : List String) (r : Reading) (buffer : String)
    → receive_chunks read r buffer chunks ≡ apply_blocks read r (read_chunks chunks buffer).0
unfolding receive_chunks read_chunks apply_blocks
receive_chunks-read_chunks read [] r buffer = refl
receive_chunks-read_chunks read (chunk ∷ chunks) r buffer =
    let (blocks, left) = drain_all (String.◌++◌ buffer chunk) in
    receive_chunks-read_chunks read chunks (apply_blocks read r blocks) left
    ∙ sym (apply_blocks-append read blocks (read_chunks chunks left).0 r)

receive_chunks_whole :
    (read : String → GroupContent) (r : Reading) (chunks : List String)
    → receive_chunks read r "" chunks ≡ apply_blocks read r (drain_all (join_chunks chunks)).0
receive_chunks_whole read r chunks =
    receive_chunks-read_chunks read chunks r ""
    ∙ ap (λ q. apply_blocks read r q.0) (read_chunks-join chunks)

-- Two streams of one text, cut into chunks in whatever way, and that end alike, leave the store of
-- the group in the same state, whatever it was before and whatever the events are: its messages,
-- segments and queue, and the errors that are shown. This includes events whose handler throws,
-- which end the reading of the stream at the same event.
pub subscribe_group_events-join :
    (read : String → GroupContent) (s : MultiChatState) (chunks others : List String)
    (e : StreamEnd)
    → join_chunks chunks ≡ join_chunks others
    → subscribe_group_events read s (streamed chunks e)
      ≡ subscribe_group_events read s (streamed others e)
unfolding subscribe_group_events
subscribe_group_events-join read s chunks others e h =
    ap (λ r. finished_reading r e)
      (receive_chunks_whole read (reading s) chunks
        ∙ ap (λ t. apply_blocks read (reading s) (drain_all t).0) h
        ∙ sym (receive_chunks_whole read (reading s) others))
