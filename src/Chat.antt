-- ===== src/Chat.antt =====
-- frontend/src/services/chat.ts: the event stream of a chat turn. `Frames` cuts the received text
-- into blocks, and `Dispatch` turns the blocks into the callbacks of the conversation store.
pub mod Frames
pub mod Chunks
pub mod Returns
pub mod Payload
pub mod Dispatch
pub mod Terminal
mod Tests
