-- ===== src/MultiChat.antt =====
-- frontend/src/stores/multiChatStore.ts: the group chat's messages and the live segments of its
-- members.
pub mod State
pub mod Stream
pub mod Handlers
pub mod Segments
pub mod Runs
pub mod Connection
mod Tests
