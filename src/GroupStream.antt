-- ===== src/GroupStream.antt =====
-- frontend/src/services/groupChat.ts: the events of a group.
pub mod Events
pub mod Turn
pub mod Live
pub mod Once
mod Tests
