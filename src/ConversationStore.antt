-- ===== src/ConversationStore.antt =====
-- frontend/src/stores/conversationStore.ts: the conversations, the view of the active one and the
-- cache of the others. The state and its reducers are in `State` and `Cache`, each handler is in
-- the child named for what it serves, and `Events` puts them together.
pub mod State
pub mod Cache
pub mod Browse
pub mod Edit
pub mod Turn
pub mod Events
pub mod Growth
pub mod Prefetch
pub mod Mirror
pub mod Reconcile
pub mod Rollback
pub mod Isolation
pub mod UsageLog
pub mod ToolCalls
pub mod Removal
mod Tests
