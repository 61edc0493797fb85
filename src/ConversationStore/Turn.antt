-- ===== src/ConversationStore/Turn.antt =====
-- One turn of `sendMessage` (conversationStore.ts): the optimistic message, the callbacks of the
-- stream, the usage log, and what follows the stream. Prices, search and thinking options do not
-- enter the state and are left out; the estimate that decides on a compaction is a field of the
-- turn, and `Context.AutoCompact` has it.
mod Types
mod Start
mod Calls
mod Stream
mod Finish
pub use Types.*
unfoldable pub use Start.*
unfoldable pub use Calls.*
unfoldable pub use Stream.*
unfoldable pub use Finish.*
