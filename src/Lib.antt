-- ===== src/Lib.antt =====
-- EncoreHub: the state of the desktop client.
--
-- The client keeps its state in stores (frontend/src/stores) that call the Gateway through services
-- (frontend/src/services). The development models the stores that run the chats, the settings, and
-- the pure parts of some components:
--
--   Models             the records of services/conversation.ts, chat.ts and characters.ts
--   ConversationStore  stores/conversationStore.ts: `State` has the state and `Cache` the reducers
--                      cacheUpdate, saveActiveViewToCache and reconcileTurnMessages; `Browse` has
--                      loadList, prefetchConversation, selectConversation, newConversation,
--                      deleteConversation and summarizeContext; `Edit` has renaming, model and
--                      character changes, deletion and editing of messages, drafts and titles;
--                      `Turn` has sendMessage, its stream callbacks and reconcileFromEngine;
--                      `Events` makes them one machine. The other children are proofs.
--   Chat               services/chat.ts: `Frames` has the reader's buffer and parseEvent, `Payload`
--                      and `Dispatch` have handleEvent and the end of sendMessageStream, whose
--                      callbacks are the stream events of ConversationStore.Turn
--   Context            stores/contextManagementStore.ts: token features and categories, `Estimate`
--                      (estimateContextUsage), `Summary` (buildCompactionSummary), `Store` (the
--                      operations on usage records and compactions) and `AutoCompact` (the
--                      compaction that sendMessage makes before a turn)
--   MultiChat          stores/multiChatStore.ts: the group chat (`State`, `Handlers`), its
--                      event stream (`Stream`) and the connection to it (`Connection`)
--   GroupStream        services/groupChat.ts: the two event streams of a group; `Events` has
--                      subscribeGroupEvents on the store of MultiChat, `Turn`
--                      sendGroupMessageStream; both read the frames of Chat.Frames
--   TokenModel         services/tokenModel.ts: text features, predictions and the sample store
--   Settings           stores/settingsStore.ts: `State` and `Load` have the state and what a start
--                      reads from the local storage (`Storage`), `Operations`, `SearchOps` and
--                      `Meter` the operations, `Search` services/webSearch.ts, `Preferences` the
--                      lists of rows that the user orders, `Keys` the loading of API keys; `Runs`
--                      makes them one machine
--   Characters         stores/characterStore.ts: the operations, and in `Table` what the store
--                      relies on of the Engine's table of characters
--   ContextMeter       components/chat/contextMeterDisplay.ts: the lines of the context meter, in
--                      the order and visibility that Settings keeps
--   ConversationGroups components/sidebar/conversationGroups.ts: the sidebar's groups by age
--   ToolProtocol       services/conversation.ts: cleanToolProtocol
--   Workspace          stores/workspaceStore.ts: the tabs of the window
--   Toasts             stores/toastStore.ts: the queue of toasts
--   Shared             lists, dictionaries, tests and texts in the manner of JavaScript
--
-- The conversation store and the group store call the Gateway; the conversation store also calls
-- the context store (restoreCompaction, setSummarizedCompaction, recordUsage, learnFromSnapshot).
-- Such a call is appended to the list `outbox` of the calling store, in the order of the calls,
-- and its answer is an argument of the stretch that goes on from it.
--
-- A handler of a store is a function from states to states, in the source's words and spelled with
-- underscores. A handler that awaits is one function for each stretch between two awaits (`_start`,
-- `_done`, `_failed`), so that any interleaving of handlers is a list of events. What a closure
-- holds (the turn of sendMessage, a replaced title) is an argument. An abort controller is the
-- number under which it was made; the controllers aborted are a list of the state. In the streams
-- of GroupStream a handler that throws is an outcome of its own, and what follows it is the catch.
--
-- Where the model differs from JavaScript: an object used as a dictionary is an association list
-- read by key; texts are compared and cut by code points and not by UTF-16 units; a coefficient of
-- the token model is a fraction and is computed with exactly, where the source uses doubles; time
-- stamps are the instants that Date.parse reads; counts are naturals, with `Math.max(0, a - b)` as
-- the subtraction that stops at 0. Recursion is structural; the decimal notation of a number has
-- one unit of fuel for each unit of the number and one more, which is more than its digits; the
-- reader's buffer has one unit for each character, where a block takes two; the attempts of
-- loadKeysFromEngine are counted down from the source's five; the loop of cleanToolProtocol has
-- one unit for each character of the message, where a round takes at least one away. The width of
-- the sidebar counts parts of a pixel so small that every double between its bounds is a whole
-- number of them. The local storage is a record with a cell for each key of the settings.
--
-- Not modelled: the user interface but for the parts above, the Gateway (Go), the Engine and the
-- desktop shell (Rust), the provider, secrets and metadata stores, requests and their bodies,
-- prices, console logging, the copies that other stores keep in the local storage, and the
-- least-squares fit. The fit, JSON.parse of a stream's payload, dates, number formats and
-- translations are arguments of what uses them.
pub mod Shared
pub mod Models
pub mod Settings
pub mod Characters
pub mod ConversationGroups
pub mod ToolProtocol
pub mod ContextMeter
pub mod ConversationStore
pub mod Chat
pub mod Context
pub mod MultiChat
pub mod GroupStream
pub mod TokenModel
pub mod Workspace
pub mod Toasts
