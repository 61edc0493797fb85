-- ===== src/Settings.antt =====
-- frontend/src/stores/settingsStore.ts: the settings, their operations and what the next start
-- reads back.
pub mod Preferences
pub mod Storage
pub mod Search
pub mod State
pub mod Load
pub mod Operations
pub mod SearchOps
pub mod Meter
pub mod Runs
pub mod Names
pub mod Session
pub mod Kept
pub mod Searched
pub mod Remembered
pub mod Keys
mod Tests
