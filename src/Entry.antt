-- ===== src/Entry.antt =====
-- internal/entry: registration entries, the matcher (matcher.go) and the stores.
mod Types
pub mod Matcher
pub mod JsonStore
pub mod SqlStore
pub use Types.*
