-- ===== src/Server.antt =====
-- internal/server: the HTTP handlers, which put the attestors, the entries and the authority
-- together. The handlers are functions of the request's body; `net/http` calls them.
mod Types
pub mod Attest
pub mod Validate
pub mod Publish
pub mod Routes
unfoldable pub use Types.*
