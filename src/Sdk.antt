-- ===== src/Sdk.antt =====
-- sdk/go: the client library that a workload uses to get its SVIDs from a server.
mod Types
pub mod Attestors
pub mod Client
pub mod Source
pub mod Tls
pub mod Accepts
pub use Types.*
