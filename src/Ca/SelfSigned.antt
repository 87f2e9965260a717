-- ===== src/Ca/SelfSigned.antt =====
-- internal/ca/self_signed.go: the state of a `SelfSignedCA`, signing, bundles and validation.
-- Randomness, the clock and UUIDs are the argument `Draws` of a call.
mod Defs
pub mod Signing
pub mod Roots
pub mod Disk
pub mod Create
pub mod Configured
pub mod Persistence
unfoldable pub use Defs.*
