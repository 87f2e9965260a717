-- ===== src/Ca.antt =====
-- internal/ca: the certificate authority (self_signed.go, types.go, ca.go) and the fetcher of
-- federated bundles (federation.go).
mod Types
pub mod Ttl
pub mod SelfSigned
pub mod Federation
unfoldable pub use Types.*
