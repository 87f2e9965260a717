-- ===== src/Attestor.antt =====
-- internal/attestor: the platform attestors and the registry that routes evidence to them.
mod Types
pub mod Tokens
mod Calls
pub mod Jwks
pub mod Github
pub mod Cloudflare
pub mod Deno
pub mod Registry
pub mod AwsLambda
pub use Types.*
pub use Calls.*
