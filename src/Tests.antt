-- ===== src/Tests.antt =====
-- The properties at concrete inputs, and test data for them.
mod Toy
mod Signing
mod Matching
mod Ttls
mod Sunny
mod Platforms
mod Issuers
mod Stores
mod Tables
mod Serving
mod Restart
mod Federated
mod Clients
mod Statements
mod Commands
mod Tokens
mod Routing
mod Starting
