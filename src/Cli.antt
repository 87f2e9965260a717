-- ===== src/Cli.antt =====
-- internal/cli: what the commands do with their flags, beside cobra's parsing of the flags. A
-- command is a function of its flags and of what it works on: a database, files, a configuration.
mod Types
pub mod Entries
pub mod Authority
pub mod Start
pub use Types.*
