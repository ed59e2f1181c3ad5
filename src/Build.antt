-- ===== src/Build.antt =====
-- The build script, which writes src/commands/mod.rs from RethinkDB's documentation (build/*.rs).
pub mod Strings
pub mod Docs
pub mod Config
pub mod Command
pub mod Output
