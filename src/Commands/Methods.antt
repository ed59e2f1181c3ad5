-- ===== src/Commands/Methods.antt =====
-- The methods of `Client` in src/commands/mod.rs, which the build script generates.
pub mod Tables
pub mod Queries
pub mod Documents
pub mod Values
pub mod Times
pub mod Control
pub mod Places
pub mod Names
pub mod Table
pub mod Laws
