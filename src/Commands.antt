-- ===== src/Commands.antt =====
-- src/commands/: building commands (util.rs), their arguments (args.rs), and the macros of
-- src/macros.rs.
pub mod Arg
pub mod Client
pub mod Closure
pub mod Methods
