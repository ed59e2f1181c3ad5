-- ===== src/Proto.antt =====
-- The protocol messages that the driver builds and reads, `Term`, `Datum` and their pairs, which
-- src/types.rs, src/macros.rs and src/commands/ take from the crate ql2.
pub mod Commands
mod Messages
pub use Messages.*
