-- ===== src/Derive.antt =====
-- derive/src/args.rs: the macro `args!`, from its tokens to the statements that build an `Arg`.
pub mod Tokens
pub mod Groups
pub mod Emit
