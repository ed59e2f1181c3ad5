-- ===== src/Types.antt =====
-- src/types.rs: terms from JSON values, and the text of a term on the wire.
pub mod Encode
pub mod Value
pub mod FromJson
pub mod Json
pub mod Read
pub mod Wire
pub mod Render
pub mod Correct
pub mod Coercion
pub mod Values
