-- ===== src/Types/Correct.antt =====
-- What `encode` writes is the JSON that the term stands for.
mod Data
mod Parts
mod Terms
pub use Data.*
pub use Parts.{+++-nil, +++_assoc, render_more-append}
pub use Terms.*
