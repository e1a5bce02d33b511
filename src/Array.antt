-- ===== src/Array.antt =====
-- libkmod/libkmod-array.c: an array of pointers that grows and shrinks in steps.
pub mod Edit
pub mod Grow
pub mod Scan
mod Reps
pub use Reps.*
mod Defs
unfoldable pub use Defs.*
