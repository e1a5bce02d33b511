-- ===== src/Hash/Iter.antt =====
-- The iterator of libkmod/libkmod-hash.c.
pub mod All
pub mod Seek
mod Defs
unfoldable pub use Defs.*
