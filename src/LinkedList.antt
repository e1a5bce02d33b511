-- ===== src/LinkedList.antt =====
-- The circular list of libkmod/libkmod-list.c.
pub mod Add
pub mod Join
pub mod Latest
pub mod Links
pub mod Remove
pub mod Rings
pub mod Search
pub mod Walk
mod Defs
unfoldable pub use Defs.*
