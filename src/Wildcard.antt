-- ===== src/Wildcard.antt =====
-- The walks of libkmod/libkmod-index.c over an index file: the search for keys with
-- wildcards, with the buffer in which it builds keys.
pub mod All
pub mod Buffered
pub mod Cases
pub mod Defs
pub mod Gains
pub mod Keys
pub mod Loop
pub mod Mapped
pub mod Matches
pub mod Reach
pub mod Round
pub mod Search
pub mod Steps
mod KeyBuffer
unfoldable pub use KeyBuffer.*
