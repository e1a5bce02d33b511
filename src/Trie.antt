-- ===== src/Trie.antt =====
-- tools/depmod.c, the index that depmod builds: a radix tree from keys to values.
pub mod Denote
pub mod Insert
pub mod Shape
pub mod Split
mod Defs
unfoldable pub use Defs.*
