-- ===== src/Memory.antt =====
-- Blocks of memory as realloc, memmove and plain accesses of C see them.
mod Defs
mod Laws
unfoldable pub use Defs.*
pub use Laws.*
