-- ===== src/Toposort/Sorted.antt =====
-- depmod_sort_dependencies of tools/depmod.c, and depmod_calculate_dependencies with its call of it.
pub mod Cmp
pub mod First
mod Defs
unfoldable pub use Defs.*
