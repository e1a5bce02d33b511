-- ===== src/Toposort/Indirect.antt =====
-- The indirect dependencies of a module, which tools/depmod.c writes to modules.dep.
pub mod Endless
pub mod FillLoop
pub mod Fills
pub mod Listed
pub mod Paths
mod Defs
unfoldable pub use Defs.*
