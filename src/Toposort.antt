-- ===== src/Toposort.antt =====
-- tools/depmod.c: mod_add_dependency, and depmod_calculate_dependencies, which orders the modules.
pub mod Count
pub mod Deps
pub mod Indirect
pub mod Link
pub mod Loop
pub mod Mark
pub mod Order
pub mod Result
pub mod Sorted
pub mod Start
mod Defs
unfoldable pub use Defs.*
