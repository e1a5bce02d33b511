-- ===== src/AliasesBin.antt =====
-- tools/depmod.c: output_aliases_bin, from the infos of the modules to the index of aliases.
pub mod Contents
pub mod Lookup
mod Defs
unfoldable pub use Defs.*
