-- ===== src/Names.antt =====
-- Names of modules and aliases: alias_normalize, modname_normalize and path_to_modname of
-- libkmod/libkmod-util.c, and underscores2 of tools/depmod.c.
pub mod Alias
pub mod Modname
pub mod Overflow
pub mod Underscores
mod Defs
unfoldable pub use Defs.*
