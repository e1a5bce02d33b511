-- ===== src/ReadStr.antt =====
-- libkmod/libkmod-util.c: read_str_safe, which reads a whole string from a file descriptor.
pub mod Whole
mod Defs
unfoldable pub use Defs.*
