-- ===== src/Getline.antt =====
-- libkmod/libkmod-util.c: getline_wrapped, which reads the logical lines of configuration files.
pub mod Pieces
pub mod Buffer
mod Defs
unfoldable pub use Defs.*
