-- ===== src/IndexFile.antt =====
-- The index file: written by depmod (tools/depmod.c), read by libkmod (libkmod/libkmod-index.c).
pub mod Codec
pub mod Lookup
pub mod Stored
pub mod Writer
pub mod Mapped
mod Format
mod Read
mod Write
unfoldable pub use Format.*
unfoldable pub use Read.*
unfoldable pub use Write.*
