-- ===== src/WriteStr.antt =====
-- write_str_safe of libkmod/libkmod-util.c.
pub mod Sent
mod Defs
unfoldable pub use Defs.*
