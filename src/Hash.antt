-- ===== src/Hash.antt =====
-- libkmod/libkmod-hash.c: a hash table from strings to pointers, whose buckets are sorted arrays.
pub mod Add
pub mod Bsearch
pub mod Delete
pub mod Entries
pub mod Free
pub mod Insert
pub mod Iter
pub mod Locate
pub mod Make
pub mod Outcome
pub mod Remove
pub mod Reps
pub mod Table
mod Defs
mod Superfast
unfoldable pub use Defs.*
unfoldable pub use Superfast.*
