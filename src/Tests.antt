-- ===== src/Tests.antt =====
-- Runs of the model on concrete inputs, for each module that it models.
pub mod Arrays
pub mod Hashes
pub mod Indexes
pub mod Lines
pub mod Lists
pub mod Loops
pub mod Namings
pub mod Orders
pub mod Sorts
pub mod Strings
pub mod Wildcards
