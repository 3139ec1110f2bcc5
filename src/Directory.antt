-- ===== src/Directory.antt =====
-- src/storage/minfs/directory.cc: the records of a directory.
pub mod Records
pub mod Chain
pub mod Find
pub mod Append
pub mod Erase
pub mod Gap
pub mod Join
pub mod Coalesce
pub mod Found
pub mod Unlink
pub mod Pass
pub mod Named
pub mod Link
pub mod Names
pub mod Lookup
