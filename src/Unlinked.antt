-- ===== src/Unlinked.antt =====
-- src/storage/minfs/minfs.cc: the list of the inodes that are unlinked and still open.
pub mod List
pub mod Add
pub mod Remove
pub mod Purge
