-- ===== src/Volume.antt =====
-- src/storage/minfs/minfs.cc: the superblock's checks at mount, and the layout that Mkfs chooses.
pub mod Checks
pub mod Mkfs
pub mod Limits
pub mod Formatted
pub mod Accepted
pub mod Slices
