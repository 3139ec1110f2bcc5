-- ===== src/Allocator.antt =====
-- src/storage/minfs/allocator: the allocator of blocks and of inodes.
pub mod Bitmap
pub mod State
pub mod Storage
pub mod Ops
pub mod Unreserved
pub mod Locked
pub mod Changes
pub mod Invariant
pub mod Pending
pub mod Marked
pub mod Allocate
pub mod Free
pub mod Deallocate
pub mod Commit
pub mod Committed
pub mod Reserve
pub mod Extends
