-- ===== src/Vnode.antt =====
-- src/storage/minfs/vnode.cc: the life of a vnode, from its first link to its purge.
pub mod State
pub mod Steps
pub mod Links
pub mod Invariant
pub mod Frees
pub mod Hash
pub mod Unlinks
pub mod Keeps
pub mod Returns
