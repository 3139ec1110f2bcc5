-- ===== src/Tests.antt =====
-- Concrete inputs for the theorems.
pub mod Bits
mod Allocator
mod Limits
mod Mapper
mod Volume
mod Directory
mod Unlinked
mod Fsck
mod Vnode
mod Erase
