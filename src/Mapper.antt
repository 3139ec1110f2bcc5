-- ===== src/Mapper.antt =====
-- src/storage/minfs/vnode_mapper.{h,cc}: from the blocks of a file to blocks of the volume.
pub mod Pointers
pub mod Coalesce
pub mod Iterator
pub mod Mapping
pub mod Holds
pub mod Sparse
pub mod Regions
pub mod Contiguous
pub mod Moves
pub mod Indirect
