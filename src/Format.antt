-- ===== src/Format.antt =====
-- src/storage/minfs/format.h: the on-disk format. The constants and the geometry of the superblock are
-- in Layout, the inode in Node, the sizes of directory records in Record.
mod Layout
mod Node
mod Record
pub use Layout.*
pub use Node.*
unfoldable pub use Record.*
