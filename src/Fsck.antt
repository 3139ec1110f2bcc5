-- ===== src/Fsck.antt =====
-- src/storage/minfs/fsck.cc: the check of an image.
pub mod State
pub mod Files
pub mod Tree
pub mod Walk
pub mod Totals
pub mod Nth
pub mod Accounts
pub mod Tally
pub mod Conforms
pub mod Quiet
pub mod Dirs
pub mod Keeps
pub mod Sound
pub mod Ends
pub mod Inodes
pub mod Rules
pub mod Chain
pub mod Whole
