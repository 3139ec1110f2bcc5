-- ===== src/Format/Node.antt =====
-- src/storage/minfs/format.h: the inode, and the magic number that holds its type.
use fuchsia_minfs.Prelude.{ℕ, ◌+◌, ◌%◌, List}

-- 0xAA6f6e00 | T for a type T below 256.
abbrev pub minfs_magic : ℕ → ℕ
minfs_magic t = 0xAA6f6e00 + t

abbrev pub minfs_magic_dir : ℕ
minfs_magic_dir = minfs_magic 4

abbrev pub minfs_magic_file : ℕ
minfs_magic_file = minfs_magic 8

-- n & 0xFF.
abbrev pub minfs_magic_type : ℕ → ℕ
minfs_magic_type n = n % 256

abbrev pub minfs_magic_purged : ℕ
minfs_magic_purged = 0xdeaddead

-- `rsvd` is read by nothing and is left out. The arrays are lists of their lengths.
pub record Inode : Type 0 where
  pub magic : ℕ
  pub size : ℕ
  pub block_count : ℕ
  pub link_count : ℕ
  pub create_time : ℕ
  pub modify_time : ℕ
  pub seq_num : ℕ
  pub gen_num : ℕ
  pub dirent_count : ℕ
  pub last_inode : ℕ
  pub next_inode : ℕ
  pub dnum : List ℕ
  pub inum : List ℕ
  pub dinum : List ℕ
