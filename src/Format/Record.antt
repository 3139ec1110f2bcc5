-- ===== src/Format/Record.antt =====
-- src/storage/minfs/format.h: directory records.
use fuchsia_minfs.Prelude.{
  ℕ, ◌+◌, ◌-◌, ◌%◌, ◌^◌, List, Bool, if◌then◌else◌, leb, sub32, round_up, round_down,
}

-- sizeof(Dirent): ten bytes of header, padded to the alignment.
abbrev pub minfs_dirent_size : ℕ
minfs_dirent_size = 12

abbrev pub minfs_dirent_alignment : ℕ
minfs_dirent_alignment = 4

abbrev pub minfs_max_name_size : ℕ
minfs_max_name_size = 255

unfoldable pub dirent_size : ℕ → ℕ
dirent_size namelen = minfs_dirent_size + round_up namelen minfs_dirent_alignment

abbrev pub minfs_max_dirent_size : ℕ
minfs_max_dirent_size = 12 + round_up 255 4

abbrev pub minfs_max_directory_size : ℕ
minfs_max_directory_size = round_down (2 ^ 20 - 1) 4

-- `reclen & kMinfsReclenMask` keeps the low 28 bits.
abbrev pub minfs_reclen_mask : ℕ
minfs_reclen_mask = 0x0FFFFFFF

abbrev pub minfs_reclen_last : ℕ
minfs_reclen_last = 0x80000000

-- The top bit of the 32: `reclen & kMinfsReclenLast` is not zero.
unfoldable pub is_last : ℕ → Bool
is_last reclen = leb minfs_reclen_last reclen

-- The name is the list of its bytes, `namelen` long.
pub record Dirent : Type 0 where
  pub ino : ℕ
  pub reclen : ℕ
  pub namelen : ℕ
  pub dtype : ℕ
  pub name : List ℕ

unfoldable pub dirent_reserved_size : Dirent → ℕ → ℕ
unfolding is_last
dirent_reserved_size de off =
    if is_last de.reclen then sub32 minfs_max_directory_size (off % 2 ^ 32) else de.reclen % 2 ^ 28
