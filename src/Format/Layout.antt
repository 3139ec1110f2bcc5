-- ===== src/Format/Layout.antt =====
-- src/storage/minfs/format.h: constants, the superblock and the regions that it describes.
use fuchsia_minfs.Prelude.{
  ℕ, ◌+◌, ◌-◌, ◌*◌, ◌/◌, ◌^◌, Bool, bit_and, ◌==◌, if◌then◌else◌, u32, sub32,
}

abbrev pub minfs_magic0 : ℕ
minfs_magic0 = 0x002153466e694d21

abbrev pub minfs_magic1 : ℕ
minfs_magic1 = 0x385000d3d3d3d304

abbrev pub minfs_current_major_version : ℕ
minfs_current_major_version = 9

abbrev pub minfs_current_minor_version : ℕ
minfs_current_minor_version = 2

abbrev pub minfs_root_ino : ℕ
minfs_root_ino = 1

abbrev pub minfs_flag_fvm : ℕ
minfs_flag_fvm = 2

abbrev pub minfs_block_size : ℕ
minfs_block_size = 8192

abbrev pub minfs_block_bits : ℕ
minfs_block_bits = 8192 * 8

abbrev pub minfs_inode_size : ℕ
minfs_inode_size = 256

abbrev pub minfs_inodes_per_block : ℕ
minfs_inodes_per_block = 8192 / 256

abbrev pub minfs_direct : ℕ
minfs_direct = 16

abbrev pub minfs_indirect : ℕ
minfs_indirect = 31

abbrev pub minfs_doubly_indirect : ℕ
minfs_doubly_indirect = 1

-- sizeof(blk_t) is 4.
abbrev pub minfs_direct_per_indirect : ℕ
minfs_direct_per_indirect = 8192 / 4

abbrev pub minfs_direct_per_dindirect : ℕ
minfs_direct_per_dindirect = 2048 * 2048

abbrev pub minfs_max_file_block : ℕ
minfs_max_file_block = (2 ^ 32 - 1) / 8192 - 1

abbrev pub minfs_max_file_size : ℕ
minfs_max_file_size = minfs_max_file_block * 8192

abbrev pub minfs_type_file : ℕ
minfs_type_file = 8

abbrev pub minfs_type_dir : ℕ
minfs_type_dir = 4

abbrev pub backup_superblock_blocks : ℕ
backup_superblock_blocks = 1

abbrev pub non_fvm_superblock_backup : ℕ
non_fvm_superblock_backup = 7

abbrev pub fvm_superblock_backup : ℕ
fvm_superblock_backup = 0x40000

abbrev pub fvm_block_inode_bm_start : ℕ
fvm_block_inode_bm_start = 0x10000

abbrev pub fvm_block_data_bm_start : ℕ
fvm_block_data_bm_start = 0x20000

abbrev pub fvm_block_inode_start : ℕ
fvm_block_inode_start = 0x30000

abbrev pub fvm_block_journal_start : ℕ
fvm_block_journal_start = 0x40000 + 1

abbrev pub fvm_block_data_start : ℕ
fvm_block_data_start = 0x50000

-- `deprecated1`, `deprecated2` and `reserved` are read by nothing and are left out.
pub record Superblock : Type 0 where
  pub magic0 : ℕ
  pub magic1 : ℕ
  pub major_version : ℕ
  pub checksum : ℕ
  pub generation_count : ℕ
  pub flags : ℕ
  pub block_size : ℕ
  pub inode_size : ℕ
  pub block_count : ℕ
  pub inode_count : ℕ
  pub alloc_block_count : ℕ
  pub alloc_inode_count : ℕ
  pub ibm_block : ℕ
  pub abm_block : ℕ
  pub ino_block : ℕ
  pub integrity_start_block : ℕ
  pub dat_block : ℕ
  pub slice_size : ℕ
  pub ibm_slices : ℕ
  pub abm_slices : ℕ
  pub ino_slices : ℕ
  pub integrity_slices : ℕ
  pub dat_slices : ℕ
  pub unlinked_head : ℕ
  pub unlinked_tail : ℕ
  pub oldest_minor_version : ℕ

unfoldable pub get_flag_fvm : Superblock → Bool
get_flag_fvm info = bit_and info.flags minfs_flag_fvm == minfs_flag_fvm

unfoldable pub inode_bitmap_start_block : Superblock → ℕ
inode_bitmap_start_block info =
    if get_flag_fvm info then fvm_block_inode_bm_start else info.ibm_block

unfoldable pub data_bitmap_start_block : Superblock → ℕ
data_bitmap_start_block info = if get_flag_fvm info then fvm_block_data_bm_start else info.abm_block

unfoldable pub inode_table_start_block : Superblock → ℕ
inode_table_start_block info = if get_flag_fvm info then fvm_block_inode_start else info.ino_block

unfoldable pub data_start_block : Superblock → ℕ
data_start_block info = if get_flag_fvm info then fvm_block_data_start else info.dat_block

unfoldable pub backup_superblock_start : Superblock → ℕ
backup_superblock_start info =
    if get_flag_fvm info then fvm_superblock_backup else non_fvm_superblock_backup

unfoldable pub inode_bitmap_blocks : Superblock → ℕ
inode_bitmap_blocks info =
    if get_flag_fvm info
    then u32 (info.ibm_slices * (info.slice_size / minfs_block_size))
    else sub32 info.abm_block info.ibm_block

unfoldable pub block_bitmap_blocks : Superblock → ℕ
block_bitmap_blocks info =
    if get_flag_fvm info
    then u32 (info.abm_slices * (info.slice_size / minfs_block_size))
    else sub32 info.ino_block info.abm_block

unfoldable pub inode_blocks : Superblock → ℕ
inode_blocks info =
    if get_flag_fvm info
    then u32 (info.ino_slices * (info.slice_size / minfs_block_size))
    else sub32 info.integrity_start_block info.ino_block

unfoldable pub journal_start_block : Superblock → ℕ
journal_start_block info =
    if get_flag_fvm info
    then fvm_block_journal_start
    else u32 (info.integrity_start_block + backup_superblock_blocks)

unfoldable pub journal_blocks : Superblock → ℕ
journal_blocks info =
    if get_flag_fvm info
    then sub32 (u32 (info.integrity_slices * (info.slice_size / minfs_block_size)))
        backup_superblock_blocks
    else sub32 (sub32 info.dat_block info.integrity_start_block) backup_superblock_blocks

unfoldable pub data_blocks : Superblock → ℕ
data_blocks info =
    if get_flag_fvm info
    then u32 (info.dat_slices * (info.slice_size / minfs_block_size))
    else info.block_count

unfoldable pub non_data_blocks : Superblock → ℕ
non_data_blocks info =
    inode_bitmap_blocks info + block_bitmap_blocks info + inode_blocks info + journal_blocks info
