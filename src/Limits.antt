-- ===== src/Limits.antt =====
-- src/storage/minfs/transaction_limits.{h,cc}: how many blocks one transaction may touch.
pub mod Walk
pub mod Bounds
use fuchsia_minfs.Prelude.{
  ℕ, ◌+◌, ◌-◌, ◌*◌, ◌/◌, ◌^◌, max, bit_and, Bool, not, ◌==◌, ltb, leb, if◌then◌else◌, u32, sub32,
  u64, sub64, round_up, Result, ok, err, invalid_args, out_of_range,
}
use fuchsia_minfs.Format.{
  Superblock, minfs_block_size, minfs_direct, minfs_indirect, minfs_doubly_indirect,
  minfs_direct_per_indirect, minfs_flag_fvm, minfs_max_dirent_size, minfs_max_directory_size,
  backup_superblock_blocks,
}

-- The last step of GetRequiredBlockCount: the doubly indirect blocks.
required_dindirect : ℕ → ℕ → ℕ → Result ℕ
required_dindirect reserve first_indirect last_indirect =
    let first = (max first_indirect minfs_indirect - minfs_indirect) / minfs_direct_per_indirect in
    let last = (last_indirect - minfs_indirect) / minfs_direct_per_indirect in
    let blocks = u32 (reserve + sub32 last first + 1) in
    if leb minfs_doubly_indirect last then err out_of_range else ok blocks

-- The indirect blocks. `first_direct` and `last_direct` count from the indirect range on.
required_indirect : ℕ → ℕ → ℕ → Result ℕ
unfolding required_dindirect
required_indirect reserve first_direct last_direct =
    let first = first_direct / minfs_direct_per_indirect in
    let last = last_direct / minfs_direct_per_indirect in
    let blocks = u32 (reserve + sub32 last first + 1) in
    if leb minfs_indirect last then required_dindirect blocks first last else ok blocks

unfoldable pub required_direct : ℕ → ℕ → Result ℕ
unfolding required_indirect
required_direct first_direct last_direct =
    let blocks = u32 (sub32 last_direct first_direct + 1) in
    if ltb last_direct minfs_direct
    then ok blocks
    else required_indirect blocks (max first_direct minfs_direct - minfs_direct)
        (last_direct - minfs_direct)

unfoldable pub get_required_block_count : ℕ → ℕ → ℕ → Result ℕ
get_required_block_count offset length block_size =
    if not (block_size == minfs_block_size)
    then err invalid_args
    else if length == 0
    then ok 0
    else required_direct (u32 (offset / minfs_block_size))
        (u32 (sub64 (u64 (offset + length)) 1 / minfs_block_size))

-- `info.flags & kMinfsFlagFVM`, as a condition.
unfoldable pub get_block_bitmap_blocks : Superblock → ℕ
get_block_bitmap_blocks info =
    if bit_and info.flags minfs_flag_fvm == 0
    then sub32 info.ino_block info.abm_block
    else u32 (info.abm_slices * (info.slice_size / minfs_block_size))

abbrev pub max_write_bytes : ℕ
max_write_bytes = 2 ^ 16

abbrev pub max_superblock_blocks : ℕ
max_superblock_blocks = 2

abbrev pub max_inode_bitmap_blocks : ℕ
max_inode_bitmap_blocks = 1

abbrev pub max_inode_table_blocks : ℕ
max_inode_table_blocks = 2

abbrev pub journal_metadata_blocks : ℕ
journal_metadata_blocks = 1

abbrev pub default_journal_blocks : ℕ
default_journal_blocks = 256

pub record TransactionLimits : Type 0 where
  pub max_meta_data_blocks : ℕ
  pub max_data_blocks : ℕ
  pub max_entry_data_blocks : ℕ
  pub max_entry_blocks : ℕ
  pub min_integrity_blocks : ℕ
  pub rec_integrity_blocks : ℕ

-- `.value()`. It would abort on an error, which the calls below never return.
abbrev value : Result ℕ → ℕ
value (ok n) = n
value (err e) = 0

-- The last byte before the doubly indirect range.
abbrev worst_offset : ℕ
worst_offset = (16 + 31 * 2048) * 8192 - 1

-- CalculateDataBlocks.
unfoldable pub calculate_max_data_blocks : ℕ
unfolding get_required_block_count required_direct
calculate_max_data_blocks =
    value (get_required_block_count worst_offset max_write_bytes minfs_block_size)

unfoldable pub calculate_max_meta_data_blocks : ℕ
unfolding get_required_block_count required_direct calculate_max_data_blocks
calculate_max_meta_data_blocks =
    max (value (get_required_block_count worst_offset minfs_max_dirent_size minfs_block_size))
      (calculate_max_data_blocks - (round_up max_write_bytes 8192 / minfs_block_size + 1))

-- CalculateIntegrityBlocks. `max_descriptors` is the journal's kMaxBlockDescriptors.
unfoldable pub calculate_integrity_blocks : ℕ → ℕ → TransactionLimits
unfolding calculate_max_data_blocks calculate_max_meta_data_blocks
calculate_integrity_blocks max_descriptors block_bitmap_blocks =
    let meta = calculate_max_meta_data_blocks in
    let entry_data = u32 (
      max_superblock_blocks + max_inode_bitmap_blocks + block_bitmap_blocks + max_inode_table_blocks
      + meta) in
    let header =
      if ltb max_descriptors entry_data
      then 1 + round_up (entry_data - max_descriptors) 2048 / minfs_direct_per_indirect
      else 1 in
    let directory = value (get_required_block_count 0 minfs_max_directory_size minfs_block_size) in
    let indirect = minfs_indirect + minfs_doubly_indirect * minfs_direct_per_indirect in
    let revocation = round_up (max directory indirect) 2048 / minfs_direct_per_indirect in
    let entry = u32 (header + revocation + entry_data + 1) in
    let min_integrity = u32 (entry + journal_metadata_blocks + backup_superblock_blocks) in
    record {
      max_meta_data_blocks = meta;
      max_data_blocks = calculate_max_data_blocks;
      max_entry_data_blocks = entry_data;
      max_entry_blocks = entry;
      min_integrity_blocks = min_integrity;
      rec_integrity_blocks = max min_integrity default_journal_blocks;
    }

unfoldable pub transaction_limits : ℕ → Superblock → TransactionLimits
unfolding calculate_integrity_blocks get_block_bitmap_blocks
transaction_limits max_descriptors info =
    calculate_integrity_blocks max_descriptors (get_block_bitmap_blocks info)
