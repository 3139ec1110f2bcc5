-- ===== src/Limits/Bounds.antt =====
-- The error of GetRequiredBlockCount, and the limits that TransactionLimits computes with it.
use fuchsia_minfs.Prelude.{
  ℕ, ◌+◌, ◌-◌, ◌*◌, ◌/◌, ◌^◌, ◌≤◌, ◌<◌, ◌≡◌, ◌↔◌, refl, arith, ok, err, out_of_range,
}
use fuchsia_minfs.Limits.{
  TransactionLimits, get_required_block_count, required_direct, max_write_bytes,
  calculate_max_data_blocks, calculate_max_meta_data_blocks, calculate_integrity_blocks,
}
use fuchsia_minfs.Limits.Walk.{end_block}

-- For a write of at least one byte that ends within the first 2^45 bytes, GetRequiredBlockCount
-- fails, with OUT_OF_RANGE, exactly when the last block is past those that an inode's pointers reach.
pub get_required_block_count-out_of_range :
    (offset length : ℕ)
    → 0 < length
    → offset + length ≤ 2 ^ 45
    → (get_required_block_count offset length 8192 ≡ err out_of_range)
      ↔ (end_block ≤ (offset + length - 1) / 8192)
unfolding get_required_block_count required_direct
get_required_block_count-out_of_range offset length pos fits =
    (λ e. ground arith, λ h. ground arith)

max_data_blocks_value : calculate_max_data_blocks ≡ 12
unfolding calculate_max_data_blocks
max_data_blocks_value = refl

max_meta_data_blocks_value : calculate_max_meta_data_blocks ≡ 5
unfolding calculate_max_meta_data_blocks
max_meta_data_blocks_value = refl

-- A write of at most kMaxWriteBytes that ends within the first 2^45 bytes, at any offset, never
-- needs more blocks than the limit that CalculateDataBlocks takes from one offset.
pub get_required_block_count-le-max :
    (offset length : ℕ) {blocks : ℕ}
    → length ≤ max_write_bytes
    → offset + length ≤ 2 ^ 45
    → get_required_block_count offset length 8192 ≡ ok blocks
    → blocks ≤ calculate_max_data_blocks
unfolding get_required_block_count required_direct
get_required_block_count-le-max offset length small fits e = ground (arith, max_data_blocks_value)

fits :
    (max_descriptors bitmap_blocks : ℕ)
    → bitmap_blocks ≤ 2 ^ 31
    → ((calculate_integrity_blocks max_descriptors bitmap_blocks).max_entry_data_blocks + 2048
        ≤ max_descriptors
          + ((calculate_integrity_blocks max_descriptors bitmap_blocks).max_entry_blocks
              - (calculate_integrity_blocks max_descriptors bitmap_blocks).max_entry_data_blocks
              - 3)
            * 2048)
      × ((calculate_integrity_blocks max_descriptors bitmap_blocks).max_entry_blocks + 2
          ≤ (calculate_integrity_blocks max_descriptors bitmap_blocks).rec_integrity_blocks)
unfolding calculate_integrity_blocks
fits max_descriptors bitmap_blocks h = ground arith

-- The bitmap of a volume with at most 2^31 blocks of bitmap: the header of the largest journal entry
-- has a descriptor for each of its data blocks, with `max_descriptors` of them in its first block and
-- 2048 in each further one, and the recommended integrity section holds that entry.
pub calculate_integrity_blocks-fits :
    (max_descriptors bitmap_blocks : ℕ) {l : TransactionLimits}
    → bitmap_blocks ≤ 2 ^ 31
    → calculate_integrity_blocks max_descriptors bitmap_blocks ≡ l
    → (l.max_entry_data_blocks + 2048
        ≤ max_descriptors + (l.max_entry_blocks - l.max_entry_data_blocks - 3) * 2048)
      × (l.max_entry_blocks + 2 ≤ l.rec_integrity_blocks)
calculate_integrity_blocks-fits max_descriptors bitmap_blocks h e =
    rw (← e) (fits max_descriptors bitmap_blocks h)
