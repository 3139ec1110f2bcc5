-- ===== src/Tests/Limits.antt =====
-- Writes of concrete sizes.
use fuchsia_minfs.Prelude.{◌+◌, ◌-◌, ◌*◌, ◌/◌, ◌≤◌, ◌≡◌, ◌↔◌, refl, arith, ok, err, out_of_range}
use fuchsia_minfs.Limits.{
  TransactionLimits, get_required_block_count, required_direct, calculate_max_data_blocks,
  calculate_integrity_blocks,
}
use fuchsia_minfs.Limits.Walk.{walk, get_required_block_count-walk, end_block}
use fuchsia_minfs.Limits.Bounds.{
  get_required_block_count-out_of_range, get_required_block_count-le-max,
  calculate_integrity_blocks-fits,
}

-- Three bytes around the first doubly indirect block: two file blocks, the last indirect block and
-- the first behind the doubly indirect one, and that one itself.
get_required_block_count-walk_example :
    get_required_block_count 520224767 3 8192
    ≡ ok (walk (520224767 / 8192) ((520224767 + 3 - 1) / 8192 - 520224767 / 8192))
get_required_block_count-walk_example =
    get_required_block_count-walk 520224767 3 (omega arith) (omega arith)

get_required_block_count-out_of_range_example :
    (get_required_block_count (8192 * 4257807) 8193 8192 ≡ err out_of_range)
    ↔ (end_block ≤ (8192 * 4257807 + 8193 - 1) / 8192)
get_required_block_count-out_of_range_example =
    get_required_block_count-out_of_range (8192 * 4257807) 8193 (omega arith) (omega arith)

two_blocks : get_required_block_count 8000 8000 8192 ≡ ok 2
unfolding get_required_block_count required_direct
two_blocks = refl

get_required_block_count-le-max_example : 2 ≤ calculate_max_data_blocks
get_required_block_count-le-max_example =
    get_required_block_count-le-max 8000 8000 (omega arith) (omega arith) two_blocks

-- A journal whose entries name 1000 blocks at most in their first block, on a large volume.
abbrev large_limits : TransactionLimits
large_limits = record {
  max_meta_data_blocks = 5;
  max_data_blocks = 12;
  max_entry_data_blocks = 3010;
  max_entry_blocks = 3015;
  min_integrity_blocks = 3017;
  rec_integrity_blocks = 3017;
}

large_limits_lem : calculate_integrity_blocks 1000 3000 ≡ large_limits
unfolding calculate_integrity_blocks
large_limits_lem = refl

calculate_integrity_blocks-fits_example :
    (3010 + 2048 ≤ 1000 + (3015 - 3010 - 3) * 2048) × (3015 + 2 ≤ 3017)
calculate_integrity_blocks-fits_example =
    calculate_integrity_blocks-fits 1000 3000 (omega arith) large_limits_lem
