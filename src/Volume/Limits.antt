-- ===== src/Volume/Limits.antt =====
-- How large the journal is that TransactionLimits asks for.
use fuchsia_minfs.Prelude.{ℕ, ◌^◌, ◌≤◌, arith}
use fuchsia_minfs.Limits.{calculate_integrity_blocks}

pub min-le-rec :
    (max_descriptors bitmap_blocks : ℕ)
    → (calculate_integrity_blocks max_descriptors bitmap_blocks).min_integrity_blocks
      ≤ (calculate_integrity_blocks max_descriptors bitmap_blocks).rec_integrity_blocks
unfolding calculate_integrity_blocks
min-le-rec max_descriptors bitmap_blocks = ground arith

pub rec_bounded :
    (max_descriptors bitmap_blocks : ℕ)
    → bitmap_blocks ≤ 2 ^ 20
    → (calculate_integrity_blocks max_descriptors bitmap_blocks).rec_integrity_blocks ≤ 2 ^ 22
unfolding calculate_integrity_blocks
rec_bounded max_descriptors bitmap_blocks h = ground arith
