-- ===== src/Volume/Checks.antt =====
-- VerifySlicesSize, CheckSlices, CheckSuperblock and UpdateChecksum. The volume manager of the block
-- device, the CRC of a superblock's bytes and the journal's kMaxBlockDescriptors are parameters.
use fuchsia_minfs.Prelude.{
  ℕ, ◌+◌, ◌-◌, ◌*◌, ◌/◌, ◌^◌, bit_and, Bool, false, not, ◌&&◌, ◌||◌, ◌==◌, ltb, leb, if◌then◌else◌,
  List, [], ◌∷◌, length, u32, sub32, u64, Result, ok, err, ◌>>◌, guard, wrong_type, not_supported,
  io_data_integrity, bad_state, invalid_args, unavailable,
}
use fuchsia_minfs.Format.{
  Superblock, minfs_magic0, minfs_magic1, minfs_current_major_version, minfs_block_size,
  minfs_block_bits, minfs_inode_size, minfs_inodes_per_block, minfs_flag_fvm,
  fvm_block_inode_bm_start, fvm_block_data_bm_start, fvm_block_inode_start, fvm_block_data_start,
}
use fuchsia_minfs.Limits.{TransactionLimits, transaction_limits}

-- VolumeGetInfo (the slice size), VolumeQuerySlices (for each start, whether the slice is allocated
-- and how many are like it) and VolumeShrink.
pub record VolumeManager : Type 0 where
  pub get_info : Result ℕ
  pub query_slices : List ℕ → Result (List (Bool × ℕ))
  pub shrink : (offset length : ℕ) → Result (Unit {0})

-- `(count + unit - 1) / unit` on uint32_t.
abbrev pub blocks_needed : ℕ → ℕ → ℕ
blocks_needed count unit = sub32 (u32 (count + unit)) 1 / unit

unfoldable pub verify_slices_size : Superblock → TransactionLimits → ℕ → Result (Unit {0})
verify_slices_size info limits blocks_per_slice = do
  guard
      (leb (blocks_needed info.inode_count minfs_block_bits)
        (u64 (info.ibm_slices * blocks_per_slice)))
      invalid_args
  guard (ltb (u64 (u64 (info.ibm_slices * blocks_per_slice) + info.ibm_block)) info.abm_block)
      invalid_args
  guard
      (leb (blocks_needed info.block_count minfs_block_bits)
        (u64 (info.abm_slices * blocks_per_slice)))
      invalid_args
  guard (ltb (u64 (u64 (info.abm_slices * blocks_per_slice) + info.abm_block)) info.ino_block)
      invalid_args
  guard
      (leb (blocks_needed info.inode_count minfs_inodes_per_block)
        (u64 (info.ino_slices * blocks_per_slice)))
      invalid_args
  guard
      (ltb (u64 (u64 (info.ino_slices * blocks_per_slice) + info.ino_block))
        info.integrity_start_block)
      invalid_args
  guard (leb limits.min_integrity_blocks (u64 (info.integrity_slices * blocks_per_slice)))
      invalid_args
  guard
      (leb (u64 (u64 (info.integrity_slices * blocks_per_slice) + info.integrity_start_block))
        info.dat_block)
      invalid_args
  guard (leb info.block_count (u64 (info.dat_slices * blocks_per_slice))) invalid_args
  guard (ltb (u64 (u64 (info.dat_slices * blocks_per_slice) + info.dat_block)) (2 ^ 32))
      invalid_args
  guard (ltb 1 info.block_count) invalid_args
  ok tt

-- The loop of CheckSlices over the expected slices, a start and a count each, and the ranges that the
-- volume manager reported: the shrinks that it has asked for, and its status.
unfoldable pub check_ranges :
    Bool
    → ((offset length : ℕ) → Result (Unit {0}))
    → List (ℕ × ℕ)
    → List (Bool × ℕ)
    → List (ℕ × ℕ) × Result (Unit {0})
check_ranges repair shrink [] ranges = ([], ok tt)
check_ranges repair shrink (e ∷ expected) [] = ([], ok tt)
check_ranges repair shrink ((start, minfs_count) ∷ expected) ((allocated, fvm_count) ∷ ranges) =
    let rest = check_ranges repair shrink expected ranges in
    let request : ℕ × ℕ = (start + minfs_count, fvm_count - minfs_count) in
    if not allocated || ltb fvm_count minfs_count
    then ([], err io_data_integrity)
    else if repair && ltb minfs_count fvm_count
    then elim (shrink request.0 request.1) [
      | ok u ↦ (request ∷ rest.0, rest.1)
      | err e ↦ (request ∷ [], err io_data_integrity)
    ]
    else rest

abbrev pub expected_slices : Superblock → ℕ → List (ℕ × ℕ)
expected_slices info blocks_per_slice =
    (fvm_block_inode_bm_start / blocks_per_slice, info.ibm_slices)
    ∷ (fvm_block_data_bm_start / blocks_per_slice, info.abm_slices)
    ∷ (fvm_block_inode_start / blocks_per_slice, info.ino_slices)
    ∷ (fvm_block_data_start / blocks_per_slice, info.dat_slices)
    ∷ []

abbrev starts : List (ℕ × ℕ) → List ℕ
starts [] = []
starts ((start, count) ∷ rest) = start ∷ starts rest

-- CheckSlices once the slice size is known to match.
unfoldable pub check_queried :
    Superblock → ℕ → VolumeManager → Bool → List (ℕ × ℕ) × Result (Unit {0})
check_queried info blocks_per_slice device repair =
    elim (device.query_slices (starts (expected_slices info blocks_per_slice))) [
      | err e ↦ ([], err unavailable)
      | ok ranges ↦
          if length ranges == 4
          then check_ranges repair device.shrink (expected_slices info blocks_per_slice) ranges
          else ([], err bad_state)
    ]

unfoldable pub check_slices :
    Superblock → ℕ → VolumeManager → Bool → List (ℕ × ℕ) × Result (Unit {0})
check_slices info blocks_per_slice device repair = elim device.get_info [
  | err e ↦ ([], err unavailable)
  | ok slice_size ↦
      if info.slice_size == slice_size
      then check_queried info blocks_per_slice device repair
      else ([], err bad_state)
]

-- UpdateChecksum: `crc` is crc32 of the bytes of the block.
unfoldable pub update_checksum : (Superblock → ℕ) → Superblock → Superblock
update_checksum crc info =
    let zeroed = record info { generation_count = u32 (info.generation_count + 1); checksum = 0 } in
    record zeroed { checksum = crc zeroed }

-- The last part of CheckSuperblock, where the volume is not managed, and where it is.
unfoldable pub check_plain : TransactionLimits → Superblock → ℕ → Result (Unit {0})
check_plain limits info max_blocks = do
  guard (u32 (info.dat_block + info.block_count) == max_blocks) io_data_integrity
  guard (not (ltb (sub32 info.dat_block info.integrity_start_block) limits.min_integrity_blocks))
      bad_state
  ok tt

unfoldable pub check_managed : VolumeManager → TransactionLimits → Superblock → Result (Unit {0})
check_managed device limits info =
    (check_slices info (info.slice_size / minfs_block_size) device false).1
    >> verify_slices_size info limits (info.slice_size / minfs_block_size)

unfoldable pub check_superblock :
    (Superblock → ℕ) → ℕ → VolumeManager → Superblock → ℕ → Result (Unit {0})
check_superblock crc max_descriptors device info max_blocks = do
  guard (info.magic0 == minfs_magic0 && info.magic1 == minfs_magic1) wrong_type
  guard (info.major_version == minfs_current_major_version) not_supported
  guard (info.checksum == crc (record info { checksum = 0 })) io_data_integrity
  guard (info.block_size == minfs_block_size && info.inode_size == minfs_inode_size)
      io_data_integrity
  guard (leb info.alloc_block_count info.block_count) io_data_integrity
  guard (leb info.alloc_inode_count info.inode_count) io_data_integrity
  (if bit_and info.flags minfs_flag_fvm == 0
      then check_plain (transaction_limits max_descriptors info) info max_blocks
      else check_managed device (transaction_limits max_descriptors info) info)
