-- ===== src/Tests/Volume.antt =====
-- Mkfs on small devices, and the checks on a managed volume.
use fuchsia_minfs.Prelude.{
  Result, ltb, if◌then◌else◌, out_of_range, ℕ, ◌+◌, ◌-◌, ◌*◌, ◌^◌, ◌≤◌, ◌<◌, ◌≡◌, ◌≢◌, refl, none,
  some, ok, err, unavailable, arith,
}
use fuchsia_minfs.Format.{Superblock}
use fuchsia_minfs.Limits.{
  TransactionLimits, transaction_limits, calculate_integrity_blocks, get_block_bitmap_blocks,
}
use fuchsia_minfs.Volume.Checks.{
  VolumeManager, verify_slices_size, check_superblock, update_checksum,
}
use fuchsia_minfs.Volume.Mkfs.{
  write_volume, write_blocks, mkfs, mkfs_loop, mkfs_round, choose_journal, finish_info,
  initial_info,
}
use fuchsia_minfs.Volume.Formatted.{at_round, min_journal}
use fuchsia_minfs.Volume.Accepted.{mkfs-ends, mkfs-accepted, mkfs-regions, mkfs-mountable}
use fuchsia_minfs.Volume.Slices.{Fits, verify_slices_size-regions}

-- Writes past the end of the device fail.
abbrev device_of : ℕ → ℕ → Result (Unit {0})
device_of blocks n = if ltb n blocks then ok tt else err out_of_range

abbrev sum_of_counts : Superblock → ℕ
sum_of_counts info = info.block_count + info.dat_block

abbrev no_manager : VolumeManager
no_manager = record {
  get_info = err unavailable;
  query_slices = λ starts. err unavailable;
  shrink = λ offset length. err unavailable;
}

-- A device of 1000 blocks has the recommended 256 for the journal; one of 177 has the least.
abbrev large_info : Superblock
large_info = finish_info sum_of_counts (at_round 24 592) 256

large_made : mkfs (device_of 1000) sum_of_counts 2000 1000 ≡ some (ok large_info)
unfolding mkfs write_volume write_blocks finish_info update_checksum mkfs_loop mkfs_round
    choose_journal transaction_limits get_block_bitmap_blocks calculate_integrity_blocks
large_made = refl

-- One data block is left: the root directory would lie past the end.
small_refused : mkfs (device_of 177) sum_of_counts 2000 177 ≡ some (err out_of_range)
unfolding mkfs write_volume write_blocks finish_info update_checksum mkfs_loop mkfs_round
    choose_journal transaction_limits get_block_bitmap_blocks calculate_integrity_blocks
small_refused = refl

mkfs-ends_example : mkfs (device_of 1000) sum_of_counts 2000 5 ≢ none
mkfs-ends_example = mkfs-ends (device_of 1000) sum_of_counts 2000 5 (omega arith)

large_two : 2 ≤ large_info.block_count
unfolding finish_info update_checksum
large_two = omega arith

mkfs-accepted_example : check_superblock sum_of_counts 2000 no_manager large_info 1000 ≡ ok tt
mkfs-accepted_example =
    mkfs-accepted (device_of 1000) sum_of_counts 2000 no_manager 1000 large_info (omega arith)
      (omega arith) large_made large_two

mkfs-regions_example :
    (large_info.inode_count ≤ (large_info.abm_block - large_info.ibm_block) * 65536)
    × (large_info.block_count ≤ (large_info.ino_block - large_info.abm_block) * 65536)
    × (large_info.inode_count ≤ (large_info.integrity_start_block - large_info.ino_block) * 32)
    × (min_journal 2000 (large_info.ino_block - large_info.abm_block)
        ≤ large_info.dat_block - large_info.integrity_start_block)
    × (large_info.dat_block + large_info.block_count ≡ 1000)
mkfs-regions_example =
    mkfs-regions (device_of 1000) sum_of_counts 2000 1000 large_info (omega arith) (omega arith)
      large_made

mkfs-mountable_example : check_superblock sum_of_counts 2000 no_manager large_info 1000 ≡ ok tt
mkfs-mountable_example =
    mkfs-mountable (device_of 1000) sum_of_counts 2000 no_manager 1000 large_info (omega arith)
      (omega arith) (λ n h e. ground (arith, h, e)) large_made

-- A managed volume with slices of four blocks.
abbrev managed_info : Superblock
managed_info = record initial_info {
  block_count = 2000;
  inode_count = 128;
  ibm_block = 0x10000;
  abm_block = 0x20000;
  ino_block = 0x30000;
  integrity_start_block = 0x40000;
  dat_block = 0x50000;
  ibm_slices = 1;
  abm_slices = 1;
  ino_slices = 1;
  integrity_slices = 64;
  dat_slices = 500;
}

abbrev some_limits : TransactionLimits
some_limits = record {
  max_meta_data_blocks = 5;
  max_data_blocks = 12;
  max_entry_data_blocks = 14;
  max_entry_blocks = 18;
  min_integrity_blocks = 20;
  rec_integrity_blocks = 256;
}

managed-Fits : Fits managed_info 4
managed-Fits = record {
  inodes = omega arith;
  blocks = omega arith;
  ibm = omega arith;
  abm = omega arith;
  ino = omega arith;
  integrity = omega arith;
  dat = omega arith;
  starts = (omega arith, omega arith, omega arith, omega arith, omega arith);
}

managed_verified : verify_slices_size managed_info some_limits 4 ≡ ok tt
unfolding verify_slices_size
managed_verified = refl

verify_slices_size-regions_example :
    ((0x10000 + 1 * 4 < 0x20000)
      × (0x20000 + 1 * 4 < 0x30000)
      × (0x30000 + 1 * 4 < 0x40000)
      × (0x40000 + 64 * 4 ≤ 0x50000)
      × (0x50000 + 500 * 4 < 2 ^ 32))
    × (128 ≤ 1 * 4 * 65536)
    × (2000 ≤ 1 * 4 * 65536)
    × (128 ≤ 1 * 4 * 32)
    × (20 ≤ 64 * 4)
    × (2000 ≤ 500 * 4)
    × (2 ≤ 2000)
verify_slices_size-regions_example =
    verify_slices_size-regions managed_info some_limits 4 managed-Fits managed_verified
