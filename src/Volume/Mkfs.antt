-- ===== src/Volume/Mkfs.antt =====
-- Mkfs on a device with no volume manager: the superblock that it writes, and the loop that finds the
-- size of the block bitmap. `writeblk` is what Writeblk returns for a block; the contents are output.
use fuchsia_minfs.Prelude.{
  ℕ, zero, suc, ◌+◌, ◌-◌, true, false, ltb, leb, if◌then◌else◌, Option, none, some, u32, round_up,
  Result, ok, err, ◌>>◌, invalid_args,
}
use fuchsia_minfs.Format.{
  Superblock, minfs_magic0, minfs_magic1, minfs_current_major_version, minfs_current_minor_version,
  minfs_block_size, minfs_block_bits, minfs_inode_size, minfs_inodes_per_block,
}
use fuchsia_minfs.Limits.{TransactionLimits, transaction_limits}
use fuchsia_minfs.Volume.Checks.{update_checksum, blocks_needed}

abbrev pub minfs_flag_clean : ℕ
minfs_flag_clean = 1

abbrev pub minfs_default_inode_count : ℕ
minfs_default_inode_count = 4096

abbrev pub inoblks : ℕ
inoblks = blocks_needed minfs_default_inode_count minfs_inodes_per_block

abbrev pub ibmblks : ℕ
ibmblks = blocks_needed minfs_default_inode_count minfs_block_bits

-- The superblock before the loop, for the number of blocks of the device.
abbrev pub initial_info : Superblock
initial_info = record {
  magic0 = minfs_magic0;
  magic1 = minfs_magic1;
  major_version = minfs_current_major_version;
  checksum = 0;
  generation_count = 0;
  flags = minfs_flag_clean;
  block_size = minfs_block_size;
  inode_size = minfs_inode_size;
  block_count = 0;
  inode_count = minfs_default_inode_count;
  alloc_block_count = 0;
  alloc_inode_count = 0;
  ibm_block = 8;
  abm_block = u32 (8 + round_up ibmblks 8);
  ino_block = 0;
  integrity_start_block = 0;
  dat_block = 0;
  slice_size = 0;
  ibm_slices = 0;
  abm_slices = 0;
  ino_slices = 0;
  integrity_slices = 0;
  dat_slices = 0;
  unlinked_head = 0;
  unlinked_tail = 0;
  oldest_minor_version = 0;
}

-- The blocks before the data without the journal, and the journal, in a round of the loop.
abbrev pub fixed_blocks : ℕ → ℕ
fixed_blocks alloc_bitmap_rounded = u32 (8 + round_up ibmblks 8 + alloc_bitmap_rounded + inoblks)

unfoldable pub choose_journal : TransactionLimits → ℕ → ℕ → ℕ
choose_journal limits non_dat_blocks blocks =
    if leb blocks (u32 (non_dat_blocks + limits.rec_integrity_blocks))
    then limits.min_integrity_blocks
    else limits.rec_integrity_blocks

abbrev pub with_ino_block : Superblock → ℕ → Superblock
with_ino_block info alloc_bitmap_rounded = record info {
  ino_block = u32 (info.abm_block + alloc_bitmap_rounded);
}

-- A round: an error, or the superblock with its count of data blocks, and the journal's blocks.
unfoldable pub mkfs_round : ℕ → ℕ → Superblock → ℕ → Result (Superblock × ℕ)
mkfs_round max_descriptors blocks info alloc_bitmap_rounded =
    let info' = with_ino_block info alloc_bitmap_rounded in
    let limits = transaction_limits max_descriptors info' in
    let journal_blocks = choose_journal limits (fixed_blocks alloc_bitmap_rounded) blocks in
    let non_dat_blocks = u32 (fixed_blocks alloc_bitmap_rounded + journal_blocks) in
    if leb blocks non_dat_blocks
    then err invalid_args
    else ok (record info' { block_count = blocks - non_dat_blocks }, journal_blocks)

-- The loop, with the journal's blocks of the last round; `none` if the fuel does not see it end.
unfoldable pub mkfs_loop : ℕ → ℕ → ℕ → ℕ → Superblock → ℕ → Option (Result (Superblock × ℕ))
mkfs_loop zero max_descriptors blocks alloc_bitmap_rounded info journal_blocks = none
mkfs_loop (suc fuel) max_descriptors blocks alloc_bitmap_rounded info journal_blocks =
    elim (ltb alloc_bitmap_rounded blocks) [
      | false ↦ some (ok (info, journal_blocks))
      | true ↦ elim (mkfs_round max_descriptors blocks info alloc_bitmap_rounded) [
        | err e ↦ some (err e)
        | ok (info', journal) ↦
            elim (leb (blocks_needed info'.block_count minfs_block_bits) alloc_bitmap_rounded) [
              | true ↦ some (ok (info', journal))
              | false ↦
                  mkfs_loop fuel max_descriptors blocks (u32 (alloc_bitmap_rounded + 8)) info'
                    journal
            ]
      ]
    ]

-- The statements after the loop that set fields of the superblock, in their order.
unfoldable pub finish_info : (Superblock → ℕ) → Superblock → ℕ → Superblock
finish_info crc info journal_blocks =
    let integrity_start_block = u32 (info.ino_block + inoblks) in
    update_checksum crc (record info {
      integrity_start_block = integrity_start_block;
      dat_block = u32 (integrity_start_block + journal_blocks);
      oldest_minor_version = minfs_current_minor_version;
      alloc_inode_count = 2;
      alloc_block_count = 2;
      generation_count = 0;
    })

-- The block bitmap of 2^32 blocks has 65536 blocks, which the loop passes in 8192 rounds of 8.
abbrev pub mkfs_fuel : ℕ
mkfs_fuel = 8193

-- The loops that write `n` blocks from a block on.
unfoldable pub write_blocks : (ℕ → Result (Unit {0})) → ℕ → ℕ → Result (Unit {0})
write_blocks writeblk start zero = ok tt
write_blocks writeblk start (suc n) = writeblk start >> write_blocks writeblk (u32 (start + 1)) n

-- The writes that Mkfs tests: root directory, bitmaps and inode table. The root inode and the superblock
-- are written without a test.
unfoldable pub write_volume : (ℕ → Result (Unit {0})) → Superblock → Result (Unit {0})
write_volume writeblk info =
    writeblk (u32 (info.dat_block + 1))
    >> (write_blocks writeblk info.abm_block (blocks_needed info.block_count minfs_block_bits)
        >> (write_blocks writeblk info.ibm_block ibmblks
            >> write_blocks writeblk info.ino_block inoblks))

unfoldable pub mkfs :
    (ℕ → Result (Unit {0})) → (Superblock → ℕ) → ℕ → ℕ → Option (Result Superblock)
mkfs writeblk crc max_descriptors blocks =
    elim (mkfs_loop mkfs_fuel max_descriptors blocks 8 initial_info 0) [
      | none ↦ none
      | some (err e) ↦ some (err e)
      | some (ok (info, journal_blocks)) ↦ some (
          write_volume writeblk (finish_info crc info journal_blocks)
          >> ok (finish_info crc info journal_blocks))
    ]
