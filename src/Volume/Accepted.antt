-- ===== src/Volume/Accepted.antt =====
-- What Mkfs returns, and CheckSuperblock on it.
use fuchsia_minfs.Prelude.{
  Result, ◌>>◌, >>-ok, subst, ℕ, suc, ◌+◌, ◌-◌, ◌*◌, ◌^◌, ◌≤◌, ◌<◌, ◌≡◌, ◌≢◌, ◌⊎◌, inl, inr, refl,
  sym, ap, ◌∙◌, true, false, ◌==◌, ltb, leb, none, some, u32, sub32, ok, err, invalid_args, arith,
  Bool-cases, ==_iff,
}
use fuchsia_minfs.Format.{Superblock}
use fuchsia_minfs.Limits.{transaction_limits, calculate_integrity_blocks, get_block_bitmap_blocks}
use fuchsia_minfs.Volume.Checks.{
  VolumeManager, blocks_needed, update_checksum, check_superblock, check_plain,
}
use fuchsia_minfs.Volume.Mkfs.{initial_info, mkfs_loop, finish_info, mkfs, write_volume}
use fuchsia_minfs.Volume.Formatted.{at_round, Found, min_journal, mkfs_loop-Found}

mkfs_loop-exit :
    (fuel max_descriptors blocks alloc : ℕ) (info : Superblock) (journal : ℕ)
    → blocks ≤ alloc
    → mkfs_loop (suc fuel) max_descriptors blocks alloc info journal ≡ some (ok (info, journal))
unfolding mkfs_loop
mkfs_loop-exit fuel max_descriptors blocks alloc info journal h =
    let q : ltb alloc blocks ≡ false = ground arith in rw (q, mkfs_loop)

some_not_none : {X : Type 0} {x : X} → some x ≢ none
some_not_none e = cc

-- Mkfs on a device of more than 8 blocks.
mkfs-Found :
    (writeblk : ℕ → Result (Unit {0})) (crc : Superblock → ℕ) (max_descriptors blocks : ℕ)
    → 8 < blocks
    → blocks < 2 ^ 32
    → (mkfs writeblk crc max_descriptors blocks ≡ some (err invalid_args))
      ⊎ ((info : Superblock) × (journal : ℕ) × (mkfs writeblk crc max_descriptors blocks
            ≡ some (
                write_volume writeblk (finish_info crc info journal)
                >> ok (finish_info crc info journal)))
          × Found max_descriptors blocks info journal)
unfolding mkfs
mkfs-Found writeblk crc max_descriptors blocks h w =
    elim (mkfs_loop-Found 8193 max_descriptors blocks 0 0 8 0 h w refl (omega arith)) [
      | inl e ↦ inl (rw (e, mkfs))
      | inr (info, journal, e, found) ↦ inr (info, journal, rw (e, mkfs), found)
    ]

-- Mkfs on a device of less than 2^32 blocks ends within the fuel of its loop.
pub mkfs-ends :
    (writeblk : ℕ → Result (Unit {0})) (crc : Superblock → ℕ) (max_descriptors blocks : ℕ)
    → blocks < 2 ^ 32
    → mkfs writeblk crc max_descriptors blocks ≢ none
unfolding mkfs
mkfs-ends writeblk crc max_descriptors blocks w e = elim (Bool-cases (ltb 8 blocks)) [
  | inl q ↦ elim (mkfs-Found writeblk crc max_descriptors blocks (ground arith) w) [
    | inl r ↦ let x = sym r ∙ e in cc
    | inr (info, journal, r, found) ↦ some_not_none (sym r ∙ e)
  ]
  | inr q ↦
      let x = mkfs_loop-exit 8192 max_descriptors blocks 8 initial_info 0 (ground arith) in
      let y = rw (x, mkfs) at e in some_not_none y
]

-- The limits of an unmanaged volume depend on its block bitmap only.
transaction_limits-of :
    (max_descriptors alloc : ℕ) (info : Superblock)
    → alloc ≤ 2 ^ 20
    → info.flags ≡ 1
    → info.abm_block ≡ 16
    → info.ino_block ≡ 16 + alloc
    → transaction_limits max_descriptors info ≡ calculate_integrity_blocks max_descriptors alloc
unfolding transaction_limits get_block_bitmap_blocks
transaction_limits-of max_descriptors alloc info h f a i =
    let e : sub32 (16 + alloc) 16 ≡ alloc = omega arith in rw (f, a, i, e)

same_checksum : (n : ℕ) → (n == n) ≡ true
same_checksum n = (==_iff n n).1 refl

-- The superblock that Mkfs writes, in the numbers of its layout.
finished-checks :
    (crc : Superblock → ℕ) (max_descriptors : ℕ) (device : VolumeManager) (blocks alloc journal : ℕ)
    → blocks < 2 ^ 32
    → alloc ≤ 65552
    → 144 + alloc + journal < blocks
    → min_journal max_descriptors alloc ≤ journal
    → 2 ≤ blocks - (144 + alloc + journal)
    → check_superblock crc max_descriptors device
        (finish_info crc (at_round (16 + alloc) (blocks - (144 + alloc + journal))) journal)
        blocks
      ≡ ok tt
unfolding check_superblock check_plain finish_info update_checksum
finished-checks crc max_descriptors device blocks alloc journal w a room enough two =
    let count = blocks - (144 + alloc + journal) in
    let start : u32 (16 + alloc + 128) ≡ 144 + alloc = omega arith in
    let dat : u32 (144 + alloc + journal) ≡ 144 + alloc + journal = omega arith in
    let two' : leb 2 count ≡ true = ground arith in
    let info = finish_info crc (at_round (16 + alloc) count) journal in
    let limits = transaction_limits-of max_descriptors alloc info (omega arith) refl refl refl in
    let total : (u32 (144 + alloc + journal + count) == blocks) ≡ true = ground arith in
    let long : ltb (sub32 (144 + alloc + journal) (144 + alloc)) (min_journal max_descriptors alloc)
        ≡ false =
      ground arith in
    rw (limits, same_checksum info.checksum, start, dat, two', total, long)

write_volume-root :
    (writeblk : ℕ → Result (Unit {0})) (info : Superblock)
    → write_volume writeblk info ≡ ok tt
    → writeblk (u32 (info.dat_block + 1)) ≡ ok tt
unfolding write_volume
write_volume-root writeblk info e = (>>-ok (writeblk (u32 (info.dat_block + 1))) _ tt e).0

-- A superblock that Mkfs returns, on a device of more than 8 blocks.
record Written (writeblk : ℕ → Result (Unit {0})) (crc : Superblock → ℕ)
    (max_descriptors blocks : ℕ) (info : Superblock) : Type 0 where
  alloc : ℕ
  journal : ℕ
  count : ℕ
  is : info ≡ finish_info crc (at_round (16 + alloc) count) journal
  sum : 144 + alloc + journal + count ≡ blocks
  some_blocks : 0 < count
  alloc_le : alloc ≤ 65552
  small : journal ≤ 2 ^ 22
  enough : min_journal max_descriptors alloc ≤ journal
  holds : blocks_needed count 65536 ≤ alloc
  wrote : writeblk (u32 (info.dat_block + 1)) ≡ ok tt

mkfs-Written :
    (writeblk : ℕ → Result (Unit {0})) (crc : Superblock → ℕ) (max_descriptors blocks : ℕ)
    (info : Superblock)
    → 8 < blocks
    → blocks < 2 ^ 32
    → mkfs writeblk crc max_descriptors blocks ≡ some (ok info)
    → Written writeblk crc max_descriptors blocks info
mkfs-Written writeblk crc max_descriptors blocks info h w e =
    elim (mkfs-Found writeblk crc max_descriptors blocks h w) [
      | inl r ↦ let x = sym r ∙ e in absurd cc
      | inr (i, journal, r, found) ↦
          let x = sym r ∙ e in
          let made = finish_info crc i journal in
          let all : (write_volume writeblk made >> ok made) ≡ ok info = cc in
          let (wrote, done) = >>-ok (write_volume writeblk made) (ok made) info all in
          let same : made ≡ info = cc in
          let count : i.block_count ≡ blocks - (144 + found.alloc + journal) = rw found.laid.is in
          let room = found.laid.room in
          record {
            alloc = found.alloc;
            journal = journal;
            count = blocks - (144 + found.alloc + journal);
            is = sym same ∙ ap (λ y. finish_info crc y journal) found.laid.is;
            sum = omega arith;
            some_blocks = omega arith;
            alloc_le = found.alloc_le;
            small = found.laid.small;
            enough = found.laid.enough;
            holds = rw count at found.holds;
            wrote =
                subst (λ y. writeblk (u32 (y.dat_block + 1)) ≡ ok tt) same
                  (write_volume-root writeblk made wrote);
          }
    ]

block_count-finish_info :
    (crc : Superblock → ℕ) (info : Superblock) (journal : ℕ)
    → (finish_info crc info journal).block_count ≡ info.block_count
unfolding finish_info update_checksum
block_count-finish_info crc info journal = refl

dat_block-finish_info :
    (crc : Superblock → ℕ) (alloc count journal : ℕ)
    → 144 + alloc + journal < 2 ^ 32
    → (finish_info crc (at_round (16 + alloc) count) journal).dat_block ≡ 144 + alloc + journal
unfolding finish_info update_checksum
dat_block-finish_info crc alloc count journal h = omega (arith, h)

-- On a device of more than 8 and less than 2^32 blocks, with no volume manager, CheckSuperblock
-- accepts the superblock that Mkfs writes if that has at least two data blocks.
pub mkfs-accepted :
    (writeblk : ℕ → Result (Unit {0})) (crc : Superblock → ℕ) (max_descriptors : ℕ)
    (device : VolumeManager) (blocks : ℕ) (info : Superblock)
    → 8 < blocks
    → blocks < 2 ^ 32
    → mkfs writeblk crc max_descriptors blocks ≡ some (ok info)
    → 2 ≤ info.block_count
    → check_superblock crc max_descriptors device info blocks ≡ ok tt
mkfs-accepted writeblk crc max_descriptors device blocks info h w e two =
    let written = mkfs-Written writeblk crc max_descriptors blocks info h w e in
    let sum = written.sum in
    let some_blocks = written.some_blocks in
    let count : written.count ≡ blocks - (144 + written.alloc + written.journal) = omega arith in
    let is = rw count at written.is in
    let two' : 2 ≤ blocks - (144 + written.alloc + written.journal) =
      rw (is, block_count-finish_info) at two in
    rw is (
      finished-checks crc max_descriptors device blocks written.alloc written.journal w
        written.alloc_le (omega arith) written.enough two')

-- On a device of more than 8 and at most 2^32 - 2^16 blocks, with no volume manager, the regions that
-- Mkfs lays out follow each other from the inode bitmap to the end of the device. The bitmaps have a
-- bit for each data block and for each inode, the inode table has room for the inodes, and the
-- journal's section has the minimum that the transactions ask for.
pub mkfs-regions :
    (writeblk : ℕ → Result (Unit {0})) (crc : Superblock → ℕ) (max_descriptors blocks : ℕ)
    (info : Superblock)
    → 8 < blocks
    → blocks ≤ 2 ^ 32 - 2 ^ 16
    → mkfs writeblk crc max_descriptors blocks ≡ some (ok info)
    → (info.inode_count ≤ (info.abm_block - info.ibm_block) * 65536)
      × (info.block_count ≤ (info.ino_block - info.abm_block) * 65536)
      × (info.inode_count ≤ (info.integrity_start_block - info.ino_block) * 32)
      × (min_journal max_descriptors (info.ino_block - info.abm_block)
          ≤ info.dat_block - info.integrity_start_block)
      × (info.dat_block + info.block_count ≡ blocks)
unfolding finish_info update_checksum
mkfs-regions writeblk crc max_descriptors blocks info h w e =
    let written = mkfs-Written writeblk crc max_descriptors blocks info h (omega arith) e in
    let sum = written.sum in
    let a = written.alloc_le in
    let j = written.small in
    let holds = written.holds in
    let region : 16 + written.alloc - 16 ≡ written.alloc = omega arith in
    rw (written.is, region)
      (omega arith, omega arith, omega arith, (let m = written.enough in omega arith), omega arith)

-- On a device of more than 8 and at most 2^32 - 2^16 blocks, with no volume manager, whose Writeblk fails
-- past its end, CheckSuperblock accepts every superblock that Mkfs returns.
pub mkfs-mountable :
    (writeblk : ℕ → Result (Unit {0})) (crc : Superblock → ℕ) (max_descriptors : ℕ)
    (device : VolumeManager) (blocks : ℕ) (info : Superblock)
    → 8 < blocks
    → blocks ≤ 2 ^ 32 - 2 ^ 16
    → ((n : ℕ) → blocks ≤ n → writeblk n ≢ ok tt)
    → mkfs writeblk crc max_descriptors blocks ≡ some (ok info)
    → check_superblock crc max_descriptors device info blocks ≡ ok tt
mkfs-mountable writeblk crc max_descriptors device blocks info h w past e =
    let written = mkfs-Written writeblk crc max_descriptors blocks info h (omega arith) e in
    let sum = written.sum in
    let some_blocks = written.some_blocks in
    elim (Bool-cases (ltb written.count 2)) [
      | inr q ↦
          mkfs-accepted writeblk crc max_descriptors device blocks info h (omega arith) e
            (rw (written.is, block_count-finish_info) (ground (arith, q)))
      | inl q ↦
          let dat =
            dat_block-finish_info crc written.alloc written.count written.journal
              (omega (arith, sum, w)) in
          let here : u32 (info.dat_block + 1) ≡ blocks =
            rw (written.is, dat) (ground (arith, q, sum, some_blocks, w)) in
          absurd (past blocks (omega arith) (ap writeblk (sym here) ∙ written.wrote))
    ]
