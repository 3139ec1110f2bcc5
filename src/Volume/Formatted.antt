-- ===== src/Volume/Formatted.antt =====
-- Mkfs: its loop ends, and CheckSuperblock accepts what it writes.
use fuchsia_minfs.Prelude.{
  ℕ, zero, suc, ◌+◌, ◌-◌, ◌*◌, ◌^◌, ◌≤◌, ◌<◌, ◌≡◌, ◌⊎◌, inl, inr, refl, true, ltb, leb, some, u32,
  sub32, ok, err, invalid_args, arith, Bool-cases,
}
use fuchsia_minfs.Format.{Superblock}
use fuchsia_minfs.Limits.{
  TransactionLimits, transaction_limits, calculate_integrity_blocks, get_block_bitmap_blocks,
}
use fuchsia_minfs.Volume.Checks.{blocks_needed}
use fuchsia_minfs.Volume.Mkfs.{
  initial_info, with_ino_block, fixed_blocks, choose_journal, mkfs_round, mkfs_loop,
}
use fuchsia_minfs.Volume.Limits.{min-le-rec, rec_bounded}

-- The superblock between two rounds.
abbrev pub at_round : ℕ → ℕ → Superblock
at_round ino_block block_count = record initial_info {
  ino_block = ino_block;
  block_count = block_count;
}

abbrev pub min_journal : ℕ → ℕ → ℕ
min_journal max_descriptors alloc =
    (calculate_integrity_blocks max_descriptors alloc).min_integrity_blocks

pub transaction_limits-at_round :
    (max_descriptors x y alloc : ℕ)
    → alloc ≤ 2 ^ 20
    → transaction_limits max_descriptors (with_ino_block (at_round x y) alloc)
      ≡ calculate_integrity_blocks max_descriptors alloc
unfolding transaction_limits get_block_bitmap_blocks
transaction_limits-at_round max_descriptors x y alloc h =
    let e : sub32 (u32 (16 + alloc)) 16 ≡ alloc = omega arith in rw e

-- What a round that succeeds leaves.
pub record Laid (max_descriptors blocks alloc : ℕ) (info : Superblock) (journal : ℕ) : Type 0 where
  pub is : info ≡ at_round (16 + alloc) (blocks - (144 + alloc + journal))
  pub room : 144 + alloc + journal < blocks
  pub enough : min_journal max_descriptors alloc ≤ journal
  pub small : journal ≤ 2 ^ 22

choose_journal-cases :
    (limits : TransactionLimits) (non_dat blocks : ℕ)
    → (choose_journal limits non_dat blocks ≡ limits.min_integrity_blocks)
      ⊎ (choose_journal limits non_dat blocks ≡ limits.rec_integrity_blocks)
unfolding choose_journal
choose_journal-cases limits non_dat blocks =
    elim (Bool-cases (leb blocks (u32 (non_dat + limits.rec_integrity_blocks)))) [
      | inl e ↦ inl (rw (e, choose_journal))
      | inr e ↦ inr (rw (e, choose_journal))
    ]

chosen :
    (max_descriptors non_dat blocks alloc : ℕ)
    → alloc ≤ 2 ^ 20
    → (min_journal max_descriptors alloc
        ≤ choose_journal (calculate_integrity_blocks max_descriptors alloc) non_dat blocks)
      × (choose_journal (calculate_integrity_blocks max_descriptors alloc) non_dat blocks ≤ 2 ^ 22)
chosen max_descriptors non_dat blocks alloc h =
    let m = min-le-rec max_descriptors alloc in
    let r = rec_bounded max_descriptors alloc h in
    elim (choose_journal-cases (calculate_integrity_blocks max_descriptors alloc) non_dat blocks) [
      | inl e ↦ rw e (omega arith, omega (arith, m, r))
      | inr e ↦ rw e (m, r)
    ]

mkfs_round-Laid :
    (max_descriptors blocks x y alloc : ℕ)
    → alloc ≤ 2 ^ 20
    → (mkfs_round max_descriptors blocks (at_round x y) alloc ≡ err invalid_args)
      ⊎ ((info : Superblock) × (journal : ℕ) × (mkfs_round max_descriptors blocks
              (at_round x y)
              alloc
            ≡ ok (info, journal))
          × Laid max_descriptors blocks alloc info journal)
unfolding mkfs_round
mkfs_round-Laid max_descriptors blocks x y alloc h =
    let limits = transaction_limits-at_round max_descriptors x y alloc h in
    let j =
      choose_journal (calculate_integrity_blocks max_descriptors alloc) (fixed_blocks alloc)
        blocks in
    let c = chosen max_descriptors (fixed_blocks alloc) blocks alloc h in
    let f : u32 (fixed_blocks alloc + j) ≡ 144 + alloc + j = omega (arith, c.1) in
    let i : u32 (16 + alloc) ≡ 16 + alloc = omega arith in
    elim (Bool-cases (leb blocks (144 + alloc + j))) [
      | inl e ↦ inl (rw (limits, f, e))
      | inr e ↦ inr (
        at_round (16 + alloc) (blocks - (144 + alloc + j)),
        j,
        rw (limits, f, e, i),
        record { is = refl; room = ground arith; enough = c.0; small = c.1 },
      )
    ]

-- What the loop leaves when it succeeds: the last round, whose bitmap holds the data blocks.
pub record Found (max_descriptors blocks : ℕ) (info : Superblock) (journal : ℕ) : Type 0 where
  pub alloc : ℕ
  pub alloc_le : alloc ≤ 65552
  pub laid : Laid max_descriptors blocks alloc info journal
  pub holds : blocks_needed info.block_count 65536 ≤ alloc

-- One step of the loop that is entered.
mkfs_loop-err :
    (fuel max_descriptors blocks alloc : ℕ) (info : Superblock) (journal : ℕ)
    → alloc < blocks
    → mkfs_round max_descriptors blocks info alloc ≡ err invalid_args
    → mkfs_loop (suc fuel) max_descriptors blocks alloc info journal ≡ some (err invalid_args)
unfolding mkfs_loop
mkfs_loop-err fuel max_descriptors blocks alloc info journal h e =
    let q : ltb alloc blocks ≡ true = ground arith in rw (q, mkfs_loop, e)

mkfs_loop-ok :
    (fuel max_descriptors blocks alloc : ℕ) (info info' : Superblock) (journal journal' : ℕ)
    → alloc < blocks
    → mkfs_round max_descriptors blocks info alloc ≡ ok (info', journal')
    → ((mkfs_loop (suc fuel) max_descriptors blocks alloc info journal
          ≡ some (ok (info', journal')))
        × (blocks_needed info'.block_count 65536 ≤ alloc))
      ⊎ ((mkfs_loop (suc fuel) max_descriptors blocks alloc info journal
            ≡ mkfs_loop fuel max_descriptors blocks (u32 (alloc + 8)) info' journal')
          × (alloc < blocks_needed info'.block_count 65536))
unfolding mkfs_loop
mkfs_loop-ok fuel max_descriptors blocks alloc info info' journal journal' h e =
    let q : ltb alloc blocks ≡ true = ground arith in
    elim (Bool-cases (leb (blocks_needed info'.block_count 65536) alloc)) [
      | inl l ↦ inl (rw (q, mkfs_loop, e, l), ground arith)
      | inr l ↦ inr (rw (q, mkfs_loop, e, l), ground arith)
    ]

-- From a round on, with fuel for every bitmap of up to 65536 blocks, the loop ends: with an error, or
-- with a layout.
pub mkfs_loop-Found :
    (fuel max_descriptors blocks x y alloc journal : ℕ)
    → alloc < blocks
    → blocks < 2 ^ 32
    → alloc + 8 * fuel ≡ 65552
    → 0 < fuel
    → (mkfs_loop fuel max_descriptors blocks alloc (at_round x y) journal ≡ some (err invalid_args))
      ⊎ ((info : Superblock) × (journal' : ℕ) × (mkfs_loop fuel max_descriptors blocks alloc
              (at_round x y)
              journal
            ≡ some (ok (info, journal')))
          × Found max_descriptors blocks info journal')
mkfs_loop-Found zero max_descriptors blocks x y alloc journal h w f pos = absurd (omega arith)
mkfs_loop-Found (suc fuel) max_descriptors blocks x y alloc journal h w f pos =
    elim (mkfs_round-Laid max_descriptors blocks x y alloc (omega arith)) [
      | inl e ↦ inl (mkfs_loop-err fuel max_descriptors blocks alloc (at_round x y) journal h e)
      | inr (info, journal', e, laid) ↦
          elim (mkfs_loop-ok fuel max_descriptors blocks alloc (at_round x y) info journal journal'
            h e) [
              | inl (r, holds) ↦ inr (
                info,
                journal',
                r,
                record { alloc = alloc; alloc_le = omega arith; laid = laid; holds = holds },
              )
              | inr (r, more) ↦
                  let room = laid.room in
                  let count : info.block_count ≡ blocks - (144 + alloc + journal') = rw laid.is in
                  let more' = rw count at more in
                  let next : u32 (alloc + 8) ≡ alloc + 8 = omega arith in
                  let ih =
                    mkfs_loop-Found fuel max_descriptors blocks (16 + alloc)
                      (blocks - (144 + alloc + journal')) (alloc + 8) journal' (omega arith) w
                      (omega arith) (omega arith) in
                  rw (r, next, laid.is) ih
            ]
    ]
