-- ===== src/Volume/Slices.antt =====
-- What the checks of a managed volume ensure.
use fuchsia_minfs.Prelude.{
  ℕ, ◌+◌, ◌-◌, ◌*◌, ◌^◌, ◌≤◌, ◌<◌, ◌≡◌, refl, Bool, true, false, ltb, leb, List, [], ◌∷◌, All,
  leb→le, ltb→lt, u64, Status, Result, ok, ◌>>◌, guard, arith, invalid_args,
}
use fuchsia_minfs.Format.{Superblock}
use fuchsia_minfs.Limits.{TransactionLimits}
use fuchsia_minfs.Volume.Checks.{blocks_needed, verify_slices_size}

-- A row of guards with one status.
abbrev guards : List Bool → Status → Result (Unit {0})
guards [] status = ok tt
guards (test ∷ rest) status = guard test status >> guards rest status

guards-passed :
    (tests : List Bool) (status : Status) → guards tests status ≡ ok tt → All (λ t. t ≡ true) tests
guards-passed [] status e = tt
guards-passed (true ∷ rest) status e = (refl, guards-passed rest status e)
guards-passed (false ∷ rest) status e = absurd (ground arith)

-- The tests of VerifySlicesSize, with the slices of each region in blocks.
abbrev slices_tests : Superblock → TransactionLimits → (ibm abm ino integrity dat : ℕ) → List Bool
slices_tests info limits ibm abm ino integrity dat =
    leb (blocks_needed info.inode_count 65536) ibm
    ∷ ltb (u64 (ibm + info.ibm_block)) info.abm_block
    ∷ leb (blocks_needed info.block_count 65536) abm
    ∷ ltb (u64 (abm + info.abm_block)) info.ino_block
    ∷ leb (blocks_needed info.inode_count 32) ino
    ∷ ltb (u64 (ino + info.ino_block)) info.integrity_start_block
    ∷ leb limits.min_integrity_blocks integrity
    ∷ leb (u64 (integrity + info.integrity_start_block)) info.dat_block
    ∷ leb info.block_count dat
    ∷ ltb (u64 (dat + info.dat_block)) (2 ^ 32)
    ∷ ltb 1 info.block_count
    ∷ []

-- The counts of a superblock that fit its words, so that rounding one up to blocks does not wrap.
pub record Fits (info : Superblock) (blocks_per_slice : ℕ) : Type 0 where
  pub inodes : info.inode_count ≤ 2 ^ 32 - 2 ^ 16
  pub blocks : info.block_count ≤ 2 ^ 32 - 2 ^ 16
  pub ibm : info.ibm_slices * blocks_per_slice < 2 ^ 62
  pub abm : info.abm_slices * blocks_per_slice < 2 ^ 62
  pub ino : info.ino_slices * blocks_per_slice < 2 ^ 62
  pub integrity : info.integrity_slices * blocks_per_slice < 2 ^ 62
  pub dat : info.dat_slices * blocks_per_slice < 2 ^ 62
  pub starts :
      (info.ibm_block < 2 ^ 32)
      × (info.abm_block < 2 ^ 32)
      × (info.ino_block < 2 ^ 32)
      × (info.integrity_start_block < 2 ^ 32)
      × (info.dat_block < 2 ^ 32)

below :
    (slices start next : ℕ)
    → slices < 2 ^ 62
    → start < 2 ^ 32
    → ltb (u64 (slices + start)) next ≡ true
    → start + slices < next
below slices start next h s t = omega (arith, ltb→lt _ _ t)

slices-regions :
    (info : Superblock) (limits : TransactionLimits) (ibm abm ino integrity dat : ℕ)
    → (info.inode_count ≤ 2 ^ 32 - 2 ^ 16) × (info.block_count ≤ 2 ^ 32 - 2 ^ 16)
    → (ibm < 2 ^ 62) × (abm < 2 ^ 62) × (ino < 2 ^ 62) × (integrity < 2 ^ 62) × (dat < 2 ^ 62)
    → (info.ibm_block < 2 ^ 32)
      × (info.abm_block < 2 ^ 32)
      × (info.ino_block < 2 ^ 32)
      × (info.integrity_start_block < 2 ^ 32)
      × (info.dat_block < 2 ^ 32)
    → All (λ t. t ≡ true) (slices_tests info limits ibm abm ino integrity dat)
    → ((info.ibm_block + ibm < info.abm_block)
        × (info.abm_block + abm < info.ino_block)
        × (info.ino_block + ino < info.integrity_start_block)
        × (info.integrity_start_block + integrity ≤ info.dat_block)
        × (info.dat_block + dat < 2 ^ 32))
      × (info.inode_count ≤ ibm * 65536)
      × (info.block_count ≤ abm * 65536)
      × (info.inode_count ≤ ino * 32)
      × (limits.min_integrity_blocks ≤ integrity)
      × (info.block_count ≤ dat)
      × (2 ≤ info.block_count)
slices-regions info limits ibm abm ino integrity dat (ci, cb) (a, b, c, d, e) (sa, sb, sc, sd, se)
      h =
    let (t0, h0) = h in
    let (t1, h1) = h0 in
    let (t2, h2) = h1 in
    let (t3, h3) = h2 in
    let (t4, h4) = h3 in
    let (t5, h5) = h4 in
    let (t6, h6) = h5 in
    let (t7, h7) = h6 in
    let (t8, h8) = h7 in
    let (t9, h9) = h8 in
    let (t10, h10) = h9 in
    (
      (
        below ibm info.ibm_block info.abm_block a sa t1,
        below abm info.abm_block info.ino_block b sb t3,
        below ino info.ino_block info.integrity_start_block c sc t5,
        omega (arith, leb→le _ _ t7),
        omega (arith, ltb→lt _ _ t9),
      ),
      omega (arith, leb→le _ _ t0),
      omega (arith, leb→le _ _ t2),
      omega (arith, leb→le _ _ t4),
      leb→le _ _ t6,
      leb→le _ _ t8,
      ltb→lt _ _ t10,
    )

-- A superblock whose counts do not wrap and that VerifySlicesSize accepts: the regions, with all of
-- their slices, follow each other without overlap and end before block 2^32; the bitmaps, the inode
-- table, the journal's section and the data are no larger than their slices, and there are at least two
-- data blocks.
pub verify_slices_size-regions :
    (info : Superblock) (limits : TransactionLimits) (blocks_per_slice : ℕ)
    → Fits info blocks_per_slice
    → verify_slices_size info limits blocks_per_slice ≡ ok tt
    → ((info.ibm_block + info.ibm_slices * blocks_per_slice < info.abm_block)
        × (info.abm_block + info.abm_slices * blocks_per_slice < info.ino_block)
        × (info.ino_block + info.ino_slices * blocks_per_slice < info.integrity_start_block)
        × (info.integrity_start_block + info.integrity_slices * blocks_per_slice ≤ info.dat_block)
        × (info.dat_block + info.dat_slices * blocks_per_slice < 2 ^ 32))
      × (info.inode_count ≤ info.ibm_slices * blocks_per_slice * 65536)
      × (info.block_count ≤ info.abm_slices * blocks_per_slice * 65536)
      × (info.inode_count ≤ info.ino_slices * blocks_per_slice * 32)
      × (limits.min_integrity_blocks ≤ info.integrity_slices * blocks_per_slice)
      × (info.block_count ≤ info.dat_slices * blocks_per_slice)
      × (2 ≤ info.block_count)
unfolding verify_slices_size
verify_slices_size-regions info limits blocks_per_slice f e =
    let ibm : u64 (info.ibm_slices * blocks_per_slice) ≡ info.ibm_slices * blocks_per_slice =
      let h = f.ibm in omega arith in
    let abm : u64 (info.abm_slices * blocks_per_slice) ≡ info.abm_slices * blocks_per_slice =
      let h = f.abm in omega arith in
    let ino : u64 (info.ino_slices * blocks_per_slice) ≡ info.ino_slices * blocks_per_slice =
      let h = f.ino in omega arith in
    let integrity : u64 (info.integrity_slices * blocks_per_slice)
        ≡ info.integrity_slices * blocks_per_slice =
      let h = f.integrity in omega arith in
    let dat : u64 (info.dat_slices * blocks_per_slice) ≡ info.dat_slices * blocks_per_slice =
      let h = f.dat in omega arith in
    slices-regions info limits (info.ibm_slices * blocks_per_slice)
      (info.abm_slices * blocks_per_slice) (info.ino_slices * blocks_per_slice)
      (info.integrity_slices * blocks_per_slice) (info.dat_slices * blocks_per_slice)
      (f.inodes, f.blocks) (f.ibm, f.abm, f.ino, f.integrity, f.dat) f.starts
      (guards-passed
        (slices_tests info limits (info.ibm_slices * blocks_per_slice)
          (info.abm_slices * blocks_per_slice) (info.ino_slices * blocks_per_slice)
          (info.integrity_slices * blocks_per_slice) (info.dat_slices * blocks_per_slice))
        invalid_args (rw (ibm, abm, ino, integrity, dat) at e))
