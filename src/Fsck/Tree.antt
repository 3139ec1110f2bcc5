-- ===== src/Fsck/Tree.antt =====
-- The tree of block pointers that the block mapping follows, for an inode of an image.
use fuchsia_minfs.Prelude.{
  ℕ, ◌+◌, ◌-◌, ◌*◌, ◌/◌, ◌%◌, ◌<◌, ◌≤◌, ◌≡◌, ◌≢◌, refl, ◌∙◌, true, false, ◌==◌, ltb, if◌then◌else◌,
  get_or, ok, arith,
}
use fuchsia_minfs.Format.{Inode}
use fuchsia_minfs.Mapper.Pointers.{Pointers, read, max_blocks}
use fuchsia_minfs.Mapper.Mapping.{block_at, indirect_block_at, double_block_at}
use fuchsia_minfs.Fsck.State.{Image}

-- What the virtual indirect file of an inode holds, where every block can be read.
unfoldable pub pointers_of : (ℕ → ℕ → ℕ) → Inode → Pointers
pointers_of d inode = record {
  dnum = inode.dnum;
  inum = inode.inum;
  dinum = inode.dinum;
  indirect_file = λ r.
      if ltb r 63488
      then d (get_or inode.inum (r / 2048) 0) (r % 2048)
      else if ltb r 65536
      then d (get_or inode.dinum 0 0) (r - 63488)
      else d (d (get_or inode.dinum 0 0) ((r - 65536) / 2048)) ((r - 65536) % 2048);
  load = λ start end. ok tt;
}

abbrev pub Reads : Image → (ℕ → ℕ → ℕ) → Type 0
Reads im d = (b : ℕ) → im.read_dat b ≡ ok (d b)

pub block_at-indirect :
    (v : Pointers) (n : ℕ) → 16 ≤ n → n < 63504 → block_at v n ≡ indirect_block_at v (n - 16)
unfolding block_at
block_at-indirect v n lo hi = ground arith

pub block_at-double :
    (v : Pointers) (n : ℕ) → 63504 ≤ n → block_at v n ≡ double_block_at v (n - 63504)
unfolding block_at
block_at-double v n lo = ground arith

module _ (d : ℕ → ℕ → ℕ) (inode : Inode) where
  indirect-zero :
      (r : ℕ) → get_or inode.inum (r / 2048) 0 ≡ 0 → indirect_block_at (pointers_of d inode) r ≡ 0
  unfolding indirect_block_at read pointers_of
  indirect-zero r e = rw e refl

  pub indirect-mapped :
      (r : ℕ)
      → r < 63488
      → get_or inode.inum (r / 2048) 0 ≢ 0
      → indirect_block_at (pointers_of d inode) r ≡ d (get_or inode.inum (r / 2048) 0) (r % 2048)
  unfolding indirect_block_at read pointers_of
  indirect-mapped r h e = ground arith

  file_middle :
      (q : ℕ)
      → q < 2048
      → (pointers_of d inode).indirect_file (63488 + q) ≡ d (get_or inode.dinum 0 0) q
  unfolding pointers_of
  file_middle q h =
      let a : ltb (63488 + q) 63488 ≡ false = ground arith in
      let b : ltb (63488 + q) 65536 ≡ true = ground arith in
      let c : 63488 + q - 63488 ≡ q = omega arith in rw (a, b, c) refl

  file_low :
      (r : ℕ)
      → (pointers_of d inode).indirect_file (65536 + r)
        ≡ d (d (get_or inode.dinum 0 0) (r / 2048)) (r % 2048)
  unfolding pointers_of
  file_low r =
      let a : ltb (65536 + r) 63488 ≡ false = ground arith in
      let b : ltb (65536 + r) 65536 ≡ false = ground arith in
      let c : 65536 + r - 65536 ≡ r = omega arith in rw (a, b, c) refl

  double_at :
      (r : ℕ)
      → r < 4194304
      → double_block_at (pointers_of d inode) r ≡ (
          if get_or inode.dinum 0 0 == 0
          then 0
          else if d (get_or inode.dinum 0 0) (r / 2048) == 0
          then 0
          else d (d (get_or inode.dinum 0 0) (r / 2048)) (r % 2048))
  unfolding double_block_at read pointers_of
  double_at r h =
      let q : r / 2048 / 2048 ≡ 0 = omega arith in
      let m = file_middle (r / 2048) (omega (arith, h)) in rw (q, m, file_low r) refl

  double-zero :
      (r : ℕ)
      → r < 4194304
      → get_or inode.dinum 0 0 ≡ 0
      → double_block_at (pointers_of d inode) r ≡ 0
  double-zero r h e = double_at r h ∙ rw e refl

  inner-zero :
      (r : ℕ)
      → r < 4194304
      → d (get_or inode.dinum 0 0) (r / 2048) ≡ 0
      → double_block_at (pointers_of d inode) r ≡ 0
  inner-zero r h e = double_at r h ∙ ground arith

  pub inner-mapped :
      (r : ℕ)
      → r < 4194304
      → get_or inode.dinum 0 0 ≢ 0
      → d (get_or inode.dinum 0 0) (r / 2048) ≢ 0
      → double_block_at (pointers_of d inode) r
        ≡ d (d (get_or inode.dinum 0 0) (r / 2048)) (r % 2048)
  inner-mapped r h e f = double_at r h ∙ ground arith

  -- A block of the tree that has no indirect block above it is not mapped.
  pub skip-indirect :
      (n k : ℕ)
      → 16 ≤ n
      → n < 63504
      → get_or inode.inum ((n - 16) / 2048) 0 ≡ 0
      → n ≤ k
      → k < 16 + ((n - 16) / 2048 + 1) * 2048
      → block_at (pointers_of d inode) k ≡ 0
  skip-indirect n k lo hi e a b =
      let q : (k - 16) / 2048 ≡ (n - 16) / 2048 = omega arith in
      block_at-indirect (pointers_of d inode) k (omega arith) (omega arith)
      ∙ indirect-zero (k - 16) (rw q e)

  pub skip-double :
      (k : ℕ)
      → 63504 ≤ k
      → k < max_blocks
      → get_or inode.dinum 0 0 ≡ 0
      → block_at (pointers_of d inode) k ≡ 0
  skip-double k lo hi e =
      block_at-double (pointers_of d inode) k lo ∙ double-zero (k - 63504) (omega arith) e

  pub skip-inner :
      (n k : ℕ)
      → 63504 ≤ n
      → n < max_blocks
      → d (get_or inode.dinum 0 0) ((n - 63504) / 2048) ≡ 0
      → n ≤ k
      → k < 63504 + ((n - 63504) / 2048 + 1) * 2048
      → block_at (pointers_of d inode) k ≡ 0
  skip-inner n k lo hi e a b =
      let q : (k - 63504) / 2048 ≡ (n - 63504) / 2048 = omega arith in
      block_at-double (pointers_of d inode) k (omega arith)
      ∙ inner-zero (k - 63504) (omega arith) (rw q e)
