-- ===== src/Fsck/Conforms.antt =====
-- CheckFile: what an inode of which the image still conforms has been made sure of.
use fuchsia_minfs.Prelude.{
  ℕ, ◌+◌, ◌<◌, ◌≤◌, ◌≡◌, ◌≢◌, refl, ◌∙◌, ap, true, List, ◌++◌, length, get_or, u32, some, ok, inl,
  arith,
}
use fuchsia_minfs.Format.{Inode}
use fuchsia_minfs.Mapper.Pointers.{max_blocks}
use fuchsia_minfs.Mapper.Mapping.{block_at}
use fuchsia_minfs.Fsck.State.{Image, Checker}
use fuchsia_minfs.Fsck.Files.{
  Count, Walk, indirect_info, double_info, inner_info, direct_info, size_blocks, check_totals,
  check_indirect, no_cache, check_file,
}
use fuchsia_minfs.Fsck.Tree.{Reads, pointers_of}
use fuchsia_minfs.Fsck.Accounts.{Entry, Member, Accounts}
use fuchsia_minfs.Fsck.Tally.{
  Tally-append, Member-fst, Member-snd, CoversDouble, check_pointers-Tally, doubled, doubled-Tally,
  doubled-inodes, check_pointers-inodes, check_doubles-runs, Walked, check_blocks-Walked,
}

-- Every pointer of the inode that is not 0 is in the list, and no data block lies past the size.
pub record Owns (d : ℕ → ℕ → ℕ) (ino : ℕ) (inode : Inode) (es : List Entry) : Type 0 where
  pub of_indirect :
      (k : ℕ)
      → k < 31
      → get_or inode.inum k 0 ≢ 0
      → Member (get_or inode.inum k 0, indirect_info ino k) es
  pub of_double : CoversDouble d ino (get_or inode.dinum 0 0) es
  pub of_blocks :
      (k : ℕ)
      → k < max_blocks
      → block_at (pointers_of d inode) k ≢ 0
      → Member (block_at (pointers_of d inode) k, direct_info ino k) es
  pub within_size :
      (k : ℕ) → k < max_blocks → block_at (pointers_of d inode) k ≢ 0 → k < size_blocks inode.size

-- The inode uses the blocks of the list, each for one purpose.
pub record Conforms (im : Image) (d : ℕ → ℕ → ℕ) (ino : ℕ) (inode : Inode) (c : Checker)
    (es : List Entry) (c' : Checker) : Type 0 where
  pub accounts : Accounts im c es c'
  pub counted : u32 (length es) ≡ u32 inode.block_count
  pub inodes : c'.checked_inodes ≡ c.checked_inodes
  pub owns : Owns d ino inode es

-- The tests of the totals.
module _ (inode : Inode) (w : Walk) where
  totals-conforming : (check_totals inode w).conforming ≡ true → check_totals inode w ≡ w.counted.0
  unfolding check_totals
  totals-conforming h = ground arith

  totals-inodes : (check_totals inode w).checked_inodes ≡ w.counted.0.checked_inodes
  unfolding check_totals
  totals-inodes = ground arith

  totals-count : (check_totals inode w).conforming ≡ true → w.counted.1 ≡ inode.block_count
  unfolding check_totals
  totals-count h = ground arith

  totals-size :
      (check_totals inode w).conforming ≡ true
      → w.next_blk ≢ 0
      → w.next_blk ≤ size_blocks inode.size
  unfolding check_totals
  totals-size h n = ground arith

-- In a longer list.
module _ (d : ℕ → ℕ → ℕ) (ino : ℕ) (inode : Inode) (es fs : List Entry)
    (widen : (e : Entry) → Member e es → Member e fs) where
  CoversDouble-widen : (b : ℕ) → CoversDouble d ino b es → CoversDouble d ino b fs
  CoversDouble-widen b c = record {
    own = λ n. widen (b, double_info ino 0) (c.own n);
    inner = λ n k hi z. widen (d b k, inner_info ino 0 k) (c.inner n k hi z);
  }

  pub Owns-widen : Owns d ino inode es → Owns d ino inode fs
  Owns-widen o = record {
    of_indirect =
        λ k hi z. widen (get_or inode.inum k 0, indirect_info ino k) (o.of_indirect k hi z);
    of_double = CoversDouble-widen (get_or inode.dinum 0 0) o.of_double;
    of_blocks =
        λ k hi z. widen (block_at (pointers_of d inode) k, direct_info ino k) (o.of_blocks k hi z);
    within_size = o.within_size;
  }

counts : (a b : ℕ) (es : List Entry) → u32 a ≡ u32 (0 + length es) → a ≡ b → u32 (length es) ≡ u32 b
counts a b es h e = omega (arith, h, e)

module _ (im : Image) (d : ℕ → ℕ → ℕ) (reads : Reads im d) (ino : ℕ) (inode : Inode)
    (c : Checker) where
  abbrev after_indirect : Count
  after_indirect = check_indirect im ino inode c

  abbrev after_double : Count
  after_double = doubled im d reads ino (get_or inode.dinum 0 0) after_indirect

  abbrev start : Walk
  start = record { counted = after_double; next_blk = 0 }

  totals-Conforms :
      (w : Walk)
      → Walked im d reads ino inode 0 start w
      → (check_totals inode w).conforming ≡ true
      → (es : List Entry) × Conforms im d ino inode c es (check_totals inode w)
  unfolding check_indirect
  totals-Conforms w r h =
      let same = totals-conforming inode w h in
      let (hs, t, blocks) = r.tally (rw same at h) in
      let (gs, u, double) =
        doubled-Tally im d reads ino (get_or inode.dinum 0 0) after_indirect t.accounts.conformed in
      let (es, v, indirects) =
        check_pointers-Tally im (indirect_info ino) (λ n. get_or inode.inum n 0) 31 0 (c, 0)
          u.accounts.conformed in
      let all =
        Tally-append im (c, 0) after_indirect w.counted es (gs ++ hs) v
          (Tally-append im after_indirect after_double w.counted gs hs u t) in
      (
        es ++ (gs ++ hs),
        record {
          accounts = rw same all.accounts;
          counted =
              counts w.counted.1 inode.block_count (es ++ (gs ++ hs)) all.count
                (totals-count inode w h);
          inodes = ap (λ k. k.checked_inodes) same ∙ all.inodes;
          owns = record {
            of_indirect = λ k hi z.
                Member-fst (get_or inode.inum k 0, indirect_info ino k) es (gs ++ hs)
                  (indirects k (omega arith) hi z);
            of_double =
                CoversDouble-widen d ino inode gs (es ++ (gs ++ hs))
                  (λ e m. Member-snd e es (gs ++ hs) (Member-fst e gs hs m))
                  (get_or inode.dinum 0 0) double;
            of_blocks = λ k hi z.
                let e : Entry = (block_at (pointers_of d inode) k, direct_info ino k) in
                Member-snd e es (gs ++ hs) (Member-snd e gs hs (blocks k (omega arith) hi z).0);
            within_size = λ k hi z.
                let below = (blocks k (omega arith) hi z).1 in
                omega (arith, below, totals-size inode w h (λ q. omega (arith, q, below)));
          };
        },
      )

  -- CheckFile of an inode, where every block can be read, returns, and
  -- marks no inode. If the image conforms after it,
  -- it did before; each pointer of the inode that is not 0, to a data block, to an indirect or to a
  -- doubly indirect block, is in a list of blocks that are all in the volume, allocated, not met
  -- before and different from each other; these are the blocks that are checked from then on besides
  -- the old ones, their number is the inode's block count and was added to the blocks in use (modulo
  -- 2^32), and no data block lies past the size.
  pub check_file-Conforms :
      (c' : Checker) × (check_file im ino inode c ≡ some (ok c'))
      × (c'.checked_inodes ≡ c.checked_inodes)
      × (c'.conforming ≡ true → (es : List Entry) × Conforms im d ino inode c es c')
  unfolding check_file check_indirect
  check_file-Conforms =
      let (w, q, r) =
        check_blocks-Walked im d reads ino inode (max_blocks + 1) 0 no_cache start
          (record { of_indirect = inl refl; of_doubly = inl refl }) (omega arith) (omega arith)
          (omega arith) in
      (
        check_totals inode w,
        rw (check_doubles-runs im d reads ino inode after_indirect, q) refl,
        totals-inodes inode w
            ∙ r.inodes
            ∙ doubled-inodes im d reads ino (get_or inode.dinum 0 0) after_indirect
            ∙ check_pointers-inodes im (indirect_info ino) (λ n. get_or inode.inum n 0) 31 0 (c, 0),
        totals-Conforms w r,
      )
