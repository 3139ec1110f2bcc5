-- ===== src/Fsck/Sound.antt =====
-- Fsck: what an image that passes has.
use fuchsia_minfs.Prelude.{
  ℕ, zero, suc, ◌+◌, ◌-◌, ◌^◌, ◌≤◌, ◌<◌, ◌≡◌, ◌≢◌, refl, sym, ◌∙◌, subst, Bool, true, false, ◌==◌,
  inl, inr, List, [], ◌∷◌, length, All, u32, Status, bad_state, arith, Bool-cases, ==_iff,
}
use fuchsia_minfs.Prelude.Run.{Run, finished, ◌>>=◌, ◌>>◌, require}
use fuchsia_minfs.Prelude.Int.{negsuc}
use fuchsia_minfs.Format.{Inode}
use fuchsia_minfs.Unlinked.List.{Distinct}
use fuchsia_minfs.Fsck.State.{Image, Checker, put}
use fuchsia_minfs.Fsck.Walk.{get_inode, check_inode}
use fuchsia_minfs.Fsck.Totals.{
  new_checker, check_reserved_inode, check_reserved_block, check_reserved, check_unlinked_inode,
  check_unlinked_from, count_missing, check_for_unused_blocks, check_for_unused_inodes,
  check_link_counts, check_allocated_counts, check_totals_of, inode_fuel, fsck,
}
use fuchsia_minfs.Fsck.Tree.{Reads}
use fuchsia_minfs.Fsck.Rules.{bind-then}
use fuchsia_minfs.Fsck.Accounts.{Entry, blocks_of, member, IsFree}
use fuchsia_minfs.Fsck.Conforms.{Owns}
use fuchsia_minfs.Fsck.Keeps.{check_inode-Keeps}
use fuchsia_minfs.Fsck.Quiet.{
  Keeps, same, Accounted, finished-Keeps, require-Keeps, if-Keeps, after-Keeps, bind-Keeps,
}

pub record InUse (im : Image) (b : ℕ) : Type 0 where
  pub not_reserved : b ≢ 0
  pub in_range : b < im.info.block_count
  pub allocated : im.block_allocated b ≡ true

pub record IsSound (im : Image) (d : ℕ → ℕ → ℕ) (es : List Entry) : Type 0 where
  pub owned :
      (i : ℕ)
      → i < im.info.inode_count
      → im.inode_allocated i ≡ true
      → i ≢ 0
      → Owns d i (im.inodes i) es
  pub distinct : Distinct (blocks_of es)
  pub in_use : All (InUse im) (blocks_of es)
  pub used :
      (b : ℕ)
      → b < im.info.block_count
      → im.block_allocated b ≡ true
      → b ≢ 0
      → member b (blocks_of es) ≡ true
  pub reserved : (im.block_allocated 0 ≡ true) × (im.inode_allocated 0 ≡ true)
  pub counted : u32 im.info.alloc_block_count ≡ u32 (1 + length es)

-- The list of unlinked inodes.
module _ (im : Image) (d : ℕ → ℕ → ℕ) (reads : Reads im d) where
  check_unlinked_inode-Keeps :
      (fuel last ino : ℕ) (inode : Inode) (c : Checker)
      → Keeps im d same c (check_unlinked_inode im (check_inode fuel im) last ino inode c)
  unfolding check_unlinked_inode
  check_unlinked_inode-Keeps fuel last ino inode c =
      let c' : Checker = record c { links = put c.links (ino - 1) (negsuc 0) } in
      let run : Run Checker = check_inode fuel im c' ino 0 false in
      require-Keeps im d same c (inode.link_count == 0) bad_state
        (require (inode.last_inode == last) bad_state >> run)
        (require-Keeps im d same c (inode.last_inode == last) bad_state run (
          bind-Keeps im d same c same (finished c') (λ x. check_inode fuel im x ino 0 false)
            (finished-Keeps im d same c c'
              (record { blocks = refl; counted = refl; conformed = λ e. e; inodes = refl }))
            (λ x. check_inode-Keeps im d reads fuel x ino 0 false)))

  check_unlinked_from-Keeps :
      (fuel inner last next : ℕ) (c : Checker)
      → Keeps im d same c (check_unlinked_from fuel im (check_inode inner im) last next c)
  unfolding check_unlinked_from
  check_unlinked_from-Keeps zero inner last next c = record { entries = λ x e h. absurd (cc e) }
  check_unlinked_from-Keeps (suc fuel) inner last next c =
      let end : Run Checker = require (im.info.unlinked_tail == last) bad_state >> finished c in
      let rest : Inode → Run Checker = λ inode.
        check_unlinked_inode im (check_inode inner im) last next inode c
        >>= check_unlinked_from fuel im (check_inode inner im) next inode.next_inode in
      if-Keeps im d same c (next == 0) end (get_inode im next >>= rest)
        (require-Keeps im d same c (im.info.unlinked_tail == last) bad_state (finished c) (
          finished-Keeps im d same c c
            (record { blocks = refl; counted = refl; conformed = λ e. e; inodes = refl })))
        (after-Keeps im d same c (get_inode im next) rest λ inode.
          bind-Keeps im d same c same
            (check_unlinked_inode im (check_inode inner im) last next inode c)
            (check_unlinked_from fuel im (check_inode inner im) next inode.next_inode)
            (check_unlinked_inode-Keeps inner last next inode c)
            λ x. check_unlinked_from-Keeps fuel inner next inode.next_inode x)

-- The loops over the bits.
count_missing-le : (a c : ℕ → Bool) (n : ℕ) → count_missing a c n ≤ n
unfolding count_missing
count_missing-le a c zero = omega arith
count_missing-le a c (suc n) = ground (arith, count_missing-le a c n)

none_missing :
    (a c : ℕ → Bool) (n i : ℕ)
    → n < 2 ^ 32
    → count_missing a c n ≡ 0
    → i < n
    → a i ≡ true
    → c i ≡ true
unfolding count_missing
none_missing a c zero i b h lt e = absurd (omega (arith, lt))
none_missing a c (suc n) i b h lt e = elim (Bool-cases (i == n)) [
  | inl q ↦
      let p : i ≡ n = (==_iff i n).0 q in
      let e' : a n ≡ true = rw (← p) e in
      subst (λ j. c j ≡ true) (sym p) (ground (arith, count_missing-le a c n))
  | inr q ↦
      let lt' : i < n = ground arith in
      none_missing a c n i (omega arith) (ground (arith, count_missing-le a c n)) lt' e
]

-- What comes behind a run or a test that was passed.
bind_unit : (m n : Run (Unit {0})) → (m >> n) ≡ finished tt → (m ≡ finished tt) × (n ≡ finished tt)
bind_unit m n h = let (x, e, k) = bind-then m (λ _. n) h in (e, k)

require-finished : (b : Bool) (status : Status) → require b status ≡ finished tt → b ≡ true
require-finished true status h = refl
require-finished false status h = absurd (cc h)

-- The checks behind the walks.
record Passes (im : Image) (c : Checker) : Type 0 where
  blocks : count_missing im.block_allocated c.checked_blocks im.info.block_count ≡ 0
  inodes : count_missing im.inode_allocated c.checked_inodes im.info.inode_count ≡ 0
  counts : c.alloc_blocks ≡ im.info.alloc_block_count
  conforms : c.conforming ≡ true

module _ (im : Image) (c : Checker) where
  blocks-passed :
      check_for_unused_blocks im c ≡ finished tt
      → count_missing im.block_allocated c.checked_blocks im.info.block_count ≡ 0
  unfolding check_for_unused_blocks
  blocks-passed h = ground (arith, require-finished _ bad_state h)

  inodes-passed :
      check_for_unused_inodes im c ≡ finished tt
      → count_missing im.inode_allocated c.checked_inodes im.info.inode_count ≡ 0
  unfolding check_for_unused_inodes
  inodes-passed h = ground (arith, require-finished _ bad_state h)

  counts-passed :
      check_allocated_counts im c ≡ finished tt → c.alloc_blocks ≡ im.info.alloc_block_count
  unfolding check_allocated_counts
  counts-passed h = ground (arith, require-finished _ bad_state h)

  totals-Passes :
      (integrity : Run (Unit {0})) → check_totals_of im integrity c ≡ finished tt → Passes im c
  unfolding check_totals_of
  totals-Passes integrity h =
      let last = require c.conforming bad_state in
      let k4 = integrity >> last in
      let k3 = check_allocated_counts im c >> k4 in
      let k2 = check_link_counts im c >> k3 in
      let k1 = check_for_unused_inodes im c >> k2 in
      let (blocks, h1) = bind_unit (check_for_unused_blocks im c) k1 h in
      let (inodes, h2) = bind_unit (check_for_unused_inodes im c) k2 h1 in
      let (links, h3) = bind_unit (check_link_counts im c) k3 h2 in
      let (counts, h4) = bind_unit (check_allocated_counts im c) k4 h3 in
      let (rest, h5) = bind_unit integrity last h4 in
      record {
        blocks = blocks-passed blocks;
        inodes = inodes-passed inodes;
        counts = counts-passed counts;
        conforms = require-finished c.conforming bad_state h5;
      }

-- The checker after CheckReserved.
module _ (im : Image) (h : (check_reserved im new_checker).conforming ≡ true) where
  abbrev c0 : Checker
  c0 = check_reserved im new_checker

  reserved-allocated : (im.block_allocated 0 ≡ true) × (im.inode_allocated 0 ≡ true)
  unfolding check_reserved_block check_reserved_inode
  reserved-allocated = ground arith

  reserved-blocks : (b : ℕ) → c0.checked_blocks b ≡ (b == 0)
  unfolding check_reserved_block check_reserved_inode
  reserved-blocks b = ground arith

  reserved-inodes : (i : ℕ) → c0.checked_inodes i ≡ (i == 0)
  unfolding check_reserved_block check_reserved_inode
  reserved-inodes i = ground arith

  reserved-count : c0.alloc_blocks ≡ 1
  unfolding check_reserved_block check_reserved_inode
  reserved-count = ground arith

IsFree-InUse : (im : Image) (c : Checker) (bs : List ℕ) → All (IsFree im c) bs → All (InUse im) bs
IsFree-InUse im c [] f = tt
IsFree-InUse im c (b ∷ bs) (f, fs) = (
  record { not_reserved = f.not_reserved; in_range = f.in_range; allocated = f.allocated },
  IsFree-InUse im c bs fs,
)

Passes-IsSound :
    (im : Image) (d : ℕ → ℕ → ℕ) (c : Checker) (es : List Entry)
    → im.info.block_count < 2 ^ 32
    → im.info.inode_count < 2 ^ 32
    → Accounted im d (check_reserved im new_checker) es c
    → Passes im c
    → IsSound im d es
Passes-IsSound im d c es hb hi a p =
    let start = a.accounts.conformed in
    record {
      owned = λ i lt al nz.
          elim (a.owned i
            (none_missing im.inode_allocated c.checked_inodes _ i hi p.inodes lt al)) [
              | inl old ↦ absurd (nz (ground (arith, old, reserved-inodes im start i)))
              | inr o ↦ o
            ];
      distinct = a.accounts.distinct;
      in_use = IsFree-InUse im (check_reserved im new_checker) (blocks_of es) a.accounts.usable;
      used = λ b lt al nz. ground (
        arith,
        none_missing im.block_allocated c.checked_blocks _ b hb p.blocks lt al,
        a.accounts.checked b,
        reserved-blocks im start b,
      );
      reserved = reserved-allocated im start;
      counted = rw (← p.counts) (a.accounts.allocated ∙ rw (reserved-count im start) refl);
    }

-- Where every block can be read and the counts of blocks and of inodes are words, an image that passes
-- Fsck has a list of the places that point to a block such that the places are of different blocks,
-- each of them in the volume, allocated and not block 0; each allocated block but block 0 is the block
-- of a place; each pointer that is not 0 of each allocated inode but inode 0 is a place, and no data
-- block of the inode lies past its size; block 0 and inode 0 are allocated; and the superblock counts
-- the places and one block more, modulo 2^32.
pub fsck-IsSound :
    (im : Image) (d : ℕ → ℕ → ℕ) (integrity : Run (Unit {0}))
    → Reads im d
    → im.info.block_count < 2 ^ 32
    → im.info.inode_count < 2 ^ 32
    → fsck im integrity ≡ finished tt
    → (es : List Entry) × IsSound im d es
unfolding fsck
fsck-IsSound im d integrity reads hb hi h =
    let c0 : Checker = check_reserved im new_checker in
    let walk : Run Checker = check_inode (inode_fuel im) im c0 1 1 false in
    let unlinked : Checker → Run Checker =
      check_unlinked_from (inode_fuel im) im (check_inode (inode_fuel im) im) 0
        im.info.unlinked_head in
    let (c1, e1, h1) = bind-then walk (λ c. unlinked c >>= check_totals_of im integrity) h in
    let (c2, e2, h2) = bind-then (unlinked c1) (check_totals_of im integrity) h1 in
    let p = totals-Passes im c2 integrity h2 in
    let both : Keeps im d same c0 (walk >>= unlinked) =
      bind-Keeps im d same c0 same walk unlinked
        (check_inode-Keeps im d reads (inode_fuel im) c0 1 1 false)
        (check_unlinked_from-Keeps im d reads (inode_fuel im) (inode_fuel im) 0
          im.info.unlinked_head) in
    let (es, a) = both.entries c2 (rw e1 e2) p.conforms in (es, Passes-IsSound im d c2 es hb hi a p)
