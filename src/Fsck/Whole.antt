-- ===== src/Fsck/Whole.antt =====
-- Fsck as a whole: it ends, and the list of unlinked inodes of an image that passes.
use fuchsia_minfs.Prelude.{
  ℕ, zero, suc, ◌+◌, ◌≡◌, ◌≢◌, Bool, true, false, ◌&&◌, ◌==◌, List, [], All, Status, bad_state,
  arith,
}
use fuchsia_minfs.Prelude.Int.{is_zero}
use fuchsia_minfs.Prelude.Run.{Run, finished, stopped, out_of_fuel, ◌>>=◌, require}
use fuchsia_minfs.Unlinked.List.{Holds}
use fuchsia_minfs.Fsck.State.{Image, Checker}
use fuchsia_minfs.Fsck.Walk.{check_inode}
use fuchsia_minfs.Fsck.Totals.{
  new_checker, check_reserved, check_unlinked_from, count_missing, check_for_unused_blocks,
  check_for_unused_inodes, check_links_from, check_link_counts, check_allocated_counts,
  check_totals_of, inode_fuel, fsck,
}
use fuchsia_minfs.Fsck.Tree.{Reads}
use fuchsia_minfs.Fsck.Rules.{bind-ends, require-ends, bind-then}
use fuchsia_minfs.Fsck.Ends.{unmarked-le, left, Ends, same}
use fuchsia_minfs.Fsck.Inodes.{check_inode-Ends}
use fuchsia_minfs.Fsck.Chain.{unlinked_of, check_unlinked_from-ends, check_unlinked_from-Rest}

not_out_of_fuel : (im : Image) (m : ℕ) (r : Run Checker) → Ends im m same r → r ≢ out_of_fuel
not_out_of_fuel im m (finished c) e = λ q. cc q
not_out_of_fuel im m (stopped status) e = λ q. cc q
not_out_of_fuel im m out_of_fuel e = absurd e

require_ends : (b : Bool) (status : Status) → require b status ≢ out_of_fuel
require_ends true status e = cc e
require_ends false status e = cc e

links-ends : (c : Checker) (left n : ℕ) → check_links_from c left n ≢ out_of_fuel
unfolding check_links_from
links-ends c zero n = λ e. cc e
links-ends c (suc left) n =
    require-ends (is_zero (c.links n)) bad_state (check_links_from c left (n + 1))
      (links-ends c left (n + 1))

totals-ends :
    (im : Image) (integrity : Run (Unit {0})) (c : Checker)
    → integrity ≢ out_of_fuel
    → check_totals_of im integrity c ≢ out_of_fuel
unfolding check_totals_of check_for_unused_blocks check_for_unused_inodes check_link_counts
    check_allocated_counts
totals-ends im integrity c h =
    require-ends (count_missing im.block_allocated c.checked_blocks im.info.block_count == 0)
      bad_state _
      (require-ends (count_missing im.inode_allocated c.checked_inodes im.info.inode_count == 0)
        bad_state _
        (bind-ends (check_links_from c im.info.inode_count 0) _ (links-ends c im.info.inode_count 0)
          λ x q.
            require-ends
              (c.alloc_blocks == im.info.alloc_block_count
                && c.alloc_inodes == im.info.alloc_inode_count)
              bad_state _ (bind-ends integrity _ h λ y q'. require_ends c.conforming bad_state)))

-- Where every block can be read, Fsck ends within the fuel of its loops and recursions.
pub fsck-ends :
    (im : Image) (d : ℕ → ℕ → ℕ) (integrity : Run (Unit {0}))
    → Reads im d
    → integrity ≢ out_of_fuel
    → fsck im integrity ≢ out_of_fuel
unfolding fsck
fsck-ends im d integrity reads h =
    let inode : (c : Checker) (i p : ℕ) (b : Bool)
        → check_inode (inode_fuel im) im c i p b ≢ out_of_fuel =
      λ c i p b. not_out_of_fuel im im.info.inode_count (check_inode (inode_fuel im) im c i p b) (
        check_inode-Ends im d reads (inode_fuel im) im.info.inode_count c i p b (omega arith)
          (unmarked-le c.checked_inodes im.info.inode_count)) in
    let unlinked : Checker → Run Checker =
      check_unlinked_from (inode_fuel im) im (check_inode (inode_fuel im) im) 0
        im.info.unlinked_head in
    bind-ends (check_inode (inode_fuel im) im (check_reserved im new_checker) 1 1 false)
      (λ c. unlinked c >>= check_totals_of im integrity)
      (inode (check_reserved im new_checker) 1 1 false)
      λ c q.
        bind-ends (unlinked c) (check_totals_of im integrity)
          (check_unlinked_from-ends im (check_inode (inode_fuel im) im) (λ x i. inode x i 0 false)
            (inode_fuel im) im.info.unlinked_head [] c tt tt (omega arith))
          λ c' q'. totals-ends im integrity c' h

-- An image that passes Fsck holds a list of unlinked inodes, as AddUnlinked and RemoveUnlinked keep
-- it: the superblock has its ends, its inodes are different from each other and linked both ways, and
-- none of them has a link.
pub fsck-Holds :
    (im : Image) (integrity : Run (Unit {0}))
    → fsck im integrity ≡ finished tt
    → (xs : List ℕ) × Holds (unlinked_of im) xs × All (λ x. (im.inodes x).link_count ≡ 0) xs
unfolding fsck
fsck-Holds im integrity h =
    let recurse = check_inode (inode_fuel im) im in
    let unlinked : Checker → Run Checker =
      check_unlinked_from (inode_fuel im) im recurse 0 im.info.unlinked_head in
    let (c1, e1, h1) =
      bind-then (recurse (check_reserved im new_checker) 1 1 false)
        (λ c. unlinked c >>= check_totals_of im integrity) h in
    let (c2, e2, h2) = bind-then (unlinked c1) (check_totals_of im integrity) h1 in
    let (xs, r) =
      check_unlinked_from-Rest im recurse (inode_fuel im) im.info.unlinked_head [] c1 c2 tt tt e2 in
    (xs, record { head = r.starts; linked = r.linked; distinct = r.distinct }, r.unlinked)
