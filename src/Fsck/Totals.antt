-- ===== src/Fsck/Totals.antt =====
-- CheckReserved, CheckUnlinkedInodes, the checks of the totals, and Fsck.
use fuchsia_minfs.Prelude.{
  ℕ, zero, suc, ◌+◌, ◌-◌, Bool, true, false, not, ◌&&◌, ◌==◌, if◌then◌else◌, u32, bad_state, [],
}
use fuchsia_minfs.Prelude.Int.{pos, negsuc, is_zero}
use fuchsia_minfs.Prelude.Run.{Run, finished, out_of_fuel, ◌>>=◌, ◌>>◌, require}
use fuchsia_minfs.Format.{Inode, minfs_root_ino}
use fuchsia_minfs.Fsck.State.{Image, Checker, put, set_bit}
use fuchsia_minfs.Fsck.Walk.{Recurse, get_inode, check_inode}

-- MinfsChecker::Create: the root directory's parent entry is its own.
abbrev pub new_checker : Checker
new_checker = record {
  conforming = true;
  checked_inodes = λ i. false;
  checked_blocks = λ b. false;
  blk_info = λ b. [];
  max_inode = 0;
  alloc_inodes = 0;
  alloc_blocks = 0;
  links = put (λ i. pos 0) 0 (negsuc 0);
  indirect_blocks = 0;
  directory_blocks = 0;
}

unfoldable pub check_reserved_inode : Image → Checker → Checker
check_reserved_inode im c =
    if im.inode_allocated 0
    then record c {
      checked_inodes = set_bit c.checked_inodes 0;
      alloc_inodes = u32 (c.alloc_inodes + 1);
    }
    else record c { conforming = false }

unfoldable pub check_reserved_block : Image → Checker → Checker
check_reserved_block im c =
    if im.block_allocated 0
    then record c {
      checked_blocks = set_bit c.checked_blocks 0;
      alloc_blocks = u32 (c.alloc_blocks + 1);
    }
    else record c { conforming = false }

abbrev pub check_reserved : Image → Checker → Checker
check_reserved im c = check_reserved_block im (check_reserved_inode im c)

-- An inode of the unlinked list: it has no links, and the one before it is the one it names.
unfoldable pub check_unlinked_inode : Image → Recurse → ℕ → ℕ → Inode → Checker → Run Checker
check_unlinked_inode im recurse last_ino ino inode c = do
  require (inode.link_count == 0) bad_state
  require (inode.last_inode == last_ino) bad_state
  recurse (record c { links = put c.links (ino - 1) (negsuc 0) }) ino 0 false

unfoldable pub check_unlinked_from : ℕ → Image → Recurse → ℕ → ℕ → Checker → Run Checker
check_unlinked_from zero im recurse last_ino next_ino c = out_of_fuel
check_unlinked_from (suc fuel) im recurse last_ino next_ino c =
    if next_ino == 0
    then (require (im.info.unlinked_tail == last_ino) bad_state >> finished c)
    else (get_inode im next_ino >>= λ inode.
        check_unlinked_inode im recurse last_ino next_ino inode c
        >>= check_unlinked_from fuel im recurse next_ino inode.next_inode)

-- `unsigned` counters of the loops over the bits.
unfoldable pub count_missing : (ℕ → Bool) → (ℕ → Bool) → ℕ → ℕ
count_missing allocated checked zero = 0
count_missing allocated checked (suc n) =
    u32 (count_missing allocated checked n + (if allocated n && not (checked n) then 1 else 0))

unfoldable pub check_for_unused_blocks : Image → Checker → Run (Unit {0})
check_for_unused_blocks im c =
    require (count_missing im.block_allocated c.checked_blocks im.info.block_count == 0) bad_state

unfoldable pub check_for_unused_inodes : Image → Checker → Run (Unit {0})
check_for_unused_inodes im c =
    require (count_missing im.inode_allocated c.checked_inodes im.info.inode_count == 0) bad_state

-- The loop returns at the first inode whose links do not agree.
unfoldable pub check_links_from : Checker → ℕ → ℕ → Run (Unit {0})
check_links_from c zero n = finished tt
check_links_from c (suc left) n =
    require (is_zero (c.links n)) bad_state >> check_links_from c left (n + 1)

unfoldable pub check_link_counts : Image → Checker → Run (Unit {0})
check_link_counts im c = check_links_from c im.info.inode_count 0

unfoldable pub check_allocated_counts : Image → Checker → Run (Unit {0})
check_allocated_counts im c =
    require
      (c.alloc_blocks == im.info.alloc_block_count && c.alloc_inodes == im.info.alloc_inode_count)
      bad_state

-- What Fsck does behind the list of unlinked inodes: the first error is the one that it returns.
-- `integrity` is the result of CheckSuperblockIntegrity.
unfoldable pub check_totals_of : Image → Run (Unit {0}) → Checker → Run (Unit {0})
check_totals_of im integrity c = do
  check_for_unused_blocks im c
  check_for_unused_inodes im c
  check_link_counts im c
  check_allocated_counts im c
  integrity
  require c.conforming bad_state

abbrev pub inode_fuel : Image → ℕ
inode_fuel im = im.info.inode_count + 1

unfoldable pub fsck : Image → Run (Unit {0}) → Run (Unit {0})
fsck im integrity =
    let recurse = check_inode (inode_fuel im) im in
    recurse (check_reserved im new_checker) minfs_root_ino minfs_root_ino false >>= λ c.
    check_unlinked_from (inode_fuel im) im recurse 0 im.info.unlinked_head c
    >>= check_totals_of im integrity
