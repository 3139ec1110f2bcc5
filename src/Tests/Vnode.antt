-- ===== src/Tests/Vnode.antt =====
-- A file that is unlinked while it is open, and one whose vnode is lost when it is closed.
use fuchsia_minfs.Prelude.{
  ℕ, ◌≡◌, ◌<◌, refl, true, false, some, none, ok, err, bad_state, List, [], arith,
}
use fuchsia_minfs.Unlinked.List.{add_unlinked, remove_unlinked, unlink_before, unlink_after}
use fuchsia_minfs.Vnode.State.{
  Vnode, Vnodes, Calls, put_vnode, ino_free, purge, drop_link, empty_directory, unlinked_vnode,
  remove_inode_link, remove_unlinked_vnode, close_node, vnode_new, vnode_release,
}
use fuchsia_minfs.Vnode.Steps.{opened, closed, create, open_vnode, unlink, close, Reach, here, next}
use fuchsia_minfs.Vnode.Invariant.{IsConsistent}
use fuchsia_minfs.Vnode.Keeps.{Reach-IsConsistent}

abbrev no_vnode : Vnode
no_vnode = record {
  is_directory = false;
  link_count = 0;
  dirent_count = 0;
  open_count = 0;
  is_purged = false;
}

abbrev no_vnodes : Vnodes
no_vnodes = record {
  unlinked = record {
    last_inode = λ i. 0;
    next_inode = λ i. 0;
    unlinked_head = 0;
    unlinked_tail = 0;
  };
  vnodes = λ i. no_vnode;
  in_hash = λ i. false;
  ino_allocated = λ i. false;
}

abbrev calls_ok : Calls
calls_ok = record {
  begin_transaction = ok tt;
  blocks_shrink = ok tt;
  truncate = ok tt;
  flush = ok tt;
}

no_vnodes-IsConsistent : IsConsistent false 0 no_vnodes []
no_vnodes-IsConsistent = record {
  holds = record { head = refl; linked = refl; distinct = tt };
  unlinked = tt;
  allocated = tt;
  hashed = λ q. tt;
  open_listed = λ i n l o. absurd (omega (arith, o));
  linked_clear = λ i l. record { last = refl; next = refl };
  linked_live = λ i l. absurd (omega (arith, l));
  never_open = refl;
}

-- A file gets inode 4 and is opened; its one link goes, and it waits on the list.
abbrev open_file : Vnodes
open_file = opened (vnode_new false no_vnodes 4) 4

abbrev unlinked_file : Vnodes
unlinked_file = record (put_vnode open_file 4 (record (open_file.vnodes 4) { link_count = 0 })) {
  unlinked = add_unlinked open_file.unlinked 4;
}

unlink_open_file : remove_inode_link calls_ok open_file 4 ≡ some (unlinked_file, ok tt)
unfolding remove_inode_link drop_link unlinked_vnode empty_directory vnode_new
unlink_open_file = refl

unlinked_file-listed : unlinked_file.unlinked.unlinked_head ≡ 4
unfolding vnode_new add_unlinked
unlinked_file-listed = refl

abbrev closed_file : Vnodes
closed_file =
    (purge calls_ok
      (record (closed unlinked_file 4) { unlinked = remove_unlinked unlinked_file.unlinked 4 }) 4).0

close_unlinked_file : close_node calls_ok (closed unlinked_file 4) 4 ≡ some (closed_file, ok tt)
unfolding close_node remove_unlinked_vnode purge ino_free vnode_new add_unlinked
close_unlinked_file = refl

closed_file-freed : closed_file.ino_allocated 4 ≡ false
unfolding purge ino_free vnode_new
closed_file-freed = refl

closed_file-erased : closed_file.unlinked.unlinked_head ≡ 0
unfolding purge ino_free vnode_new add_unlinked remove_unlinked unlink_before unlink_after
closed_file-erased = refl

file_linked : 0 < ((vnode_new false no_vnodes 4).vnodes 4).link_count
unfolding vnode_new
file_linked = omega arith

file_open : 0 < (unlinked_file.vnodes 4).open_count
unfolding vnode_new
file_open = omega arith

file_found : open_file.in_hash 4 ≡ true
unfolding vnode_new
file_found = refl

life : Reach false no_vnodes closed_file
life =
    next
      (next (next (next here (create false 4 (omega arith) refl)) (open_vnode 4 file_linked))
        (unlink calls_ok 4 (unlinked_file, ok tt) file_found unlink_open_file refl))
      (close calls_ok 4 (closed_file, ok tt) (λ q. refl) file_open close_unlinked_file refl)

Reach-IsConsistent_example : (ys : List ℕ) × IsConsistent false 0 closed_file ys
Reach-IsConsistent_example =
    Reach-IsConsistent false no_vnodes closed_file [] no_vnodes-IsConsistent life

-- A transaction cannot be begun when the unlinked file is closed: its vnode is not found any more, and
-- its inode stays at the tail. The next open file that is unlinked stops the run.
abbrev lost_file : Vnodes
lost_file = vnode_release (closed unlinked_file 4) 4

close_lost_file :
    close_node (record calls_ok { begin_transaction = err bad_state }) (closed unlinked_file 4) 4
    ≡ some (lost_file, err bad_state)
unfolding close_node remove_unlinked_vnode vnode_new
close_lost_file = refl

unlink_behind_lost : remove_inode_link calls_ok (opened (vnode_new false lost_file 6) 6) 6 ≡ none
unfolding remove_inode_link drop_link unlinked_vnode vnode_new add_unlinked
unlink_behind_lost = refl
