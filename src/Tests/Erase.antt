-- ===== src/Tests/Erase.antt =====
-- A directory in which the record of a file stands between two free ones.
use fuchsia_minfs.Prelude.{
  List, ℕ, ◌+◌, arith, ◌≡◌, refl, [], ◌∷◌, true, false, some, ok, ◌==◌, if◌then◌else◌,
}
use fuchsia_minfs.Format.{dirent_size, Dirent, dirent_reserved_size, is_last}
use fuchsia_minfs.Directory.Records.{
  Directory, DirectoryOffset, for_each_dirent, walk_from, visit, validate_dirent, matches,
  same_name, callback_find, next_dirent,
}
use fuchsia_minfs.Directory.Erase.{
  UnlinkCalls, read_dirent, check_unlink, vnode_get, can_unlink, directory_unlink, coalesce,
  coalesce_next, coalesce_prev, empty_dirent,
}
use fuchsia_minfs.Directory.Unlink.{Unlinks, directory_unlink-Unlinks}
use fuchsia_minfs.Directory.Records.{callback_find_space}
use fuchsia_minfs.Directory.Names.{check_link, directory_link, link_args, lookup_internal}
use fuchsia_minfs.Directory.Lookup.{directory_link-lookup_internal}
use fuchsia_minfs.Limits.{get_required_block_count, required_direct}
use fuchsia_minfs.Vnode.State.{Vnodes, Calls, Outcome}

abbrev own_entry : Dirent
own_entry = record { ino = 5; reclen = 16; namelen = 1; dtype = 4; name = 46 ∷ [] }

abbrev free_entry : Dirent
free_entry = record { ino = 0; reclen = 20; namelen = 1; dtype = 8; name = 98 ∷ [] }

abbrev file_entry : Dirent
file_entry = record { ino = 9; reclen = 16; namelen = 1; dtype = 8; name = 97 ∷ [] }

abbrev last_entry : Dirent
last_entry = record { ino = 0; reclen = 0x80000000; namelen = 1; dtype = 8; name = 99 ∷ [] }

abbrev with_file : Directory
with_file = record {
  records = λ o.
      if o == 0
      then own_entry
      else if o == 16
      then free_entry
      else if o == 36
      then file_entry
      else last_entry;
  size = 8192;
  link_count = 2;
  dirent_count = 2;
  seq_num = 3;
}

abbrev at_file : DirectoryOffset
at_file = record { off = 36; off_prev = 16 }

abbrev file_vnodes : Vnodes
file_vnodes = record {
  unlinked = record {
    last_inode = λ i. 0;
    next_inode = λ i. 0;
    unlinked_head = 0;
    unlinked_tail = 0;
  };
  vnodes = λ i. record {
    is_directory = false;
    link_count = 1;
    dirent_count = 0;
    open_count = 0;
    is_purged = false;
  };
  in_hash = λ i. true;
  ino_allocated = λ i. true;
}

abbrev child_ok : Calls
child_ok = record {
  begin_transaction = ok tt;
  blocks_shrink = ok tt;
  truncate = ok tt;
  flush = ok tt;
}

abbrev unlink_ok : UnlinkCalls
unlink_ok = record {
  begin_transaction = ok tt;
  truncate = ok tt;
  is_remote = false;
  child = child_ok;
}

file_found : for_each_dirent with_file (callback_find (97 ∷ [])) ≡ some (ok (true, at_file))
unfolding for_each_dirent walk_from visit validate_dirent matches same_name callback_find
    next_dirent dirent_reserved_size is_last
file_found = refl

file_checked : check_unlink unlink_ok 100 file_vnodes false 9 ≡ ok file_vnodes
unfolding check_unlink vnode_get can_unlink
file_checked = refl

behind_file :
    is_last file_entry.reclen ≡ false
    → read_dirent with_file (36 + dirent_reserved_size file_entry 36) ≡ ok last_entry
unfolding read_dirent validate_dirent dirent_reserved_size is_last
behind_file q = refl

-- The three become one, which is the last.
joined_file :
    coalesce with_file at_file
    ≡ ok (record file_entry { ino = 0; reclen = 0x80000000 + 1048556 }, 16)
unfolding coalesce coalesce_next coalesce_prev empty_dirent read_dirent validate_dirent
    dirent_reserved_size is_last
joined_file = refl

directory_unlink-Unlinks_example :
    (r : Directory × Outcome) × (directory_unlink unlink_ok 100 file_vnodes with_file
        (97 ∷ [])
        false
      ≡ some r)
    × Unlinks with_file file_vnodes 9 child_ok 36 r
unfolding dirent_reserved_size
directory_unlink-Unlinks_example =
    directory_unlink-Unlinks unlink_ok 100 file_vnodes file_vnodes with_file (97 ∷ []) false at_file
      refl file_found file_checked behind_file refl

-- Inode 7 gets a second name, in the free record at 16.
abbrev other_name : List ℕ
other_name = 100 ∷ []

abbrev behind_last : DirectoryOffset
behind_last = record { off = 1048572; off_prev = 52 }

abbrev at_free : DirectoryOffset
at_free = record { off = 16; off_prev = 0 }

other_missing :
    for_each_dirent with_file (callback_find other_name) ≡ some (ok (false, behind_last))
unfolding for_each_dirent walk_from visit validate_dirent matches same_name callback_find
    next_dirent dirent_reserved_size is_last
other_missing = refl

other_space :
    for_each_dirent with_file (callback_find_space (link_args other_name 7).reclen)
    ≡ some (ok (true, at_free))
unfolding for_each_dirent walk_from visit validate_dirent callback_find_space next_dirent
    dirent_reserved_size is_last dirent_size
other_space = refl

other_checked : check_link file_vnodes 5 7 ≡ ok tt
unfolding check_link
other_checked = refl

other_blocks : get_required_block_count with_file.size (link_args other_name 7).reclen 8192 ≡ ok 1
unfolding get_required_block_count required_direct dirent_size
other_blocks = refl

directory_link-lookup_internal_example :
    (d' : Directory) × (s' : Vnodes) × (s'' : Vnodes) × (directory_link
        (λ n. ok tt)
        8192
        file_vnodes
        with_file
        5
        other_name
        7
      ≡ some (d', (s', ok tt)))
    × ((s'.vnodes 7).link_count ≡ 2)
    × (lookup_internal 100 s' d' other_name ≡ some (ok (s'', 7)))
directory_link-lookup_internal_example =
    directory_link-lookup_internal (λ n. ok tt) 100 8192 1 file_vnodes with_file 5 other_name 7
      behind_last at_free other_checked (omega arith) (omega arith) (omega arith) (omega arith)
      (omega arith) other_missing other_space other_blocks refl
