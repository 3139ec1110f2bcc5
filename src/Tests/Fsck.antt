-- ===== src/Tests/Fsck.antt =====
-- An image with the root directory and a file that is unlinked.
use fuchsia_minfs.Prelude.{
  ℕ, ◌≢◌, All, ◌≡◌, refl, true, ◌==◌, ltb, if◌then◌else◌, List, [], ◌∷◌, ok, arith, inl, some,
}
use fuchsia_minfs.Prelude.Run.{finished, out_of_fuel}
use fuchsia_minfs.Format.{
  Superblock, Inode, Dirent, minfs_magic_dir, minfs_magic_file, dirent_size, dirent_reserved_size,
  is_last,
}
use fuchsia_minfs.Fsck.State.{Image, Checker, check_data_block, mark_block, check_block}
use fuchsia_minfs.Fsck.Files.{
  get_inode_nth_bno, nth_indirect, nth_double, check_pointers, check_double, check_doubles,
  visit_block, check_blocks, check_totals, check_indirect, check_file, no_cache,
}
use fuchsia_minfs.Fsck.Walk.{
  get_inode, read_dirent, check_dots, enter_dirent, check_dirent, well_formed, check_record,
  check_read, check_dirents, check_dirent_totals, check_directory, mark_inode, then_recurse,
  check_contents, check_first, check_inode,
}
use fuchsia_minfs.Fsck.Totals.{
  check_unlinked_inode, new_checker, check_reserved, check_reserved_inode, check_reserved_block,
  check_unlinked_from, count_missing, check_for_unused_blocks, check_for_unused_inodes,
  check_links_from, check_link_counts, check_allocated_counts, check_totals_of, fsck,
}
use fuchsia_minfs.Fsck.Tree.{pointers_of}
use fuchsia_minfs.Fsck.Nth.{Finds, get_inode_nth_bno-Finds}
use fuchsia_minfs.Fsck.Accounts.{Entry}
use fuchsia_minfs.Fsck.Conforms.{Conforms, check_file-Conforms}
use fuchsia_minfs.Unlinked.List.{Holds}
use fuchsia_minfs.Fsck.Chain.{unlinked_of}
use fuchsia_minfs.Fsck.Whole.{fsck-ends, fsck-Holds}
use fuchsia_minfs.Fsck.Sound.{IsSound, fsck-IsSound}

abbrev root : Inode
root = record {
  magic = minfs_magic_dir;
  size = 32;
  block_count = 1;
  link_count = 2;
  create_time = 0;
  modify_time = 0;
  seq_num = 0;
  gen_num = 0;
  dirent_count = 2;
  last_inode = 0;
  next_inode = 0;
  dnum = 1 ∷ [];
  inum = [];
  dinum = [];
}

abbrev orphan : Inode
orphan = record root {
  magic = minfs_magic_file;
  size = 0;
  block_count = 0;
  link_count = 0;
  dirent_count = 0;
  dnum = [];
}

abbrev root_info : Superblock
root_info = record {
  magic0 = 0;
  magic1 = 0;
  major_version = 0;
  checksum = 0;
  generation_count = 0;
  flags = 0;
  block_size = 8192;
  inode_size = 256;
  block_count = 4;
  inode_count = 4;
  alloc_block_count = 2;
  alloc_inode_count = 3;
  ibm_block = 0;
  abm_block = 0;
  ino_block = 0;
  integrity_start_block = 0;
  dat_block = 0;
  slice_size = 0;
  ibm_slices = 0;
  abm_slices = 0;
  ino_slices = 0;
  integrity_slices = 0;
  dat_slices = 0;
  unlinked_head = 2;
  unlinked_tail = 2;
  oldest_minor_version = 0;
}

abbrev root_dot : Dirent
root_dot = record { ino = 1; reclen = 16; namelen = 1; dtype = 4; name = b'.' ∷ [] }

abbrev root_dot_dot : Dirent
root_dot_dot = record {
  ino = 1;
  reclen = 0x80000000;
  namelen = 2;
  dtype = 4;
  name = b'.' ∷ b'.' ∷ [];
}

abbrev root_image : Image
root_image = record {
  info = root_info;
  inodes = λ i. if i == 2 then orphan else root;
  inode_allocated = λ i. ltb i 3;
  block_allocated = λ b. ltb b 2;
  read_dat = λ b. ok (λ k. 0);
  dirents = λ ino off len. ok (if off == 0 then root_dot else root_dot_dot);
}

get_inode_nth_bno-Finds_example :
    Finds (λ b k. 0) (pointers_of (λ b k. 0) root) 0 (get_inode_nth_bno root_image root no_cache 0)
get_inode_nth_bno-Finds_example =
    get_inode_nth_bno-Finds root_image (λ b k. 0) (λ b. refl) root no_cache 0
      (record { of_indirect = inl refl; of_doubly = inl refl }) (omega arith)

check_file-Conforms_example :
    (c' : Checker) × (check_file root_image 1 root (check_reserved root_image new_checker)
      ≡ some (ok c'))
    × (c'.checked_inodes ≡ (check_reserved root_image new_checker).checked_inodes)
    × (c'.conforming ≡ true
        → (es : List Entry) × Conforms root_image
            (λ b k. 0)
            1
            root
            (check_reserved root_image new_checker)
            es
            c')
check_file-Conforms_example =
    check_file-Conforms root_image (λ b k. 0) (λ b. refl) 1 root
      (check_reserved root_image new_checker)

root_passes : fsck root_image (finished tt) ≡ finished tt
unfolding fsck check_unlinked_inode check_reserved_inode check_reserved_block check_inode get_inode
    mark_inode check_first check_contents check_file check_indirect check_pointers check_doubles
    check_double check_blocks get_inode_nth_bno nth_indirect nth_double visit_block check_totals
    check_block check_data_block mark_block check_directory check_dirents read_dirent check_read
    check_record well_formed check_dirent enter_dirent check_dots check_dirent_totals then_recurse
    check_unlinked_from check_totals_of check_for_unused_blocks check_for_unused_inodes
    count_missing check_link_counts check_links_from check_allocated_counts dirent_size
    dirent_reserved_size is_last
root_passes = refl

fsck-IsSound_example : (es : List Entry) × IsSound root_image (λ b k. 0) es
fsck-IsSound_example =
    fsck-IsSound root_image (λ b k. 0) (finished tt) (λ b. refl) (omega arith) (omega arith)
      root_passes

fsck-ends_example : fsck root_image (finished tt) ≢ out_of_fuel
fsck-ends_example = fsck-ends root_image (λ b k. 0) (finished tt) (λ b. refl) (λ e. cc e)

fsck-Holds_example :
    (xs : List ℕ) × Holds (unlinked_of root_image) xs
    × All (λ x. (root_image.inodes x).link_count ≡ 0) xs
fsck-Holds_example = fsck-Holds root_image (finished tt) root_passes
