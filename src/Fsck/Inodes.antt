-- ===== src/Fsck/Inodes.antt =====
-- CheckInode ends: each inode that is met for the first time leaves one less to be met.
use fuchsia_minfs.Prelude.{
  ℕ, zero, suc, ◌-◌, ◌≤◌, ◌<◌, ◌≡◌, ◌≢◌, refl, sym, ◌∙◌, ap, subst, Bool, true, false, not, ◌&&◌,
  ◌==◌, if◌then◌else◌, bad_state, out_of_range, arith,
}
use fuchsia_minfs.Prelude.Int.{ℤ, add_word, sub_word, fits_int64}
use fuchsia_minfs.Prelude.Run.{Run, finished, out_of_fuel, ◌>>=◌, ◌>>◌, require, run_option}
use fuchsia_minfs.Format.{Inode, minfs_magic_dir}
use fuchsia_minfs.Fsck.State.{Image, Checker, conform, put, set_bit}
use fuchsia_minfs.Fsck.Files.{check_file}
use fuchsia_minfs.Fsck.Walk.{
  get_inode, Recurse, dump, check_directory, put_link, mark_inode, then_recurse, check_contents,
  check_first, check_inode,
}
use fuchsia_minfs.Fsck.Tree.{Reads}
use fuchsia_minfs.Fsck.Ends.{
  unmarked, unmarked_lt, left, Ends, same, Ends-weaken, require-Ends, if-Ends, bind-Ends,
  after-Ends, check_directory-Ends,
}
use fuchsia_minfs.Fsck.Conforms.{check_file-Conforms}

module _ (im : Image) where
  get_inode-ends : (ino : ℕ) → get_inode im ino ≢ out_of_fuel
  unfolding get_inode
  get_inode-ends ino h = ground arith

  get_inode-below :
      (ino : ℕ) (i : Inode) → get_inode im ino ≡ finished i → ino < im.info.inode_count
  unfolding get_inode
  get_inode-below ino i h = ground arith

  put_link-Ends :
      (m : ℕ) (c : Checker) (ino : ℕ) (z : ℤ) → left im c ≤ m → Ends im m same (put_link c ino z)
  put_link-Ends m c ino z h =
      require-Ends im same m (fits_int64 z) out_of_range
        (finished (record c { links = put c.links (ino - 1) z })) (λ _. h)

  put_link-inodes :
      (c c' : Checker) (ino : ℕ) (z : ℤ)
      → put_link c ino z ≡ finished c'
      → c'.checked_inodes ≡ c.checked_inodes
  put_link-inodes c c' ino z h = ground arith

  -- An inode that was not marked.
  mark_inode-left :
      (ino : ℕ) (c : Checker)
      → ino < im.info.inode_count
      → c.checked_inodes ino ≡ false
      → left im (mark_inode im ino c) < left im c
  unfolding mark_inode
  mark_inode-left ino c lt h =
      unmarked_lt c.checked_inodes (mark_inode im ino c).checked_inodes im.info.inode_count ino
        (λ i k. ground (arith, k)) lt h (ground arith)

  conform-inodes : (b : Bool) (c : Checker) → (conform b c).checked_inodes ≡ c.checked_inodes
  conform-inodes true c = refl
  conform-inodes false c = refl

  mark_inode-inodes :
      (ino : ℕ) (c : Checker) → (mark_inode im ino c).checked_inodes ≡ set_bit c.checked_inodes ino
  unfolding mark_inode
  mark_inode-inodes ino c = conform-inodes (im.inode_allocated ino) _

  mark_inode-same :
      (ino : ℕ) (c c' : Checker)
      → c'.checked_inodes ≡ c.checked_inodes
      → (mark_inode im ino c').checked_inodes ≡ (mark_inode im ino c).checked_inodes
  mark_inode-same ino c c' h =
      mark_inode-inodes ino c' ∙ ap (λ f. set_bit f ino) h ∙ sym (mark_inode-inodes ino c)

  dump-Ends :
      (m : ℕ) (c : Checker) (ino parent : ℕ) (dots : Bool)
      → left im c ≤ m
      → Ends im m same (dump c ino parent dots)
  dump-Ends m c ino parent dots h = h

module _ (im : Image) (d : ℕ → ℕ → ℕ) (reads : Reads im d) where
  check_file-Ends :
      (m ino : ℕ) (inode : Inode) (c : Checker)
      → left im c ≤ m
      → Ends im m same (run_option (check_file im ino inode c))
  check_file-Ends m ino inode c h =
      let (c', runs, inodes, conforms) = check_file-Conforms im d reads ino inode c in
      rw runs (rw inodes h)

  module _ (m : ℕ) (recurse : Recurse)
      (ends : (c : Checker) (ino parent : ℕ) (dots : Bool)
        → left im c ≤ m
        → Ends im m same (recurse c ino parent dots)) where
    then_recurse-Ends :
        (ino : ℕ) (inode : Inode) (parent : ℕ) (c : Checker)
        → left im c ≤ m
        → Ends im m same (then_recurse im recurse ino inode parent c)
    unfolding then_recurse
    then_recurse-Ends ino inode parent c h =
        bind-Ends im same m m same (check_directory im recurse ino inode parent c) _
          (check_directory-Ends im m recurse ends ino inode parent c h) (λ c' q k. k)

    check_contents-Ends :
        (ino parent : ℕ) (inode : Inode) (c : Checker)
        → left im c ≤ m
        → Ends im m same (check_contents im recurse ino parent inode c)
    unfolding check_contents
    check_contents-Ends ino parent inode c h =
        let file : Run Checker = run_option (check_file im ino inode c) in
        let directory : Checker → Run Checker = λ c1.
          check_directory im dump ino inode parent c1
          >>= then_recurse im recurse ino inode parent in
        if-Ends im same m (inode.magic == minfs_magic_dir) (file >>= directory)
          (require (not (ino == 1)) bad_state >> file)
          (λ _.
            bind-Ends im same m m same file directory (check_file-Ends m ino inode c h) λ c1 q1 k1.
              bind-Ends im same m m same (check_directory im dump ino inode parent c1)
                (then_recurse im recurse ino inode parent)
                (check_directory-Ends im m dump (dump-Ends im m) ino inode parent c1 k1)
                λ c2 q2 k2. then_recurse-Ends ino inode parent c2 k2)
          (λ _.
            require-Ends im same m (not (ino == 1)) bad_state file
              (λ _. check_file-Ends m ino inode c h))

    check_first-Ends :
        (ino parent : ℕ) (inode : Inode) (c : Checker)
        → left im (mark_inode im ino c) ≤ m
        → Ends im m same (check_first im recurse ino parent inode c)
    unfolding check_first
    check_first-Ends ino parent inode c h =
        let z : ℤ = sub_word (c.links (ino - 1)) inode.link_count in
        bind-Ends im same (left im c) m same (put_link c ino z) _
          (put_link-Ends im (left im c) c ino z (omega arith))
          λ c1 q k. check_contents-Ends ino parent inode (mark_inode im ino c1) (
            subst (λ f. unmarked f im.info.inode_count ≤ m)
              (sym (mark_inode-same im ino c c1 (put_link-inodes im c c1 ino z q))) h)

  pub check_inode-Ends :
      (fuel m : ℕ) (c : Checker) (ino parent : ℕ) (dots : Bool)
      → m < fuel
      → left im c ≤ m
      → Ends im m same (check_inode fuel im c ino parent dots)
  unfolding check_inode
  check_inode-Ends zero m c ino parent dots lt h = absurd (omega (arith, lt))
  check_inode-Ends (suc fuel) m c ino parent dots lt h =
      after-Ends im same m (get_inode im ino) _ (get_inode-ends im ino) λ inode got.
        let z : ℤ = add_word (c.links (ino - 1)) 1 in
        let first : Checker → Run Checker = λ c1.
          if c.checked_inodes ino
          then finished c1
          else check_first im (check_inode fuel im) ino parent inode c1 in
        require-Ends im same m
          (not (inode.magic == minfs_magic_dir && c.checked_inodes ino && not dots)) bad_state
          (put_link c ino z >>= first)
          λ _.
            bind-Ends im same m m same (put_link c ino z) first (put_link-Ends im m c ino z h)
              λ c1 q k.
                if-Ends im same m (c.checked_inodes ino) (finished c1)
                  (check_first im (check_inode fuel im) ino parent inode c1) (λ _. k)
                  λ new.
                    let fresh : c1.checked_inodes ino ≡ false =
                      ap (λ f. f ino) (put_link-inodes im c c1 ino z q) ∙ new in
                    let less = mark_inode-left im ino c1 (get_inode-below im ino inode got) fresh in
                    Ends-weaken im same (m - 1) m
                      (check_first im (check_inode fuel im) ino parent inode c1) (omega arith)
                      (check_first-Ends (m - 1) (check_inode fuel im)
                        (λ x i p b b'.
                          check_inode-Ends fuel (m - 1) x i p b (omega (arith, less, k, lt)) b')
                        ino parent inode c1 (omega (arith, less, k)))
