-- ===== src/Fsck/Keeps.antt =====
-- The blocks that CheckFile, CheckInode and what they call mark and account for.
use fuchsia_minfs.Prelude.{
  ℕ, zero, suc, ◌+◌, ◌-◌, ◌≡◌, refl, sym, ◌∙◌, ap, subst, Bool, true, false, not, ◌&&◌, ◌==◌,
  if◌then◌else◌, ◌⊎◌, inl, inr, List, [], ◌++◌, u32, Status, bad_state, out_of_range, arith,
  Bool-cases, ==_iff,
}
use fuchsia_minfs.Prelude.Int.{ℤ, add_word, sub_word, fits_int64}
use fuchsia_minfs.Prelude.Run.{
  Run, finished, stopped, out_of_fuel, ◌>>=◌, ◌>>◌, require, run_option,
}
use fuchsia_minfs.Format.{Inode, minfs_magic_dir}
use fuchsia_minfs.Fsck.State.{Image, Checker, conform, put}
use fuchsia_minfs.Fsck.Files.{check_file}
use fuchsia_minfs.Fsck.Walk.{
  get_inode, Recurse, dump, check_directory, put_link, mark_inode, then_recurse, check_contents,
  check_first, check_inode,
}
use fuchsia_minfs.Fsck.Tree.{Reads}
use fuchsia_minfs.Fsck.Accounts.{Entry, Accounts, Accounts-append}
use fuchsia_minfs.Fsck.Tally.{Member-fst}
use fuchsia_minfs.Fsck.Conforms.{Owns, Owns-widen, Conforms, check_file-Conforms}
use fuchsia_minfs.Fsck.Quiet.{
  Accounted, Accounted-append, Unmarked-Accounts, Keeps, same, finished-Keeps, require-Keeps,
  if-Keeps, after-Keeps_eq, bind-Keeps, Quiet-refl,
}
use fuchsia_minfs.Fsck.Dirs.{check_directory-Keeps}

-- A run that also meets the blocks of the inode.
pub record KeepsOwn (im : Image) (d : ℕ → ℕ → ℕ) (ino : ℕ) (inode : Inode) (c : Checker)
    (r : Run Checker) : Type 0 where
  pub own_entries :
      (x : Checker)
      → r ≡ finished x
      → x.conforming ≡ true
      → (es : List Entry) × (Accounted im d c es x × Owns d ino inode es)

module _ (im : Image) (d : ℕ → ℕ → ℕ) (ino : ℕ) (inode : Inode) (c : Checker) where
  require-KeepsOwn :
      (b : Bool) (status : Status) (m : Run Checker)
      → KeepsOwn im d ino inode c m
      → KeepsOwn im d ino inode c (require b status >> m)
  require-KeepsOwn true status m k = k
  require-KeepsOwn false status m k = record { own_entries = λ x e h. absurd (cc e) }

  if-KeepsOwn :
      (b : Bool) (m n : Run Checker)
      → KeepsOwn im d ino inode c m
      → KeepsOwn im d ino inode c n
      → KeepsOwn im d ino inode c (if b then m else n)
  if-KeepsOwn true m n k l = k
  if-KeepsOwn false m n k l = l

  bind-KeepsOwn :
      (m : Run Checker) (f : Checker → Run Checker)
      → KeepsOwn im d ino inode c m
      → ((x : Checker) → Keeps im d same x (f x))
      → KeepsOwn im d ino inode c (m >>= f)
  bind-KeepsOwn (finished x) f km k = record {
    own_entries = λ y e h.
        let (fs, b) = (k x).entries y e h in
        let (es, (a, o)) = km.own_entries x refl b.accounts.conformed in
        (
          es ++ fs,
          (
            Accounted-append im d c x y es fs a b,
            Owns-widen d ino inode es (es ++ fs) (λ e'. Member-fst e' es fs) o,
          ),
        );
  }
  bind-KeepsOwn (stopped status) f km k = record { own_entries = λ x e h. absurd (cc e) }
  bind-KeepsOwn out_of_fuel f km k = record { own_entries = λ x e h. absurd (cc e) }

-- CheckInode.
module _ (im : Image) (d : ℕ → ℕ → ℕ) (reads : Reads im d) where
  file-Accounted :
      (ino : ℕ) (inode : Inode) (c c' : Checker) (es : List Entry)
      → Conforms im d ino inode c es c'
      → Accounted im d c es c'
  file-Accounted ino inode c c' es k = record {
    accounts = k.accounts;
    owned = λ i h. inl (ap (λ f. f i) (sym k.inodes) ∙ h);
  }

  check_file-KeepsOwn :
      (ino : ℕ) (inode : Inode) (c : Checker)
      → KeepsOwn im d ino inode c (run_option (check_file im ino inode c))
  check_file-KeepsOwn ino inode c =
      let (c', runs, inodes, conforms) = check_file-Conforms im d reads ino inode c in
      record {
        own_entries = λ x e h.
            let p : c' ≡ x = cc (e, runs) in
            let (es, k) = conforms (rw p h) in
            (
              es,
              subst (λ y. Accounted im d c es y × Owns d ino inode es) p
                  (file-Accounted ino inode c c' es k, k.owns),
            );
      }

  put_link-Keeps : (c : Checker) (ino : ℕ) (z : ℤ) → Keeps im d same c (put_link c ino z)
  put_link-Keeps c ino z =
      let c' : Checker = record c { links = put c.links (ino - 1) z } in
      require-Keeps im d same c (fits_int64 z) out_of_range (finished c') (
        finished-Keeps im d same c c'
          (record { blocks = refl; counted = refl; conformed = λ e. e; inodes = refl }))

  conform-conforming :
      (b : Bool) (c : Checker) → (conform b c).conforming ≡ true → c.conforming ≡ true
  conform-conforming true c h = h
  conform-conforming false c h = absurd (cc h)

  mark-Accounts :
      (ino : ℕ) (c : Checker)
      → (mark_inode im ino c).conforming ≡ true
      → Accounts im c [] (mark_inode im ino c)
  unfolding mark_inode
  mark-Accounts ino c h =
      Unmarked-Accounts im c (mark_inode im ino c) (ground arith) (ground arith)
        (conform-conforming (im.inode_allocated ino) _) h

  mark_inode-owned :
      (ino i : ℕ) (c : Checker) (es : List Entry)
      → (mark_inode im ino c).checked_inodes i ≡ true
      → Owns d ino (im.inodes ino) es
      → (c.checked_inodes i ≡ true) ⊎ Owns d i (im.inodes i) es
  unfolding mark_inode
  mark_inode-owned ino i c es h o = elim (Bool-cases (i == ino)) [
    | inl e ↦ inr (subst (λ j. Owns d j (im.inodes j) es) (sym ((==_iff i ino).0 e)) o)
    | inr e ↦ inl (ground (arith, h, e))
  ]

  dump-Keeps :
      (c : Checker) (ino parent : ℕ) (dots : Bool) → Keeps im d same c (dump c ino parent dots)
  dump-Keeps c ino parent dots = finished-Keeps im d same c c (Quiet-refl c)

  module _ (recurse : Recurse)
      (keeps : (c : Checker) (ino parent : ℕ) (dots : Bool)
        → Keeps im d same c (recurse c ino parent dots)) where
    then_recurse-Keeps :
        (ino : ℕ) (inode : Inode) (parent : ℕ) (c : Checker)
        → Keeps im d same c (then_recurse im recurse ino inode parent c)
    unfolding then_recurse
    then_recurse-Keeps ino inode parent c =
        bind-Keeps im d same c same (check_directory im recurse ino inode parent c) _
          (check_directory-Keeps im d recurse keeps ino inode parent c)
          λ c3.
            finished-Keeps im d same c3
              (record c3 { directory_blocks = u32 (c3.directory_blocks + inode.block_count) })
              (record { blocks = refl; counted = refl; conformed = λ e. e; inodes = refl })

    check_contents-KeepsOwn :
        (ino parent : ℕ) (inode : Inode) (c : Checker)
        → KeepsOwn im d ino inode c (check_contents im recurse ino parent inode c)
    unfolding check_contents
    check_contents-KeepsOwn ino parent inode c =
        let file : Run Checker = run_option (check_file im ino inode c) in
        let directory : Checker → Run Checker = λ c1.
          check_directory im dump ino inode parent c1
          >>= then_recurse im recurse ino inode parent in
        if-KeepsOwn im d ino inode c (inode.magic == minfs_magic_dir) (file >>= directory)
          (require (not (ino == 1)) bad_state >> file)
          (bind-KeepsOwn im d ino inode c file directory (check_file-KeepsOwn ino inode c) λ c1.
            bind-Keeps im d same c1 same (check_directory im dump ino inode parent c1)
              (then_recurse im recurse ino inode parent)
              (check_directory-Keeps im d dump dump-Keeps ino inode parent c1)
              λ c2. then_recurse-Keeps ino inode parent c2)
          (require-KeepsOwn im d ino inode c (not (ino == 1)) bad_state file
            (check_file-KeepsOwn ino inode c))

    -- The inode is marked, and its blocks are met after that.
    first-Accounted :
        (ino : ℕ) (c c' : Checker) (es : List Entry)
        → Accounted im d (mark_inode im ino c) es c'
        → Owns d ino (im.inodes ino) es
        → Accounted im d c es c'
    first-Accounted ino c c' es a o = record {
      accounts =
          Accounts-append im c (mark_inode im ino c) c' [] es
            (mark-Accounts ino c a.accounts.conformed) a.accounts;
      owned = λ i h. elim (a.owned i h) [ inl k ↦ mark_inode-owned ino i c es k o | inr p ↦ inr p ];
    }

    check_first-Keeps :
        (ino parent : ℕ) (c : Checker)
        → Keeps im d same c (check_first im recurse ino parent (im.inodes ino) c)
    unfolding check_first
    check_first-Keeps ino parent c =
        let inode : Inode = im.inodes ino in
        let z : ℤ = sub_word (c.links (ino - 1)) inode.link_count in
        bind-Keeps im d same c same (put_link c ino z) _ (put_link-Keeps c ino z) λ c1. record {
          entries = λ x e h.
              let (es, (a, o)) =
                (check_contents-KeepsOwn ino parent inode (mark_inode im ino c1)).own_entries x e
                  h in
              (es, first-Accounted ino c1 x es a o);
        }

  get_inode-value : (ino : ℕ) (i : Inode) → get_inode im ino ≡ finished i → i ≡ im.inodes ino
  unfolding get_inode
  get_inode-value ino i e = ground arith

  pub check_inode-Keeps :
      (fuel : ℕ) (c : Checker) (ino parent : ℕ) (dots : Bool)
      → Keeps im d same c (check_inode fuel im c ino parent dots)
  unfolding check_inode
  check_inode-Keeps zero c ino parent dots = record { entries = λ x e h. absurd (cc e) }
  check_inode-Keeps (suc fuel) c ino parent dots =
      after-Keeps_eq im d same c (get_inode im ino) _ λ inode got.
        let z : ℤ = add_word (c.links (ino - 1)) 1 in
        let first : Checker → Run Checker = λ c1.
          if c.checked_inodes ino
          then finished c1
          else check_first im (check_inode fuel im) ino parent inode c1 in
        require-Keeps im d same c
          (not (inode.magic == minfs_magic_dir && c.checked_inodes ino && not dots)) bad_state
          (put_link c ino z >>= first)
          (bind-Keeps im d same c same (put_link c ino z) first (put_link-Keeps c ino z) λ c1.
            if-Keeps im d same c1 (c.checked_inodes ino) (finished c1)
              (check_first im (check_inode fuel im) ino parent inode c1)
              (finished-Keeps im d same c1 c1 (Quiet-refl c1))
              (subst
                (λ i. Keeps im d same c1 (check_first im (check_inode fuel im) ino parent i c1))
                (sym (get_inode-value ino inode got))
                (check_first-Keeps (check_inode fuel im) (check_inode-Keeps fuel) ino parent c1)))
