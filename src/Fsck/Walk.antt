-- ===== src/Fsck/Walk.antt =====
-- GetInode, CheckDirectory and CheckInode.
use fuchsia_minfs.Prelude.{
  ℕ, zero, suc, ◌+◌, ◌-◌, ◌%◌, max, min, Bool, false, not, ◌&&◌, ◌||◌, ◌==◌, ltb, leb,
  if◌then◌else◌, List, [], ◌∷◌, u32, sub32, io, io_data_integrity, bad_state, out_of_range,
}
use fuchsia_minfs.Prelude.Int.{ℤ, add_word, sub_word, fits_int64}
use fuchsia_minfs.Prelude.Run.{
  Run, finished, stopped, out_of_fuel, ◌>>=◌, ◌>>◌, require, run_result, run_option,
}
use fuchsia_minfs.Format.{
  Inode, Dirent, dirent_size, dirent_reserved_size, is_last, minfs_dirent_size,
  minfs_dirent_alignment, minfs_max_dirent_size, minfs_magic_dir, minfs_magic_file, minfs_root_ino,
}
use fuchsia_minfs.Fsck.State.{Image, Checker, put, set_bit, conform}
use fuchsia_minfs.Fsck.Files.{check_file}

unfoldable pub get_inode : Image → ℕ → Run Inode
get_inode im ino = do
  require (ltb ino im.info.inode_count) out_of_range
  require ((im.inodes ino).magic == minfs_magic_file || (im.inodes ino).magic == minfs_magic_dir)
      io_data_integrity
  finished (im.inodes ino)

-- ReadInternal on a directory's data: the bytes that are read and the record in them.
pub record ReadDirent : Type 0 where
  pub actual : ℕ
  pub de : Dirent

abbrev pub no_dirent : Dirent
no_dirent = record { ino = 0; reclen = 0; namelen = 0; dtype = 0; name = [] }

unfoldable pub read_dirent : Image → ℕ → ℕ → ℕ → ℕ → Run ReadDirent
read_dirent im ino size off len =
    if leb size off
    then finished (record { actual = 0; de = no_dirent })
    else (run_result (im.dirents ino off len) >>= λ de.
        finished (record { actual = min len (size - off); de = de }))

-- What CheckDirectory keeps besides the checker.
pub record DirCheck : Type 0 where
  pub checker : Checker
  pub dot : Bool
  pub dotdot : Bool
  pub dirent_count : ℕ

abbrev pub names_dot : List ℕ → Bool
names_dot [] = false
names_dot (a ∷ rest) = a == b'.'

abbrev pub names_dotdot : List ℕ → Bool
names_dotdot [] = false
names_dotdot (a ∷ rest) = a == b'.' && names_dot rest

abbrev pub is_dot : Dirent → Bool
is_dot de = de.namelen == 1 && names_dot de.name

abbrev pub is_dotdot : Dirent → Bool
is_dotdot de = de.namelen == 2 && names_dotdot de.name

-- A run of CheckInode for the inode of a record; the pass that only prints leaves it out.
abbrev pub Recurse : Type 0
Recurse = Checker → ℕ → ℕ → Bool → Run Checker

-- `.` and `..` name the directory and its parent, once each.
unfoldable pub check_dots : ℕ → ℕ → Dirent → DirCheck → DirCheck
check_dots ino parent de s = record s {
  checker =
      conform (not (is_dotdot de) || not s.dotdot && de.ino == parent)
        (conform (not (is_dot de) || not s.dot && de.ino == ino) s.checker);
  dot = s.dot || is_dot de;
  dotdot = s.dotdot || is_dotdot de;
}

unfoldable pub enter_dirent : Recurse → ℕ → ℕ → Dirent → DirCheck → Run DirCheck
enter_dirent recurse ino parent de s = do
  let s' = check_dots ino parent de s
  c ← recurse s'.checker de.ino ino (is_dot de || is_dotdot de)
  finished (record s' { checker = c; dirent_count = u32 (s.dirent_count + 1) })

-- An error of the read is returned as IO.
abbrev pub or_io {ℓ} : {X : Type ℓ} → Run X → Run X
or_io (finished value) = finished value
or_io (stopped status) = stopped io
or_io out_of_fuel = out_of_fuel

-- A record in use, at `off`.
unfoldable pub check_dirent : Image → Recurse → ℕ → ℕ → ℕ → ℕ → ℕ → Dirent → DirCheck → Run DirCheck
check_dirent im recurse ino size parent off rlen head s = do
  r ← or_io (read_dirent im ino size off (dirent_size head.namelen))
  require (r.actual == dirent_size head.namelen) io
  require (not (r.de.namelen == 0) && leb r.de.namelen (sub32 rlen minfs_dirent_size))
      io_data_integrity
  enter_dirent recurse ino parent r.de s

-- The record may stand there.
unfoldable pub well_formed : Dirent → ℕ → Bool
well_formed de rlen =
    is_last de.reclen
    || not (
        ltb rlen minfs_dirent_size
        || ltb rlen (dirent_size de.namelen)
        || ltb minfs_max_dirent_size (dirent_size de.namelen)
        || not (rlen % minfs_dirent_alignment == 0))

unfoldable pub check_record : Image → Recurse → ℕ → ℕ → ℕ → ℕ → Dirent → DirCheck → Run DirCheck
check_record im recurse ino size parent off de s =
    let rlen = u32 (dirent_reserved_size de off) in
    require (well_formed de rlen) io_data_integrity
    >> (if de.ino == 0 then finished s else check_dirent im recurse ino size parent off rlen de s)

-- A round of the loop, with the rounds that come after it.
unfoldable pub check_read :
    Image
    → Recurse
    → ℕ
    → Inode
    → ℕ
    → ℕ
    → DirCheck
    → (ℕ → DirCheck → Run DirCheck)
    → ReadDirent
    → Run DirCheck
check_read im recurse ino inode parent off s next r =
    if r.actual == 0 && inode.link_count == 0 && parent == 0
    then finished s
    else (require (r.actual == minfs_dirent_size) io
        >> (check_record im recurse ino inode.size parent off r.de s >>= λ s'.
            if is_last r.de.reclen
            then finished s'
            else next (off + u32 (dirent_reserved_size r.de off)) s'))

unfoldable pub check_dirents : ℕ → Image → Recurse → ℕ → Inode → ℕ → ℕ → DirCheck → Run DirCheck
check_dirents zero im recurse ino inode parent off s = out_of_fuel
check_dirents (suc fuel) im recurse ino inode parent off s =
    read_dirent im ino inode.size off minfs_dirent_size
    >>= check_read im recurse ino inode parent off s
        (check_dirents fuel im recurse ino inode parent)

-- The tests behind the loop.
unfoldable pub check_dirent_totals : Inode → DirCheck → Checker
check_dirent_totals inode s = conform (s.dotdot || inode.link_count == 0) (
    conform (s.dot || inode.link_count == 0) (
      conform (s.dirent_count == inode.dirent_count)
        (conform (not (inode.link_count == 0) || inode.dirent_count == 0) s.checker)))

unfoldable pub check_directory : Image → Recurse → ℕ → Inode → ℕ → Checker → Run Checker
check_directory im recurse ino inode parent c = do
  s ←
      check_dirents (inode.size + 2) im recurse ino inode parent 0
        (record { checker = c; dot = false; dotdot = false; dirent_count = 0 })
  finished (check_dirent_totals inode s)

abbrev pub dump : Recurse
dump c ino parent dots = finished c

abbrev pub put_link : Checker → ℕ → ℤ → Run Checker
put_link c ino z =
    require (fits_int64 z) out_of_range >> finished (record c { links = put c.links (ino - 1) z })

-- An inode that is met for the first time.
unfoldable pub mark_inode : Image → ℕ → Checker → Checker
mark_inode im ino c = conform (im.inode_allocated ino) (record c {
  checked_inodes = set_bit c.checked_inodes ino;
  max_inode = max ino c.max_inode;
  alloc_inodes = u32 (c.alloc_inodes + 1);
})

-- The second pass over a directory, which checks the inodes of its records.
unfoldable pub then_recurse : Image → Recurse → ℕ → Inode → ℕ → Checker → Run Checker
then_recurse im recurse ino inode parent c = do
  c' ← check_directory im recurse ino inode parent c
  finished (record c' { directory_blocks = u32 (c'.directory_blocks + inode.block_count) })

unfoldable pub check_contents : Image → Recurse → ℕ → ℕ → Inode → Checker → Run Checker
check_contents im recurse ino parent inode c =
    let file = run_option (check_file im ino inode c) in
    if inode.magic == minfs_magic_dir
    then (file >>= λ c1.
        check_directory im dump ino inode parent c1 >>= then_recurse im recurse ino inode parent)
    else (require (not (ino == minfs_root_ino)) bad_state >> file)

unfoldable pub check_first : Image → Recurse → ℕ → ℕ → Inode → Checker → Run Checker
check_first im recurse ino parent inode c = do
  c' ← put_link c ino (sub_word (c.links (ino - 1)) inode.link_count)
  check_contents im recurse ino parent inode (mark_inode im ino c')

-- Each call of itself that CheckInode makes has one unit of fuel less.
unfoldable pub check_inode : ℕ → Image → Recurse
check_inode zero im c ino parent dots = out_of_fuel
check_inode (suc fuel) im c ino parent dots = do
  inode ← get_inode im ino
  require (not (inode.magic == minfs_magic_dir && c.checked_inodes ino && not dots)) bad_state
  c' ← put_link c ino (add_word (c.links (ino - 1)) 1)
  if c.checked_inodes ino
      then finished c'
      else check_first im (check_inode fuel im) ino parent inode c'
