-- ===== src/Fsck/Dirs.antt =====
-- CheckDirectory, and what the checks that it starts account for.
use fuchsia_minfs.Prelude.{
  ℕ, zero, suc, ◌+◌, Bool, false, not, ◌&&◌, ◌||◌, ◌==◌, if◌then◌else◌, u32, sub32, leb, io,
  io_data_integrity,
}
use fuchsia_minfs.Prelude.Run.{Run, finished, ◌>>=◌, ◌>>◌, require}
use fuchsia_minfs.Format.{Inode, Dirent, dirent_size, dirent_reserved_size, is_last}
use fuchsia_minfs.Fsck.State.{Image, Checker}
use fuchsia_minfs.Fsck.Walk.{
  ReadDirent, read_dirent, or_io, DirCheck, Recurse, check_dots, is_dot, is_dotdot, well_formed,
  enter_dirent, check_dirent, check_record, check_read, check_dirents, check_dirent_totals,
  check_directory,
}
use fuchsia_minfs.Fsck.Quiet.{
  Quiet, Quiet-conform, Keeps, same, finished-Keeps, require-Keeps, if-Keeps, after-Keeps,
  bind-Keeps, Quiet-refl,
}

abbrev checker : DirCheck → Checker
checker s = s.checker

pub dots-Quiet :
    (ino parent : ℕ) (de : Dirent) (s : DirCheck)
    → Quiet s.checker (check_dots ino parent de s).checker
unfolding check_dots
dots-Quiet ino parent de s =
    Quiet-conform _ s.checker _ (Quiet-conform _ s.checker s.checker (Quiet-refl s.checker))

pub totals-Quiet : (inode : Inode) (s : DirCheck) → Quiet s.checker (check_dirent_totals inode s)
unfolding check_dirent_totals
totals-Quiet inode s = Quiet-conform (s.dotdot || inode.link_count == 0) s.checker _ (
    Quiet-conform (s.dot || inode.link_count == 0) s.checker _ (
      Quiet-conform (s.dirent_count == inode.dirent_count) s.checker _ (
        Quiet-conform (not (inode.link_count == 0) || inode.dirent_count == 0) s.checker s.checker
          (Quiet-refl s.checker))))

-- CheckDirectory.
module _ (im : Image) (d : ℕ → ℕ → ℕ) (recurse : Recurse)
    (keeps : (c : Checker) (ino parent : ℕ) (dots : Bool)
      → Keeps im d same c (recurse c ino parent dots)) where
  enter_dirent-Keeps :
      (ino parent : ℕ) (de : Dirent) (s : DirCheck)
      → Keeps im d checker s.checker (enter_dirent recurse ino parent de s)
  unfolding enter_dirent
  enter_dirent-Keeps ino parent de s =
      let s' : DirCheck = check_dots ino parent de s in
      bind-Keeps im d checker s.checker checker (finished s') _
        (finished-Keeps im d checker s.checker s' (dots-Quiet ino parent de s))
        λ t.
          bind-Keeps im d checker t.checker same
            (recurse t.checker de.ino ino (is_dot de || is_dotdot de)) _
            (keeps t.checker de.ino ino (is_dot de || is_dotdot de))
            λ c.
              finished-Keeps im d checker c
                (record t { checker = c; dirent_count = u32 (s.dirent_count + 1) }) (Quiet-refl c)

  check_dirent-Keeps :
      (ino size parent off rlen : ℕ) (head : Dirent) (s : DirCheck)
      → Keeps im d checker s.checker (check_dirent im recurse ino size parent off rlen head s)
  unfolding check_dirent
  check_dirent-Keeps ino size parent off rlen head s =
      after-Keeps im d checker s.checker
        (or_io (read_dirent im ino size off (dirent_size head.namelen))) _
        λ r.
          require-Keeps im d checker s.checker (r.actual == dirent_size head.namelen) io
            (require (not (r.de.namelen == 0) && leb r.de.namelen (sub32 rlen 12)) io_data_integrity
              >> enter_dirent recurse ino parent r.de s)
            (require-Keeps im d checker s.checker
              (not (r.de.namelen == 0) && leb r.de.namelen (sub32 rlen 12)) io_data_integrity
              (enter_dirent recurse ino parent r.de s) (enter_dirent-Keeps ino parent r.de s))

  check_record-Keeps :
      (ino size parent off : ℕ) (de : Dirent) (s : DirCheck)
      → Keeps im d checker s.checker (check_record im recurse ino size parent off de s)
  unfolding check_record
  check_record-Keeps ino size parent off de s =
      let rlen : ℕ = u32 (dirent_reserved_size de off) in
      let entry : Run DirCheck = check_dirent im recurse ino size parent off rlen de s in
      require-Keeps im d checker s.checker (well_formed de rlen) io_data_integrity
        (if de.ino == 0 then finished s else entry)
        (if-Keeps im d checker s.checker (de.ino == 0) (finished s) entry
          (finished-Keeps im d checker s.checker s (Quiet-refl s.checker))
          (check_dirent-Keeps ino size parent off rlen de s))

  check_read-Keeps :
      (ino : ℕ) (inode : Inode) (parent off : ℕ) (s : DirCheck) (next : ℕ → DirCheck → Run DirCheck)
      → ((o : ℕ) (t : DirCheck) → Keeps im d checker t.checker (next o t))
      → (r : ReadDirent)
      → Keeps im d checker s.checker (check_read im recurse ino inode parent off s next r)
  unfolding check_read
  check_read-Keeps ino inode parent off s next later r =
      let entry : Run DirCheck = check_record im recurse ino inode.size parent off r.de s in
      let rest : DirCheck → Run DirCheck = λ t.
        if is_last r.de.reclen
        then finished t
        else next (off + u32 (dirent_reserved_size r.de off)) t in
      if-Keeps im d checker s.checker (r.actual == 0 && inode.link_count == 0 && parent == 0)
        (finished s) (require (r.actual == 12) io >> (entry >>= rest))
        (finished-Keeps im d checker s.checker s (Quiet-refl s.checker))
        (require-Keeps im d checker s.checker (r.actual == 12) io (entry >>= rest) (
          bind-Keeps im d checker s.checker checker entry rest
            (check_record-Keeps ino inode.size parent off r.de s)
            λ t.
              if-Keeps im d checker t.checker (is_last r.de.reclen) (finished t)
                (next (off + u32 (dirent_reserved_size r.de off)) t)
                (finished-Keeps im d checker t.checker t (Quiet-refl t.checker))
                (later (off + u32 (dirent_reserved_size r.de off)) t)))

  check_dirents-Keeps :
      (fuel ino : ℕ) (inode : Inode) (parent off : ℕ) (s : DirCheck)
      → Keeps im d checker s.checker (check_dirents fuel im recurse ino inode parent off s)
  unfolding check_dirents
  check_dirents-Keeps zero ino inode parent off s = record { entries = λ x e h. absurd (cc e) }
  check_dirents-Keeps (suc fuel) ino inode parent off s =
      after-Keeps im d checker s.checker (read_dirent im ino inode.size off 12) _ (
        check_read-Keeps ino inode parent off s (check_dirents fuel im recurse ino inode parent)
          (check_dirents-Keeps fuel ino inode parent))

  pub check_directory-Keeps :
      (ino : ℕ) (inode : Inode) (parent : ℕ) (c : Checker)
      → Keeps im d same c (check_directory im recurse ino inode parent c)
  unfolding check_directory
  check_directory-Keeps ino inode parent c =
      let start : DirCheck = record {
        checker = c;
        dot = false;
        dotdot = false;
        dirent_count = 0;
      } in
      bind-Keeps im d same c checker
        (check_dirents (inode.size + 2) im recurse ino inode parent 0 start) _
        (check_dirents-Keeps (inode.size + 2) ino inode parent 0 start)
        λ s. finished-Keeps im d same s.checker (check_dirent_totals inode s) (totals-Quiet inode s)
