-- ===== src/Fsck/Ends.antt =====
-- The runs of Fsck that end, with the inodes that are left to be met; CheckDirectory ends.
use fuchsia_minfs.Prelude.{
  ℕ, zero, suc, ◌+◌, ◌≤◌, ◌<◌, ◌≡◌, ◌≢◌, refl, sym, subst, Bool, true, false, not, ◌&&◌, ◌||◌, ◌==◌,
  leb, if◌then◌else◌, inl, inr, u32, sub32, Status, io, io_data_integrity, arith, Bool-cases,
  ==_iff,
}
use fuchsia_minfs.Prelude.Run.{Run, finished, stopped, out_of_fuel, ◌>>=◌, ◌>>◌, require}
use fuchsia_minfs.Format.{Inode, Dirent, dirent_size, dirent_reserved_size, is_last}
use fuchsia_minfs.Fsck.State.{Image, Checker}
use fuchsia_minfs.Fsck.Walk.{
  ReadDirent, read_dirent, or_io, DirCheck, Recurse, check_dots, is_dot, is_dotdot, well_formed,
  enter_dirent, check_dirent, check_record, check_read, check_dirents, check_directory,
}
use fuchsia_minfs.Fsck.Dirs.{dots-Quiet, totals-Quiet}

-- The numbers below `n` that are not marked.
unfoldable pub unmarked : (ℕ → Bool) → ℕ → ℕ
unmarked f zero = 0
unmarked f (suc n) = unmarked f n + (if f n then 0 else 1)

pub unmarked-le : (f : ℕ → Bool) (n : ℕ) → unmarked f n ≤ n
unfolding unmarked
unmarked-le f zero = omega arith
unmarked-le f (suc n) = ground (arith, unmarked-le f n)

unmarked_mono :
    (f g : ℕ → Bool) (n : ℕ) → ((i : ℕ) → f i ≡ true → g i ≡ true) → unmarked g n ≤ unmarked f n
unfolding unmarked
unmarked_mono f g zero h = omega arith
unmarked_mono f g (suc n) h = ground (arith, unmarked_mono f g n h, h n)

-- One more is marked.
pub unmarked_lt :
    (f g : ℕ → Bool) (n x : ℕ)
    → ((i : ℕ) → f i ≡ true → g i ≡ true)
    → x < n
    → f x ≡ false
    → g x ≡ true
    → unmarked g n < unmarked f n
unfolding unmarked
unmarked_lt f g zero x h lt a b = absurd (omega (arith, lt))
unmarked_lt f g (suc n) x h lt a b = elim (Bool-cases (x == n)) [
  | inl e ↦
      let p : x ≡ n = (==_iff x n).0 e in
      let a' : f n ≡ false = rw (← p) a in
      let b' : g n ≡ true = rw (← p) b in rw (a', b') (omega (arith, unmarked_mono f g n h))
  | inr e ↦ let lt' : x < n = ground arith in ground (arith, unmarked_lt f g n x h lt' a b, h n)
]

abbrev pub left : Image → Checker → ℕ
left im c = unmarked c.checked_inodes im.info.inode_count

-- The run ends, and if it finishes there are at most `m` inodes left.
abbrev pub Ends : Image → ℕ → {X : Type 0} → (X → Checker) → Run X → Type 0
Ends im m π (finished x) = left im (π x) ≤ m
Ends im m π (stopped status) = Unit {0}
Ends im m π out_of_fuel = ⊥

abbrev pub same : Checker → Checker
same c = c

abbrev checker : DirCheck → Checker
checker s = s.checker

module _ (im : Image) {Y : Type 0} (π : Y → Checker) where
  pub Ends-weaken : (m n : ℕ) (r : Run Y) → m ≤ n → Ends im m π r → Ends im n π r
  Ends-weaken m n (finished y) h e = omega (arith, h, e)
  Ends-weaken m n (stopped status) h e = tt
  Ends-weaken m n out_of_fuel h e = e

  pub require-Ends :
      (m : ℕ) (b : Bool) (status : Status) (r : Run Y)
      → (b ≡ true → Ends im m π r)
      → Ends im m π (require b status >> r)
  require-Ends m true status r h = h refl
  require-Ends m false status r h = tt

  pub if-Ends :
      (m : ℕ) (b : Bool) (r q : Run Y)
      → (b ≡ true → Ends im m π r)
      → (b ≡ false → Ends im m π q)
      → Ends im m π (if b then r else q)
  if-Ends m true r q h k = h refl
  if-Ends m false r q h k = k refl

  pub bind-Ends :
      (m n : ℕ) {X : Type 0} (ρ : X → Checker) (r : Run X) (f : X → Run Y)
      → Ends im m ρ r
      → ((x : X) → r ≡ finished x → left im (ρ x) ≤ m → Ends im n π (f x))
      → Ends im n π (r >>= f)
  bind-Ends m n ρ (finished x) f e k = k x refl e
  bind-Ends m n ρ (stopped status) f e k = tt
  bind-Ends m n ρ out_of_fuel f e k = absurd e

  -- What comes before does not touch the checker, and always ends.
  pub after-Ends :
      (m : ℕ) {X : Type 0} (r : Run X) (f : X → Run Y)
      → r ≢ out_of_fuel
      → ((x : X) → r ≡ finished x → Ends im m π (f x))
      → Ends im m π (r >>= f)
  after-Ends m (finished x) f h k = k x refl
  after-Ends m (stopped status) f h k = tt
  after-Ends m out_of_fuel f h k = absurd (h refl)

-- CheckDirectory.
read_dirent-ends :
    (im : Image) (ino size off len : ℕ) → read_dirent im ino size off len ≢ out_of_fuel
unfolding read_dirent
read_dirent-ends im ino size off len h = ground arith

or_io-ends : {X : Type 0} (r : Run X) → r ≢ out_of_fuel → or_io r ≢ out_of_fuel
or_io-ends (finished x) h e = cc e
or_io-ends (stopped status) h e = cc e
or_io-ends out_of_fuel h e = h refl

-- Only a read below the size reads anything.
read_dirent-below :
    (im : Image) (ino size off len : ℕ) (r : ReadDirent)
    → read_dirent im ino size off len ≡ finished r
    → r.actual ≢ 0
    → off < size
unfolding read_dirent
read_dirent-below im ino size off len r h n = elim (Bool-cases (leb size off)) [
  | inl e ↦ absurd (n (cc (rw e at h)))
  | inr e ↦ ground arith
]

require-passed :
    {Y : Type 0} (b : Bool) (status : Status) (r : Run Y) (y : Y)
    → (require b status >> r) ≡ finished y
    → b ≡ true
require-passed true status r y h = refl
require-passed false status r y h = absurd (cc h)

well_formed-le :
    (de : Dirent) (rlen : ℕ) → well_formed de rlen ≡ true → is_last de.reclen ≡ false → 12 ≤ rlen
unfolding well_formed
well_formed-le de rlen h l = ground arith

module _ (im : Image) (m : ℕ) (recurse : Recurse)
    (ends : (c : Checker) (ino parent : ℕ) (dots : Bool)
      → left im c ≤ m
      → Ends im m same (recurse c ino parent dots)) where
  enter_dirent-Ends :
      (ino parent : ℕ) (de : Dirent) (s : DirCheck)
      → left im s.checker ≤ m
      → Ends im m checker (enter_dirent recurse ino parent de s)
  unfolding enter_dirent
  enter_dirent-Ends ino parent de s h =
      let s' : DirCheck = check_dots ino parent de s in
      bind-Ends im checker m m same (recurse s'.checker de.ino ino (is_dot de || is_dotdot de)) _
        (ends s'.checker de.ino ino (is_dot de || is_dotdot de) (
          subst (λ f. unmarked f im.info.inode_count ≤ m)
            (sym ((dots-Quiet ino parent de s).inodes)) h))
        (λ c q k. k)

  check_dirent-Ends :
      (ino size parent off rlen : ℕ) (head : Dirent) (s : DirCheck)
      → left im s.checker ≤ m
      → Ends im m checker (check_dirent im recurse ino size parent off rlen head s)
  unfolding check_dirent
  check_dirent-Ends ino size parent off rlen head s h =
      let len : ℕ = dirent_size head.namelen in
      after-Ends im checker m (or_io (read_dirent im ino size off len)) _
        (or_io-ends (read_dirent im ino size off len) (read_dirent-ends im ino size off len))
        λ r q.
          let test : Bool = not (r.de.namelen == 0) && leb r.de.namelen (sub32 rlen 12) in
          require-Ends im checker m (r.actual == len) io
            (require test io_data_integrity >> enter_dirent recurse ino parent r.de s)
            (λ _.
              require-Ends im checker m test io_data_integrity
                (enter_dirent recurse ino parent r.de s)
                (λ _. enter_dirent-Ends ino parent r.de s h))

  check_record-Ends :
      (ino size parent off : ℕ) (de : Dirent) (s : DirCheck)
      → left im s.checker ≤ m
      → Ends im m checker (check_record im recurse ino size parent off de s)
  unfolding check_record
  check_record-Ends ino size parent off de s h =
      let rlen : ℕ = u32 (dirent_reserved_size de off) in
      let entry : Run DirCheck = check_dirent im recurse ino size parent off rlen de s in
      require-Ends im checker m (well_formed de rlen) io_data_integrity
        (if de.ino == 0 then finished s else entry)
        (λ _.
          if-Ends im checker m (de.ino == 0) (finished s) entry (λ _. h)
            (λ _. check_dirent-Ends ino size parent off rlen de s h))

  -- A record that is passed and is not the last one leads further on.
  check_record-later :
      (ino size parent off : ℕ) (de : Dirent) (s s' : DirCheck)
      → check_record im recurse ino size parent off de s ≡ finished s'
      → is_last de.reclen ≡ false
      → off < off + u32 (dirent_reserved_size de off)
  unfolding check_record
  check_record-later ino size parent off de s s' h l =
      let rlen : ℕ = u32 (dirent_reserved_size de off) in
      let fits = require-passed (well_formed de rlen) io_data_integrity _ s' h in
      omega (arith, well_formed-le de rlen fits l)

  check_read-Ends :
      (ino : ℕ) (inode : Inode) (parent off : ℕ) (s : DirCheck) (next : ℕ → DirCheck → Run DirCheck)
      (r : ReadDirent)
      → left im s.checker ≤ m
      → ((o : ℕ) (t : DirCheck)
          → r.actual ≢ 0
          → off < o
          → left im t.checker ≤ m
          → Ends im m checker (next o t))
      → Ends im m checker (check_read im recurse ino inode parent off s next r)
  unfolding check_read
  check_read-Ends ino inode parent off s next r h later =
      let entry : Run DirCheck = check_record im recurse ino inode.size parent off r.de s in
      let o : ℕ = off + u32 (dirent_reserved_size r.de off) in
      let rest : DirCheck → Run DirCheck =
        λ t. if is_last r.de.reclen then finished t else next o t in
      if-Ends im checker m (r.actual == 0 && inode.link_count == 0 && parent == 0) (finished s)
        (require (r.actual == 12) io >> (entry >>= rest)) (λ _. h)
        (λ _. require-Ends im checker m (r.actual == 12) io (entry >>= rest) λ full.
          bind-Ends im checker m m checker entry rest
            (check_record-Ends ino inode.size parent off r.de s h)
            λ t q k.
              if-Ends im checker m (is_last r.de.reclen) (finished t) (next o t) (λ _. k)
                (λ l.
                  later o t (λ z. ground (arith, full, z))
                    (check_record-later ino inode.size parent off r.de s t q l) k))

  check_dirents-Ends :
      (fuel ino : ℕ) (inode : Inode) (parent off : ℕ) (s : DirCheck)
      → inode.size < off + fuel
      → 0 < fuel
      → left im s.checker ≤ m
      → Ends im m checker (check_dirents fuel im recurse ino inode parent off s)
  unfolding check_dirents
  check_dirents-Ends zero ino inode parent off s b z h = absurd (omega (arith, z))
  check_dirents-Ends (suc fuel) ino inode parent off s b z h =
      let next : ℕ → DirCheck → Run DirCheck = check_dirents fuel im recurse ino inode parent in
      after-Ends im checker m (read_dirent im ino inode.size off 12)
        (check_read im recurse ino inode parent off s next)
        (read_dirent-ends im ino inode.size off 12)
        λ r q. check_read-Ends ino inode parent off s next r h λ o t n lt k.
          let below = read_dirent-below im ino inode.size off 12 r q n in
          check_dirents-Ends fuel ino inode parent o t (omega (arith, b, lt))
            (omega (arith, b, below)) k

  pub check_directory-Ends :
      (ino : ℕ) (inode : Inode) (parent : ℕ) (c : Checker)
      → left im c ≤ m
      → Ends im m same (check_directory im recurse ino inode parent c)
  unfolding check_directory
  check_directory-Ends ino inode parent c h =
      let start : DirCheck = record {
        checker = c;
        dot = false;
        dotdot = false;
        dirent_count = 0;
      } in
      bind-Ends im same m m checker
        (check_dirents (inode.size + 2) im recurse ino inode parent 0 start) _
        (check_dirents-Ends (inode.size + 2) ino inode parent 0 start (omega arith) (omega arith) h)
        λ s q k.
          subst (λ f. unmarked f im.info.inode_count ≤ m) (sym ((totals-Quiet inode s).inodes)) k
