-- ===== src/Directory/Append.antt =====
-- DirentCallbackFindSpace, and AppendDirent where it stopped.
use fuchsia_minfs.Prelude.{
  ◌∙◌, take, length, ◌%◌, u32, ◌≢◌, ℕ, zero, suc, ◌+◌, ◌-◌, ◌^◌, ◌≤◌, ◌<◌, ◌≡◌, ◌⊎◌, inl, inr, refl,
  true, false, ◌==◌, ltb, leb, if◌then◌else◌, some, ok, sub32, arith, Bool-cases, ==_iff,
}
use fuchsia_minfs.Format.{
  Dirent, dirent_size, dirent_reserved_size, is_last, minfs_type_dir, minfs_max_directory_size,
  minfs_reclen_last,
}
use fuchsia_minfs.Directory.Records.{
  Directory, DirectoryOffset, DirArgs, iterator_done, validate_dirent, next_dirent, Callback,
  bytes_read, in_directory, visit, walk_from, callback_find_space, for_each_dirent, at_start,
  append_dirent, write_record, append_at, append_split,
}
use fuchsia_minfs.Directory.Chain.{reserved_at, validate_dirent-long, visit-cases}
use fuchsia_minfs.Prelude.{>>-ok}

-- A walk that its callback stops has visited a record where it did.
pub walk_from-done :
    (fuel : ℕ) (d : Directory) (callback : Callback) (offs last : DirectoryOffset)
    → walk_from fuel d callback offs ≡ some (ok (true, last))
    → (at : DirectoryOffset) × (visit d callback at ≡ ok (iterator_done, last))
unfolding walk_from
walk_from-done zero d callback offs last e = absurd cc
walk_from-done (suc fuel) d callback offs last e = elim (Bool-cases (in_directory d offs.off)) [
  | inr q ↦ absurd (let x = rw (q, walk_from) at e in ground arith)
  | inl q ↦ elim (visit-cases d callback offs) [
    | inl (s, v) ↦ absurd (let x = rw (q, walk_from, v) at e in cc)
    | inr (inl (offs', v)) ↦
        let x = rw (q, walk_from, v) at e in let l : offs' ≡ last = cc in (offs, rw l at v)
    | inr (inr (offs', v)) ↦ walk_from-done fuel d callback offs' last (rw (q, walk_from, v) at e)
  ]
]

-- What the callback has seen of a record with space: it is valid, and either free and large enough, or
-- in use with enough to spare.
record Spare (d : Directory) (reclen off : ℕ) : Type 0 where
  valid : validate_dirent (d.records off) (bytes_read d off) off ≡ ok tt
  spare :
      (((d.records off).ino == 0) ≡ true) × (reclen ≤ reserved_at d off)
      ⊎ (((d.records off).ino == 0) ≡ false)
        × (dirent_size (d.records off).namelen + reclen ≤ reserved_at d off)

pub callback-spare :
    (de : Dirent) (reclen : ℕ) (offs last : DirectoryOffset)
    → dirent_reserved_size de offs.off < 2 ^ 32
    → callback_find_space reclen de offs ≡ ok (iterator_done, last)
    → (offs ≡ last)
      × (((de.ino == 0) ≡ true) × (reclen ≤ dirent_reserved_size de offs.off)
          ⊎ ((de.ino == 0) ≡ false)
            × (dirent_size de.namelen + reclen ≤ dirent_reserved_size de offs.off))
unfolding callback_find_space next_dirent
callback-spare de reclen offs last small e =
    let r = dirent_reserved_size de offs.off in
    let u = dirent_size de.namelen in
    elim (Bool-cases (de.ino == 0)) [
      | inl f ↦ elim (Bool-cases (ltb r reclen)) [
        | inl q ↦ absurd (let x = rw (f, q) at e in ground arith)
        | inr q ↦ let x = rw (f, q) at e in ((let y : offs ≡ last = cc in y), inl (f, ground arith))
      ]
      | inr f ↦ elim (Bool-cases (ltb r u)) [
        | inl q ↦ absurd (let x = rw (f, q) at e in ground arith)
        | inr q ↦ elim (Bool-cases (ltb (sub32 r u) reclen)) [
          | inl p ↦ absurd (let x = rw (f, q, p) at e in ground arith)
          | inr p ↦
              let x = rw (f, q, p) at e in
              let a : u ≤ r = ground arith in
              let b : reclen ≤ sub32 r u = ground arith in
              ((let y : offs ≡ last = cc in y), inr (f, omega arith))
        ]
      ]
    ]

visit-Spare :
    (d : Directory) (reclen : ℕ) (at last : DirectoryOffset)
    → visit d (callback_find_space reclen) at ≡ ok (iterator_done, last)
    → Spare d reclen last.off
unfolding visit
visit-Spare d reclen at last e =
    let de = d.records at.off in
    let (v, c) =
      >>-ok (validate_dirent de (bytes_read d at.off) at.off) (callback_find_space reclen de at)
        (iterator_done, last) e in
    let long = validate_dirent-long de (bytes_read d at.off) at.off v in
    let (same, s) = callback-spare de reclen at last (omega (arith, long.1)) c in
    rw (← same) (record { valid = v; spare = s })

-- The new record, in a directory with enough space at an offset.
pub record Appended (d : Directory) (args : DirArgs) (off : ℕ) (d' : Directory) : Type 0 where
  pub new : ℕ
  pub name : (d'.records new).name ≡ take (length args.name % 2 ^ 8) args.name
  pub namelen : (d'.records new).namelen ≡ length args.name % 2 ^ 8
  pub ino : (d'.records new).ino ≡ args.ino
  pub dtype : (d'.records new).dtype ≡ args.dtype % 2 ^ 8
  pub room : args.reclen ≤ reserved_at d' new
  pub ends : new + reserved_at d' new ≡ off + reserved_at d off
  pub free : (d.records off).ino ≡ 0 → new ≡ off
  pub used :
      (d.records off).ino ≢ 0
      → (off + dirent_size (d.records off).namelen ≡ new)
        × (reserved_at d' off ≡ dirent_size (d.records off).namelen)
        × (d'.records off ≡ record (d.records off) { reclen = (d'.records off).reclen })
  pub others : (o : ℕ) → o ≢ off → o ≢ new → d'.records o ≡ d.records o
  pub grows : new + dirent_size (length args.name % 2 ^ 8) ≤ d'.size
  pub dirents : d'.dirent_count ≡ u32 (d.dirent_count + 1)
  pub changes : d'.seq_num ≡ u32 (d.seq_num + 1)
  pub links :
      d'.link_count
      ≡ (if args.dtype == minfs_type_dir then u32 (d.link_count + 1) else d.link_count)

pub append-free :
    (d : Directory) (args : DirArgs) (off : ℕ)
    → validate_dirent (d.records off) (bytes_read d off) off ≡ ok tt
    → ((d.records off).ino == 0) ≡ true
    → args.reclen ≤ reserved_at d off
    → append_dirent d args off ≡ ok (append_at d args off (d.records off).reclen)
unfolding append_dirent
append-free d args off v free fits =
    let q : ltb (reserved_at d off) args.reclen ≡ false = ground arith in rw (v, free, q)

pub append-used :
    (d : Directory) (args : DirArgs) (off : ℕ)
    → validate_dirent (d.records off) (bytes_read d off) off ≡ ok tt
    → ((d.records off).ino == 0) ≡ false
    → dirent_size (d.records off).namelen + args.reclen ≤ reserved_at d off
    → append_dirent d args off ≡ ok (append_split d args off)
unfolding append_dirent
append-used d args off v used fits =
    let long = validate_dirent-long (d.records off) (bytes_read d off) off v in
    let within = long.1 in
    let q : ltb (reserved_at d off) (dirent_size (d.records off).namelen) ≡ false = ground arith in
    let p : ltb (sub32 (reserved_at d off) (dirent_size (d.records off).namelen)) args.reclen
        ≡ false =
      ground arith in
    rw (v, used, q, p)

-- The reserved size depends on the length field only, and a short one is itself.
pub reserved-short :
    (de : Dirent) (off n : ℕ) → de.reclen ≡ n → n < 2 ^ 28 → dirent_reserved_size de off ≡ n
unfolding dirent_reserved_size is_last
reserved-short de off n e h = rw e (ground arith)

pub reserved-same :
    (de de' : Dirent) (off : ℕ)
    → de.reclen ≡ de'.reclen
    → dirent_reserved_size de off ≡ dirent_reserved_size de' off
unfolding dirent_reserved_size
reserved-same de de' off e = rw e

-- The rest of a record that is split, in the new length field.
pub reserved-rest :
    (de new : Dirent) (off used : ℕ)
    → off + dirent_reserved_size de off ≤ minfs_max_directory_size
    → used ≤ dirent_reserved_size de off
    → new.reclen ≡ (
        if is_last de.reclen
        then sub32 (dirent_reserved_size de off) used + minfs_reclen_last
        else sub32 (dirent_reserved_size de off) used)
    → dirent_reserved_size new (off + used) ≡ dirent_reserved_size de off - used
unfolding dirent_reserved_size is_last
reserved-rest de new off used within fits e = elim (Bool-cases (leb minfs_reclen_last de.reclen)) [
  | inl q ↦
      let e' = rw q at e in
      let within' = rw q at within in let fits' = rw q at fits in rw (e', q) (ground arith)
  | inr q ↦
      let e' = rw q at e in
      let within' = rw q at within in let fits' = rw q at fits in rw (e', q) (ground arith)
]

pub same_offset : (n : ℕ) → (n == n) ≡ true
same_offset n = (==_iff n n).1 refl

record_elsewhere :
    {A : Type 0} (f : ℕ → A) (off o : ℕ) (x : A) → o ≢ off → (if o == off then x else f o) ≡ f o
record_elsewhere f off o x n = elim (Bool-cases (o == off)) [
  | inl q ↦ absurd (n ((==_iff o off).0 q))
  | inr q ↦ rw q refl
]

Appended-free :
    (d : Directory) (args : DirArgs) (off : ℕ)
    → (d.records off).ino ≡ 0
    → args.reclen ≤ reserved_at d off
    → Appended d args off (append_at d args off (d.records off).reclen)
unfolding append_at
Appended-free d args off z fits =
    let de = (append_at d args off (d.records off).reclen).records off in
    let same : dirent_reserved_size de off ≡ reserved_at d off =
      reserved-same de (d.records off) off (rw (same_offset off)) in
    record {
      new = off;
      name = rw (same_offset off);
      namelen = rw (same_offset off);
      ino = rw (same_offset off);
      dtype = rw (same_offset off);
      room = rw same fits;
      ends = rw same;
      free = λ q. refl;
      used = λ n. absurd (n z);
      others = λ o n m. record_elsewhere d.records off o _ n;
      grows = omega arith;
      dirents = refl;
      changes = refl;
      links = refl;
    }

Appended-used :
    (d : Directory) (args : DirArgs) (off : ℕ)
    → (d.records off).ino ≢ 0
    → off + reserved_at d off ≤ minfs_max_directory_size
    → dirent_size (d.records off).namelen + args.reclen ≤ reserved_at d off
    → 0 < dirent_size (d.records off).namelen
    → Appended d args off (append_split d args off)
unfolding append_split append_at
Appended-used d args off nz within fits pos =
    let used = dirent_size (d.records off).namelen in
    let d' = append_split d args off in
    let apart : (off == off + used) ≡ false = ground arith in
    let kept : dirent_reserved_size (d'.records off) off ≡ used =
      reserved-short (d'.records off) off used (rw (apart, same_offset off)) (omega arith) in
    let rest : dirent_reserved_size (d'.records (off + used)) (off + used)
        ≡ reserved_at d off - used =
      reserved-rest (d.records off) (d'.records (off + used)) off used within (omega arith)
        (rw (same_offset (off + used))) in
    record {
      new = off + used;
      name = rw (same_offset (off + used));
      namelen = rw (same_offset (off + used));
      ino = rw (same_offset (off + used));
      dtype = rw (same_offset (off + used));
      room = rw rest (omega arith);
      ends = rw rest (omega arith);
      free = λ q. absurd (nz q);
      used = λ n. (refl, kept, rw (apart, same_offset off) refl);
      others = λ o n m.
          record_elsewhere (write_record d off (record (d.records off) { reclen = used })).records
            (off + used) o _ m
          ∙ record_elsewhere d.records off o _ n;
      grows = omega arith;
      dirents = refl;
      changes = refl;
      links = refl;
    }

-- AppendDirent, where the walk for space has stopped, succeeds. The new record has the inode number and
-- the type asked for, the name up to the length that its 8 bits of `namelen` hold, at least the space
-- asked for, and ends where the record there ended before. If that one was free, the new one is in its
-- place; if it was in use, it still is, with nothing changed but its length, which is cut to what it
-- uses, and the new one stands behind it. All other records are as before, the directory reaches to the
-- end of the new name, and it counts one record, one change and, for a directory, one link more.
pub append_dirent-Appended :
    (d : Directory) (args : DirArgs) (offs : DirectoryOffset)
    → for_each_dirent d (callback_find_space args.reclen) ≡ some (ok (true, offs))
    → (d' : Directory) × (append_dirent d args offs.off ≡ ok d') × Appended d args offs.off d'
unfolding for_each_dirent dirent_size
append_dirent-Appended d args offs e =
    let (at, v) =
      walk_from-done minfs_max_directory_size d (callback_find_space args.reclen) at_start offs e in
    let s = visit-Spare d args.reclen at offs v in
    let long = validate_dirent-long (d.records offs.off) (bytes_read d offs.off) offs.off s.valid in
    elim s.spare [
      | inl (free, fits) ↦ (
        append_at d args offs.off (d.records offs.off).reclen,
        append-free d args offs.off s.valid free fits,
        Appended-free d args offs.off ((==_iff (d.records offs.off).ino 0).0 free) fits,
      )
      | inr (used, fits) ↦ (
        append_split d args offs.off,
        append-used d args offs.off s.valid used fits,
        Appended-used d args offs.off (λ q. ground (arith, q, used)) long.1 fits (omega arith),
      )
    ]
