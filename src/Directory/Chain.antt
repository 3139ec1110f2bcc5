-- ===== src/Directory/Chain.antt =====
-- The records that a walk over a directory passes.
use fuchsia_minfs.Prelude.{
  >>-ok, ℕ, zero, suc, ◌+◌, ◌≤◌, ◌<◌, ◌≡◌, ◌≢◌, ◌⊎◌, inl, inr, refl, true, ◌==◌, ltb, List, none,
  Status, Result, ok, err, arith, Bool-cases, ==_iff,
}
use fuchsia_minfs.Format.{Dirent, dirent_reserved_size, minfs_max_directory_size}
use fuchsia_minfs.Directory.Records.{
  Directory, DirectoryOffset, IteratorCommand, iterator_done, iterator_next, validate_dirent,
  next_dirent, Callback, bytes_read, in_directory, visit, walk_from, matches, callback_find,
  callback_find_space,
}

-- The reserved size of the record at an offset.
abbrev pub reserved_at : Directory → ℕ → ℕ
reserved_at d off = dirent_reserved_size (d.records off) off

-- The offsets from 0 on, each behind a record that is long enough.
pub data Reached (d : Directory) : ℕ → Type 0 where
  reached_start : Reached d 0
  reached_next :
      (off : ℕ) → Reached d off → 12 ≤ reserved_at d off → Reached d (off + reserved_at d off)

-- Two reached offsets do not lie within one record.
Reached-apart :
    (d : Directory) (n a b : ℕ)
    → a + b < n
    → Reached d a
    → Reached d b
    → a < b
    → a + reserved_at d a ≤ b
Reached-apart d zero a b m ra rb h = absurd (omega arith)
Reached-apart d (suc n) a b m ra reached_start h = absurd (omega arith)
Reached-apart d (suc n) a b m ra (reached_next off r long) h = elim (Bool-cases (ltb a off)) [
  | inl q ↦ let x = Reached-apart d n a off (omega arith) ra r (ground arith) in omega arith
  | inr q ↦ elim (Bool-cases (a == off)) [
    | inl e ↦ rw ((==_iff a off).0 e) (omega arith)
    | inr e ↦
        absurd (let x = Reached-apart d n off a (omega arith) r ra (ground arith) in omega arith)
  ]
]

-- From a reached offset to a later one.
pub Reached-gap :
    (d : Directory) (a b : ℕ) → Reached d a → Reached d b → a < b → a + reserved_at d a ≤ b
Reached-gap d a b ra rb h = Reached-apart d (a + b + 1) a b (omega arith) ra rb h

-- A reached offset before the end of the record at another one is not after that one.
pub Reached-before :
    (d : Directory) (off o : ℕ)
    → Reached d off
    → Reached d o
    → o < off + reserved_at d off
    → (o < off) ⊎ (o ≡ off)
Reached-before d off o r ro h = elim (Bool-cases (ltb off o)) [
  | inl q ↦
      absurd (
        let x = Reached-apart d (off + o + 1) off o (omega arith) r ro (ground arith) in
        omega arith)
  | inr q ↦ elim (Bool-cases (o == off)) [
    | inl e ↦ inr ((==_iff o off).0 e)
    | inr e ↦ inl (ground arith)
  ]
]

pub validate_dirent-long :
    (de : Dirent) (bytes off : ℕ)
    → validate_dirent de bytes off ≡ ok tt
    → (12 ≤ dirent_reserved_size de off)
      × (off + dirent_reserved_size de off ≤ minfs_max_directory_size)
unfolding validate_dirent
validate_dirent-long de bytes off e = ground arith

-- A callback that goes on does so to the next record.
abbrev pub Steps : Callback → Type 0
Steps callback =
    (de : Dirent) (offs offs' : DirectoryOffset)
    → callback de offs ≡ ok (iterator_next, offs')
    → offs'.off ≡ offs.off + dirent_reserved_size de offs.off

pub visit-next :
    (d : Directory) (callback : Callback) (offs offs' : DirectoryOffset)
    → Steps callback
    → visit d callback offs ≡ ok (iterator_next, offs')
    → (12 ≤ reserved_at d offs.off)
      × (offs'.off ≡ offs.off + reserved_at d offs.off)
      × (offs'.off ≤ minfs_max_directory_size)
unfolding visit
visit-next d callback offs offs' steps e =
    let de = d.records offs.off in
    let (v, c) =
      >>-ok (validate_dirent de (bytes_read d offs.off) offs.off) (callback de offs)
        (iterator_next, offs') e in
    let long = validate_dirent-long de (bytes_read d offs.off) offs.off v in
    let on = steps de offs offs' c in (long.0, on, omega (arith, on, long.1))

result-cases :
    (r : Result (IteratorCommand × DirectoryOffset))
    → ((s : Status) × (r ≡ err s))
      ⊎ (((offs' : DirectoryOffset) × (r ≡ ok (iterator_done, offs')))
          ⊎ ((offs' : DirectoryOffset) × (r ≡ ok (iterator_next, offs'))))
result-cases (err s) = inl (s, refl)
result-cases (ok (iterator_done, offs')) = inr (inl (offs', refl))
result-cases (ok (iterator_next, offs')) = inr (inr (offs', refl))

pub visit-cases :
    (d : Directory) (callback : Callback) (offs : DirectoryOffset)
    → ((s : Status) × (visit d callback offs ≡ err s))
      ⊎ (((offs' : DirectoryOffset) × (visit d callback offs ≡ ok (iterator_done, offs')))
          ⊎ ((offs' : DirectoryOffset) × (visit d callback offs ≡ ok (iterator_next, offs'))))
visit-cases d callback offs = result-cases (visit d callback offs)

entered-short :
    (d : Directory) (off fuel : ℕ)
    → in_directory d off ≡ true
    → minfs_max_directory_size ≤ suc fuel + off
    → 0 < fuel
entered-short d off fuel q h = ground arith

-- The walk ends: each record takes at least 12 of the bytes that are left.
pub walk_from-ends :
    (fuel : ℕ) (d : Directory) (callback : Callback) (offs : DirectoryOffset)
    → Steps callback
    → minfs_max_directory_size ≤ fuel + offs.off
    → 0 < fuel
    → walk_from fuel d callback offs ≢ none
unfolding walk_from
walk_from-ends zero d callback offs steps h pos e = absurd (omega arith)
walk_from-ends (suc fuel) d callback offs steps h pos e =
    elim (Bool-cases (in_directory d offs.off)) [
      | inr q ↦ let x = rw (q, walk_from) at e in cc
      | inl q ↦ elim (visit-cases d callback offs) [
        | inl (s, v) ↦ let x = rw (q, walk_from, v) at e in cc
        | inr (inl (offs', v)) ↦ let x = rw (q, walk_from, v) at e in cc
        | inr (inr (offs', v)) ↦
            let on = visit-next d callback offs offs' steps v in
            walk_from-ends fuel d callback offs' steps (omega (arith, on.0, on.1))
              (entered-short d offs.off fuel q h) (rw (q, walk_from, v) at e)
      ]
    ]

pub find-Steps : (name : List ℕ) → Steps (callback_find name)
unfolding callback_find next_dirent
find-Steps name de offs offs' e = elim (Bool-cases (matches name de)) [
  | inl q ↦ absurd (let x = rw q at e in ground arith)
  | inr q ↦ let x = rw q at e in ground arith
]

pub find_space-Steps : (reclen : ℕ) → Steps (callback_find_space reclen)
unfolding callback_find_space next_dirent
find_space-Steps reclen de offs offs' e = ground arith
