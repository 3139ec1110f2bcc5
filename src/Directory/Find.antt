-- ===== src/Directory/Find.antt =====
-- ForEachDirent with DirentCallbackFind, as Lookup uses it.
use fuchsia_minfs.Prelude.{
  ℕ, zero, suc, ◌<◌, ◌≡◌, ◌≢◌, inl, inr, Bool, true, false, List, none, some, ok, arith, Bool-cases,
}
use fuchsia_minfs.Format.{minfs_max_directory_size}
use fuchsia_minfs.Directory.Records.{
  Directory, DirectoryOffset, iterator_done, iterator_next, validate_dirent, next_dirent,
  bytes_read, in_directory, visit, walk_from, matches, callback_find, callback_find_space,
  for_each_dirent, at_start,
}
use fuchsia_minfs.Directory.Chain.{
  Reached, reached_start, reached_next, Reached-before, visit-next, visit-cases, walk_from-ends,
  find-Steps, find_space-Steps,
}
use fuchsia_minfs.Prelude.{>>-ok}

-- No record before the offset matches.
abbrev NoneBefore : Directory → List ℕ → ℕ → Type 0
NoneBefore d name off = (o : ℕ) → Reached d o → o < off → matches name (d.records o) ≡ false

pub visit-find-next :
    (d : Directory) (name : List ℕ) (offs offs' : DirectoryOffset)
    → visit d (callback_find name) offs ≡ ok (iterator_next, offs')
    → matches name (d.records offs.off) ≡ false
unfolding visit callback_find
visit-find-next d name offs offs' e =
    let (v, c) =
      >>-ok (validate_dirent (d.records offs.off) (bytes_read d offs.off) offs.off)
        (callback_find name (d.records offs.off) offs) (iterator_next, offs') e in
    elim (Bool-cases (matches name (d.records offs.off))) [
      | inl q ↦ absurd (let x = rw q at c in ground arith)
      | inr q ↦ q
    ]

pub visit-find-done :
    (d : Directory) (name : List ℕ) (offs offs' : DirectoryOffset)
    → visit d (callback_find name) offs ≡ ok (iterator_done, offs')
    → (matches name (d.records offs.off) ≡ true) × (offs' ≡ offs)
unfolding visit callback_find next_dirent
visit-find-done d name offs offs' e =
    let (v, c) =
      >>-ok (validate_dirent (d.records offs.off) (bytes_read d offs.off) offs.off)
        (callback_find name (d.records offs.off) offs) (iterator_done, offs') e in
    elim (Bool-cases (matches name (d.records offs.off))) [
      | inl q ↦ (q, let x = rw q at c in cc)
      | inr q ↦ absurd (let x = rw q at c in ground arith)
    ]

-- What the walk has found where it stops.
data Stopped (d : Directory) (name : List ℕ) : Bool → ℕ → Type 0 where
  stopped_at : (off : ℕ) → matches name (d.records off) ≡ true → Stopped d name true off
  exhausted : (off : ℕ) → in_directory d off ≡ false → Stopped d name false off

walk_from-find :
    (fuel : ℕ) (d : Directory) (name : List ℕ) (offs : DirectoryOffset) (found : Bool)
    (last : DirectoryOffset)
    → Reached d offs.off
    → NoneBefore d name offs.off
    → walk_from fuel d (callback_find name) offs ≡ some (ok (found, last))
    → Reached d last.off × NoneBefore d name last.off × Stopped d name found last.off
unfolding walk_from
walk_from-find zero d name offs found last r before e = absurd cc
walk_from-find (suc fuel) d name offs found last r before e =
    elim (Bool-cases (in_directory d offs.off)) [
      | inr q ↦
          let x = rw (q, walk_from) at e in
          let f : false ≡ found = cc in
          let l : offs ≡ last = cc in rw (← f, ← l) (r, before, exhausted offs.off q)
      | inl q ↦ elim (visit-cases d (callback_find name) offs) [
        | inl (s, v) ↦ absurd (let x = rw (q, walk_from, v) at e in cc)
        | inr (inl (offs', v)) ↦
            let x = rw (q, walk_from, v) at e in
            let (m, same) = visit-find-done d name offs offs' v in
            let f : true ≡ found = cc in
            let l : offs ≡ last = cc in rw (← f, ← l) (r, before, stopped_at offs.off m)
        | inr (inr (offs', v)) ↦
            let (long, on, within) =
              visit-next d (callback_find name) offs offs' (find-Steps name) v in
            let no = visit-find-next d name offs offs' v in
            walk_from-find fuel d name offs' found last (rw on (reached_next offs.off r long))
              (λ o ro h. elim (Reached-before d offs.off o r ro (omega (arith, on))) [
                | inl less ↦ before o ro less
                | inr here ↦ rw here no
              ])
              (rw (q, walk_from, v) at e)
      ]
    ]

Stopped-true :
    (d : Directory) (name : List ℕ) (off : ℕ)
    → Stopped d name true off
    → matches name (d.records off) ≡ true
Stopped-true d name off (stopped_at off' m) = m

Stopped-false :
    (d : Directory) (name : List ℕ) (off : ℕ)
    → Stopped d name false off
    → in_directory d off ≡ false
Stopped-false d name off (exhausted off' q) = q

-- Where the walk for a name stops at a record, that record is reached from the start of the directory
-- and is in use with this name, and no record reached before it is.
pub for_each_dirent-found :
    (d : Directory) (name : List ℕ) (offs : DirectoryOffset)
    → for_each_dirent d (callback_find name) ≡ some (ok (true, offs))
    → Reached d offs.off
      × (matches name (d.records offs.off) ≡ true)
      × ((o : ℕ) → Reached d o → o < offs.off → matches name (d.records o) ≡ false)
unfolding for_each_dirent
for_each_dirent-found d name offs e =
    let (r, before, s) =
      walk_from-find minfs_max_directory_size d name at_start true offs reached_start
        (λ o r h. absurd (omega arith)) e in
    (r, Stopped-true d name offs.off s, before)

-- Where the walk for a name passes all of the directory, no record in use that is reached from its
-- start, within its size and the largest one, has this name.
pub for_each_dirent-missing :
    (d : Directory) (name : List ℕ) (offs : DirectoryOffset) (o : ℕ)
    → for_each_dirent d (callback_find name) ≡ some (ok (false, offs))
    → Reached d o
    → in_directory d o ≡ true
    → matches name (d.records o) ≡ false
unfolding for_each_dirent
for_each_dirent-missing d name offs o e ro h =
    let (r, before, s) =
      walk_from-find minfs_max_directory_size d name at_start false offs reached_start
        (λ o r h. absurd (omega arith)) e in
    let out = Stopped-false d name offs.off s in before o ro (ground arith)

-- The walks for a name and for space end within the fuel, on any data.
pub for_each_dirent-ends :
    (d : Directory) (name : List ℕ) (reclen : ℕ)
    → (for_each_dirent d (callback_find name) ≢ none)
      × (for_each_dirent d (callback_find_space reclen) ≢ none)
unfolding for_each_dirent
for_each_dirent-ends d name reclen = (
  walk_from-ends minfs_max_directory_size d (callback_find name) at_start (find-Steps name)
      (omega arith) (omega arith),
  walk_from-ends minfs_max_directory_size d (callback_find_space reclen) at_start
      (find_space-Steps reclen) (omega arith) (omega arith),
)
