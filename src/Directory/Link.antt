-- ===== src/Directory/Link.antt =====
-- AppendDirent, and the walk for the name of its record.
use fuchsia_minfs.Prelude.{
  ℕ, suc, ◌+◌, ◌-◌, ◌%◌, ◌^◌, ◌≤◌, ◌<◌, ◌≡◌, ◌≢◌, inl, inr, refl, ap, ◌∙◌, true, false, ◌==◌,
  if◌then◌else◌, length, some, ok, sub32, arith, Bool-cases, ==_iff,
}
use fuchsia_minfs.Format.{
  Dirent, dirent_size, dirent_reserved_size, is_last, minfs_reclen_last, minfs_max_directory_size,
}
use fuchsia_minfs.Directory.Records.{
  Directory, DirectoryOffset, DirArgs, write_record, iterator_done, validate_dirent, next_dirent,
  bytes_read, in_directory, visit, walk_from, matches, callback_find, callback_find_space,
  for_each_dirent, at_start, append_dirent, append_at, append_split,
}
use fuchsia_minfs.Directory.Chain.{
  reserved_at, Reached, reached_start, validate_dirent-long, find_space-Steps,
}
use fuchsia_minfs.Prelude.{>>-ok}
use fuchsia_minfs.Directory.Append.{
  callback-spare, append-free, append-used, reserved-short, reserved-same, reserved-rest,
  same_offset,
}
use fuchsia_minfs.Directory.Pass.{
  IsValid, Passed, walk_from-stops, for_each_dirent-Passed, walk_from-on, walk_from-reaches,
}
use fuchsia_minfs.Directory.Named.{
  validate_dirent-aligned, validate_dirent-named, validate_dirent-ok, new_dirent, IsNamed,
  dirent_size-fits, new-found,
}

append_at-record :
    (d : Directory) (args : DirArgs) (off reclen : ℕ)
    → (append_at d args off reclen).records off ≡ new_dirent args reclen
unfolding append_at
append_at-record d args off reclen = rw (same_offset off) refl

append_at-other :
    (d : Directory) (args : DirArgs) (off reclen o : ℕ)
    → o ≢ off
    → (append_at d args off reclen).records o ≡ d.records o
unfolding append_at
append_at-other d args off reclen o n = elim (Bool-cases (o == off)) [
  | inl q ↦ absurd (n ((==_iff o off).0 q))
  | inr q ↦ rw q refl
]

append_at-size :
    (d : Directory) (args : DirArgs) (off reclen : ℕ)
    → IsNamed args
    → (d.size ≤ (append_at d args off reclen).size)
      × (off + args.reclen ≤ (append_at d args off reclen).size)
unfolding append_at
append_at-size d args off reclen n =
    let l : length args.name % 2 ^ 8 ≡ length args.name = omega (arith, n.short) in
    rw l (omega arith, omega (arith, n.reclen))

write_record-other :
    (d : Directory) (off : ℕ) (de : Dirent) (o : ℕ)
    → o ≢ off
    → (write_record d off de).records o ≡ d.records o
write_record-other d off de o n = elim (Bool-cases (o == off)) [
  | inl q ↦ absurd (n ((==_iff o off).0 q))
  | inr q ↦ rw q refl
]

-- The new name is found in the directory with the new record.
abbrev Finds : Directory → DirArgs → Type 0
Finds d' args =
    (last : DirectoryOffset) × (for_each_dirent d' (callback_find args.name)
      ≡ some (ok (true, last)))
    × ((d'.records last.off).ino ≡ args.ino)

module _ (d : Directory) (args : DirArgs) (n : IsNamed args) (off : ℕ) (r : Reached d off)
    (i : in_directory d off ≡ true) (passed : Passed d args.name off) (valid : IsValid d off)
    (other : matches args.name (d.records off) ≡ false) where
  append_at-Finds :
      args.reclen ≤ reserved_at d off → Finds (append_at d args off (d.records off).reclen) args
  unfolding for_each_dirent
  append_at-Finds fits =
      let reclen = (d.records off).reclen in
      let d' = append_at d args off reclen in
      let (long, within) = validate_dirent-long (d.records off) (bytes_read d off) off valid in
      let records = append_at-record d args off reclen in
      let (grows, room) = append_at-size d args off reclen n in
      walk_from-reaches d d' args.name off r i
        (λ o h. append_at-other d args off reclen o (λ q. omega (arith, q, h))) grows passed
        (λ last. (d'.records last.off).ino ≡ args.ino)
        (λ fuel prev. (
          record { off = off; off_prev = prev },
          new-found d' args n off reclen (reserved_at d off) records
              (reserved-same (new_dirent args reclen) (d.records off) off refl) fits within
              (validate_dirent-aligned (d.records off) (bytes_read d off) off valid).0 room
              (suc fuel) prev,
          ap (λ de. de.ino) records,
        ))
        minfs_max_directory_size at_start reached_start (omega arith) (omega arith)

  append_split-Finds :
      ((d.records off).ino == 0) ≡ false
      → dirent_size (d.records off).namelen + args.reclen ≤ reserved_at d off
      → Finds (append_split d args off) args
  unfolding for_each_dirent append_split next_dirent matches
  append_split-Finds used fits =
      let de = d.records off in
      let u = dirent_size de.namelen in
      let cut : Dirent = record de { reclen = u } in
      let reclen =
        if is_last de.reclen
        then sub32 (reserved_at d off) u + minfs_reclen_last
        else sub32 (reserved_at d off) u in
      let d' = append_split d args off in
      let new = off + u in
      let s = dirent_size-fits de.namelen in
      let (long, within) = validate_dirent-long de (bytes_read d off) off valid in
      let d1 = write_record d off cut in
      let records : d'.records new ≡ new_dirent args reclen = append_at-record d1 args new reclen in
      let old : d'.records off ≡ cut =
        append_at-other d1 args new reclen off (omega (arith, s.0)) ∙ rw (same_offset off) refl in
      let (grows, room) = append_at-size d1 args new reclen n in
      let rest =
        reserved-rest de (new_dirent args reclen) off u within (omega (arith, fits)) refl in
      let a = (validate_dirent-aligned de (bytes_read d off) off valid).0 in
      let short : dirent_reserved_size cut off ≡ u =
        reserved-short cut off u refl (omega (arith, fits, within)) in
      let bigger : d.size ≤ d'.size = omega (arith, grows) in
      let bytes = (validate_dirent-aligned de (bytes_read d off) off valid).1 in
      walk_from-reaches d d' args.name off r i
        (λ o h.
          append_at-other d1 args new reclen o (omega (arith, h))
          ∙ write_record-other d off cut o (omega (arith, h)))
        bigger passed (λ last. (d'.records last.off).ino ≡ args.ino)
        (λ fuel prev. (
          record { off = new; off_prev = off },
          walk_from-on d' args.name (suc fuel) (record { off = off; off_prev = prev })
                (ground (arith, i, bigger))
                (rw old (
                  validate_dirent-ok cut (bytes_read d' off) off u short
                    (omega (arith, bytes, bigger)) (omega (arith, within, fits)) s.1
                    (validate_dirent-named de (bytes_read d off) off valid used) s.0))
                (rw old other)
              ∙ ap
                  (λ x.
                    walk_from (suc fuel) d' (callback_find args.name)
                      (record { off = off + x; off_prev = off }))
                  (ap (λ x. dirent_reserved_size x off) old ∙ short)
              ∙ new-found d' args n new reclen (reserved_at d off - u) records rest
                  (omega (arith, fits)) (omega (arith, within, fits)) (omega (arith, a, s.1)) room
                  fuel off,
          ap (λ de. de.ino) records,
        ))
        minfs_max_directory_size at_start reached_start (omega arith) (omega arith)

-- AppendDirent of a name that the walk over the directory does not find, where the walk for space has
-- stopped, succeeds, and the walk for the name over the new directory stops at a record with the inode
-- number of the new entry. The name is neither empty nor longer than 255 bytes, the space asked for is
-- the size of its record, and the inode number is not 0.
pub append_dirent-Finds :
    (d : Directory) (args : DirArgs) (missing offs : DirectoryOffset)
    → IsNamed args
    → for_each_dirent d (callback_find args.name) ≡ some (ok (false, missing))
    → for_each_dirent d (callback_find_space args.reclen) ≡ some (ok (true, offs))
    → (d' : Directory) × (append_dirent d args offs.off ≡ ok d') × Finds d' args
unfolding for_each_dirent visit
append_dirent-Finds d args missing offs n m e =
    let (at, r, i, v) =
      walk_from-stops minfs_max_directory_size d (callback_find_space args.reclen) at_start offs
        (find_space-Steps args.reclen) reached_start e in
    let (valid, c) =
      >>-ok (validate_dirent (d.records at.off) (bytes_read d at.off) at.off)
        (callback_find_space args.reclen (d.records at.off) at) (iterator_done, offs) v in
    let within = validate_dirent-long (d.records at.off) (bytes_read d at.off) at.off valid in
    let (same, s) =
      callback-spare (d.records at.off) args.reclen at offs (omega (arith, within.1)) c in
    let (all, out) = for_each_dirent-Passed d args.name missing m in
    let less : at.off < missing.off = ground (arith, i, out) in
    let other = (all at.off r less).0 in
    let passed : Passed d args.name at.off = λ o ro h. all o ro (omega (arith, h, less)) in
    rw (← same) (elim s [
      | inl (free, fits) ↦ (
        append_at d args at.off (d.records at.off).reclen,
        append-free d args at.off valid free fits,
        append_at-Finds d args n at.off r i passed valid other fits,
      )
      | inr (used, fits) ↦ (
        append_split d args at.off,
        append-used d args at.off valid used fits,
        append_split-Finds d args n at.off r i passed valid other used fits,
      )
    ])
