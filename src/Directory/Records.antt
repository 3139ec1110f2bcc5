-- ===== src/Directory/Records.antt =====
-- ValidateDirent, ForEachDirent with the callbacks that only read, and AppendDirent. The data of a
-- directory is what its bytes at each offset are when read as a record; a write changes the record at
-- its offset, as it does where records do not overlap.
use fuchsia_minfs.Prelude.{
  take, ℕ, zero, suc, ◌+◌, ◌-◌, ◌%◌, ◌^◌, Bool, true, false, not, ◌&&◌, ◌||◌, ◌==◌, ltb, leb,
  if◌then◌else◌, min, max, Option, none, some, List, [], ◌∷◌, length, u32, sub32, Result, ok, err,
  ◌>>◌, guard, io, no_space,
}
use fuchsia_minfs.Format.{
  Dirent, dirent_size, dirent_reserved_size, is_last, minfs_dirent_size, minfs_dirent_alignment,
  minfs_max_dirent_size, minfs_max_directory_size, minfs_reclen_last, minfs_type_dir,
}

pub record Directory : Type 0 where
  pub records : ℕ → Dirent
  pub size : ℕ
  pub link_count : ℕ
  pub dirent_count : ℕ
  pub seq_num : ℕ

pub record DirectoryOffset : Type 0 where
  pub off : ℕ
  pub off_prev : ℕ

-- The part of DirArgs that is not an offset.
pub record DirArgs : Type 0 where
  pub name : List ℕ
  pub ino : ℕ
  pub dtype : ℕ
  pub reclen : ℕ

-- A callback that only reads stops the walk or goes on.
pub data IteratorCommand : Type 0 where
  iterator_done iterator_next : IteratorCommand

unfoldable pub validate_dirent : Dirent → ℕ → ℕ → Result (Unit {0})
validate_dirent de bytes_read off = do
  guard (leb minfs_dirent_size bytes_read) io
  guard (leb minfs_dirent_size (dirent_reserved_size de off)) io
  guard
      (leb (off + dirent_reserved_size de off) minfs_max_directory_size
        && dirent_reserved_size de off % minfs_dirent_alignment == 0)
      io
  guard
      (de.ino == 0
        || not (de.namelen == 0)
          && leb de.namelen (sub32 (dirent_reserved_size de off) minfs_dirent_size))
      io
  ok tt

unfoldable pub same_name : List ℕ → List ℕ → Bool
same_name [] [] = true
same_name [] (y ∷ ys) = false
same_name (x ∷ xs) [] = false
same_name (x ∷ xs) (y ∷ ys) = x == y && same_name xs ys

unfoldable pub next_dirent : Dirent → DirectoryOffset → IteratorCommand × DirectoryOffset
next_dirent de offs = (
  iterator_next,
  record { off = offs.off + dirent_reserved_size de offs.off; off_prev = offs.off },
)

abbrev pub Callback : Type 0
Callback = Dirent → DirectoryOffset → Result (IteratorCommand × DirectoryOffset)

-- A record in use with the name.
unfoldable pub matches : List ℕ → Dirent → Bool
matches name de = not (de.ino == 0) && same_name de.name name

unfoldable pub callback_find : List ℕ → Callback
callback_find name de offs =
    if matches name de then ok (iterator_done, offs) else ok (next_dirent de offs)

unfoldable pub callback_find_space : ℕ → Callback
callback_find_space reclen de offs =
    let reserved_size = dirent_reserved_size de offs.off in
    let used_size = dirent_size de.namelen in
    if de.ino == 0
    then if ltb reserved_size reclen then ok (next_dirent de offs) else ok (iterator_done, offs)
    else if ltb reserved_size used_size
    then err io
    else if ltb (sub32 reserved_size used_size) reclen
    then ok (next_dirent de offs)
    else ok (iterator_done, offs)

-- What ReadInternal of kMinfsMaxDirentSize bytes reads.
abbrev pub bytes_read : Directory → ℕ → ℕ
bytes_read d off = min minfs_max_dirent_size (d.size - off)

abbrev pub in_directory : Directory → ℕ → Bool
in_directory d off = ltb (off + minfs_dirent_size) minfs_max_directory_size && ltb off d.size

-- One record of the walk.
unfoldable pub visit :
    Directory → Callback → DirectoryOffset → Result (IteratorCommand × DirectoryOffset)
visit d callback offs =
    validate_dirent (d.records offs.off) (bytes_read d offs.off) offs.off
    >> callback (d.records offs.off) offs

-- The loop of ForEachDirent: whether the callback stopped it, and the offsets; `none` without fuel.
unfoldable pub walk_from :
    ℕ → Directory → Callback → DirectoryOffset → Option (Result (Bool × DirectoryOffset))
walk_from zero d callback offs = none
walk_from (suc fuel) d callback offs = elim (in_directory d offs.off) [
  | false ↦ some (ok (false, offs))
  | true ↦ elim (visit d callback offs) [
    | err e ↦ some (err e)
    | ok (iterator_done, offs') ↦ some (ok (true, offs'))
    | ok (iterator_next, offs') ↦ walk_from fuel d callback offs'
  ]
]

abbrev pub at_start : DirectoryOffset
at_start = record { off = 0; off_prev = 0 }

unfoldable pub for_each_dirent : Directory → Callback → Option (Result (Bool × DirectoryOffset))
for_each_dirent d callback = walk_from minfs_max_directory_size d callback at_start

-- WriteExactInternal of a record; a directory grows by what is written behind its end.
abbrev pub write_record : Directory → ℕ → Dirent → Directory
write_record d off de = record d {
  records = λ o. if o == off then de else d.records o;
  size = max d.size (off + dirent_size de.namelen);
}

-- The new record that AppendDirent writes at an offset, and the counts that it updates.
unfoldable pub append_at : Directory → DirArgs → ℕ → ℕ → Directory
append_at d args off reclen =
    let de : Dirent = record {
      ino = args.ino;
      reclen = reclen;
      namelen = length args.name % 2 ^ 8;
      dtype = args.dtype % 2 ^ 8;
      name = take (length args.name % 2 ^ 8) args.name;
    } in
    let d' = write_record d off de in
    record d' {
      link_count = if args.dtype == minfs_type_dir then u32 (d.link_count + 1) else d.link_count;
      dirent_count = u32 (d.dirent_count + 1);
      seq_num = u32 (d.seq_num + 1);
    }

-- AppendDirent on a record in use that has `extra` bytes to give.
unfoldable pub append_split : Directory → DirArgs → ℕ → Directory
append_split d args off =
    let de = d.records off in
    let used_size = dirent_size de.namelen in
    let extra = sub32 (dirent_reserved_size de off) used_size in
    append_at (write_record d off (record de { reclen = used_size })) args (off + used_size)
      (if is_last de.reclen then extra + minfs_reclen_last else extra)

unfoldable pub append_dirent : Directory → DirArgs → ℕ → Result Directory
append_dirent d args off =
    let de = d.records off in
    let reserved_size = dirent_reserved_size de off in
    let used_size = dirent_size de.namelen in
    validate_dirent de (bytes_read d off) off
    >> (if de.ino == 0
        then if ltb reserved_size args.reclen
          then err no_space
          else ok (append_at d args off de.reclen)
        else if ltb reserved_size used_size
        then err io
        else if ltb (sub32 reserved_size used_size) args.reclen
        then err no_space
        else ok (append_split d args off))
