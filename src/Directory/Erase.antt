-- ===== src/Directory/Erase.antt =====
-- UnlinkChild and DirentCallbackUnlink: a record is erased, and joined with the free ones beside it.
-- A volume that can be read is taken here: a read fails where the directory is too short for it.
use fuchsia_minfs.Prelude.{
  ℕ, ◌+◌, ◌%◌, ◌^◌, Bool, true, false, not, ◌&&◌, ◌==◌, ltb, leb, max, if◌then◌else◌, Option, none,
  some, List, u32, sub32, Result, ok, err, ◌>>◌, ◌>>=◌, guard, io, not_empty, not_dir, not_found,
  unavailable, out_of_range, bad_state,
}
use fuchsia_minfs.Format.{
  Dirent, dirent_reserved_size, is_last, minfs_dirent_size, minfs_reclen_last, minfs_reclen_mask,
}
use fuchsia_minfs.Directory.Records.{
  Directory, DirectoryOffset, validate_dirent, callback_find, for_each_dirent,
}
use fuchsia_minfs.Vnode.State.{Vnode, Vnodes, Calls, Outcome, put, is_unlinked, remove_inode_link}

-- ReadExactInternal of the fixed part of a record, with its test.
unfoldable pub read_dirent : Directory → ℕ → Result Dirent
read_dirent d off =
    guard (leb (off + minfs_dirent_size) d.size) io
    >> (validate_dirent (d.records off) minfs_dirent_size off >> ok (d.records off))

abbrev pub last_bit : ℕ → ℕ
last_bit reclen = if is_last reclen then minfs_reclen_last else 0

-- The size that is joined so far, and the record, which is last if a free one behind it was.
unfoldable pub coalesce_next : Directory → Dirent → ℕ → Result (ℕ × Dirent)
coalesce_next d de off =
    let size = dirent_reserved_size de off in
    if is_last de.reclen
    then ok (size, de)
    else read_dirent d (off + size) >>= λ de_next.
        if de_next.ino == 0
        then ok (
          size + dirent_reserved_size de_next (off + size),
          record de { reclen = de.reclen + last_bit de_next.reclen },
        )
        else ok (size, de)

-- The size that is joined, and where the joined record begins.
unfoldable pub coalesce_prev : Directory → DirectoryOffset → ℕ → Result (ℕ × ℕ)
coalesce_prev d offs size =
    if offs.off_prev == offs.off
    then ok (size, offs.off)
    else read_dirent d offs.off_prev >>= λ de_prev.
        if de_prev.ino == 0
        then ok (size + dirent_reserved_size de_prev offs.off_prev, offs.off_prev)
        else ok (size, offs.off)

-- The empty record, and where it is written.
unfoldable pub empty_dirent : Dirent → ℕ → ℕ → Result (Dirent × ℕ)
empty_dirent de size off =
    if not (is_last de.reclen) && leb minfs_reclen_mask size
    then err io
    else ok (record de { ino = 0; reclen = size % 2 ^ 28 + last_bit de.reclen }, off)

unfoldable pub coalesce : Directory → DirectoryOffset → Result (Dirent × ℕ)
coalesce d offs = coalesce_next d (d.records offs.off) offs.off >>= λ joined.
    coalesce_prev d offs joined.0 >>= λ place. empty_dirent joined.1 place.0 place.1

-- WriteExactInternal of the fixed part of a record: the bytes of the name stay what they were.
unfoldable pub write_head : Directory → ℕ → Dirent → Directory
write_head d off de =
    let de' : Dirent = record de { name = (d.records off).name } in
    record d {
      records = λ o. if o == off then de' else d.records o;
      size = max d.size (off + minfs_dirent_size);
    }

-- `truncate` is what TruncateInternal returns; if it fails, the size stays.
unfoldable pub erase_dirent : Result (Unit {0}) → Directory → Dirent → ℕ → Directory
erase_dirent truncate d de off =
    let d' = write_head d off de in
    record d' {
      size =
          if is_last de.reclen
          then elim truncate [ ok done ↦ off + minfs_dirent_size | err e ↦ d'.size ]
          else d'.size;
      dirent_count = sub32 d.dirent_count 1;
    }

-- A child directory had a link to its parent.
abbrev pub drop_parent_link : Vnode → Directory → Directory
drop_parent_link child d = record d {
  link_count = if child.is_directory then sub32 d.link_count 1 else d.link_count;
}

-- What the calls of an unlink return, and what the library of the platform says of the child.
pub record UnlinkCalls : Type 0 where
  pub begin_transaction : Result (Unit {0})
  pub truncate : Result (Unit {0})
  pub is_remote : Bool
  pub child : Calls

-- `none` is a run of RemoveInodeLink that stops.
unfoldable pub unlink_child :
    UnlinkCalls → Vnodes → Directory → ℕ → DirectoryOffset → Option (Directory × Outcome)
unlink_child calls s d child offs = elim (coalesce d offs) [
  | err e ↦ some (d, (s, err e))
  | ok (de, off) ↦ elim (remove_inode_link calls.child s child) [
    | none ↦ none
    | some o ↦ some (drop_parent_link (s.vnodes child) (erase_dirent calls.truncate d de off), o)
  ]
]

-- Minfs::VnodeGet: a vnode that is not found is made again from its inode.
unfoldable pub vnode_get : ℕ → Vnodes → ℕ → Result Vnodes
vnode_get inode_count s ino =
    guard (not (ltb ino 1) && ltb ino inode_count) out_of_range
    >> (if s.in_hash ino && not (is_unlinked (s.vnodes ino))
        then ok s
        else guard (not (is_unlinked (s.vnodes ino))) bad_state
          >> ok (record s { in_hash = put s.in_hash ino true }))

-- A directory must be empty, and no mount point.
unfoldable pub can_unlink : Bool → Vnode → Result (Unit {0})
can_unlink is_remote v =
    if v.is_directory
    then guard (v.dirent_count == 2) not_empty >> guard (not is_remote) unavailable
    else ok tt

-- What stands before UnlinkChild in DirentCallbackUnlink, for a record with the name.
unfoldable pub check_unlink : UnlinkCalls → ℕ → Vnodes → Bool → ℕ → Result Vnodes
check_unlink calls inode_count s must_be_dir child = vnode_get inode_count s child >>= λ s'.
    guard (not (must_be_dir && not (s'.vnodes child).is_directory)) not_dir
    >> (can_unlink calls.is_remote (s'.vnodes child) >> ok s')

unfoldable pub callback_unlink :
    UnlinkCalls → ℕ → Vnodes → Directory → Bool → DirectoryOffset → Option (Directory × Outcome)
callback_unlink calls inode_count s d must_be_dir offs =
    let child = (d.records offs.off).ino in
    elim (check_unlink calls inode_count s must_be_dir child) [
      | err e ↦ some (d, (s, err e))
      | ok s' ↦ unlink_child calls s' d child offs
    ]

-- ForEachDirent counts a change that the callback has made.
abbrev pub save_sync : Directory × Outcome → Directory × Outcome
save_sync (d, (s, err e)) = (d, (s, err e))
save_sync (d, (s, ok done)) = (record d { seq_num = u32 (d.seq_num + 1) }, (s, ok done))

abbrev pub save_sync_of : Option (Directory × Outcome) → Option (Directory × Outcome)
save_sync_of none = none
save_sync_of (some o) = some (save_sync o)

-- Directory::Unlink. The callback passes over the records that do not have the name as
-- DirentCallbackFind does; `none` is also a walk without fuel.
unfoldable pub directory_unlink :
    UnlinkCalls → ℕ → Vnodes → Directory → List ℕ → Bool → Option (Directory × Outcome)
directory_unlink calls inode_count s d name must_be_dir = elim calls.begin_transaction [
  | err e ↦ some (d, (s, err e))
  | ok done ↦ elim (for_each_dirent d (callback_find name)) [
    | none ↦ none
    | some (err e) ↦ some (d, (s, err e))
    | some (ok (false, offs)) ↦ some (d, (s, err not_found))
    | some (ok (true, offs)) ↦ save_sync_of (callback_unlink calls inode_count s d must_be_dir offs)
  ]
]
