-- ===== src/Directory/Names.antt =====
-- Link and LookupInternal.
use fuchsia_minfs.Prelude.{
  ℕ, ◌%◌, ◌^◌, true, false, not, Option, none, some, List, length, u32, Result, ok, err, ◌>>=◌,
  ◌>>◌, guard, bad_state, not_file, already_exists, no_space, not_found,
}
use fuchsia_minfs.Format.{dirent_size, minfs_type_file}
use fuchsia_minfs.Limits.{get_required_block_count}
use fuchsia_minfs.Directory.Records.{
  Directory, DirectoryOffset, DirArgs, callback_find, callback_find_space, for_each_dirent,
  append_dirent,
}
use fuchsia_minfs.Directory.Erase.{vnode_get}
use fuchsia_minfs.Vnode.State.{Vnodes, Outcome, is_unlinked, add_link}

-- `none` is a walk without fuel; otherwise the vnodes and the inode that was found.
unfoldable pub lookup_internal : ℕ → Vnodes → Directory → List ℕ → Option (Result (Vnodes × ℕ))
lookup_internal inode_count s d name = elim (for_each_dirent d (callback_find name)) [
  | none ↦ none
  | some (err e) ↦ some (err e)
  | some (ok (false, offs)) ↦ some (err not_found)
  | some (ok (true, offs)) ↦
      let ino = (d.records offs.off).ino in
      some (vnode_get inode_count s ino >>= λ s'. ok (s', ino))
]

-- The entry that Link appends: a directory has no second name.
abbrev pub link_args : List ℕ → ℕ → DirArgs
link_args name target = record {
  name = name;
  ino = target;
  dtype = minfs_type_file;
  reclen = u32 (dirent_size (length name % 2 ^ 8));
}

-- What stands before the walks.
unfoldable pub check_link : Vnodes → ℕ → ℕ → Result (Unit {0})
check_link s dir target =
    guard (not (is_unlinked (s.vnodes dir))) bad_state
    >> guard (not (s.vnodes target).is_directory) not_file

-- `none` is a walk without fuel.
unfoldable pub find_link_space : Directory → DirArgs → Option (Result DirectoryOffset)
find_link_space d args = elim (for_each_dirent d (callback_find args.name)) [
  | none ↦ none
  | some (err e) ↦ some (err e)
  | some (ok (true, offs)) ↦ some (err already_exists)
  | some (ok (false, offs)) ↦ elim (for_each_dirent d (callback_find_space args.reclen)) [
    | none ↦ none
    | some (err e) ↦ some (err e)
    | some (ok (false, offs')) ↦ some (err no_space)
    | some (ok (true, offs')) ↦ some (ok offs')
  ]
]

-- The transaction: `begin_transaction` is what BeginTransaction returns for the blocks that may be new.
unfoldable pub append_link :
    (ℕ → Result (Unit {0})) → ℕ → Directory → DirArgs → ℕ → Result Directory
append_link begin_transaction block_size d args off =
    get_required_block_count d.size args.reclen block_size >>= λ blocks.
    (begin_transaction blocks >> append_dirent d args off)

-- Link of a target, in the directory with inode `dir`; `none` is also a ZX_ASSERT of AddLink that fails.
unfoldable pub directory_link :
    (ℕ → Result (Unit {0})) → ℕ → Vnodes → Directory → ℕ → List ℕ → ℕ → Option (Directory × Outcome)
directory_link begin_transaction block_size s d dir name target = elim (check_link s dir target) [
  | err e ↦ some (d, (s, err e))
  | ok done ↦ elim (find_link_space d (link_args name target)) [
    | none ↦ none
    | some (err e) ↦ some (d, (s, err e))
    | some (ok offs) ↦
        elim (append_link begin_transaction block_size d (link_args name target) offs.off) [
          | err e ↦ some (d, (s, err e))
          | ok d' ↦ elim (add_link s target) [ none ↦ none | some s' ↦ some (d', (s', ok tt)) ]
        ]
  ]
]
