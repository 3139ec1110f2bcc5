-- ===== src/Directory/Unlink.antt =====
-- Unlink, and the record with the name.
use fuchsia_minfs.Prelude.{
  ℕ, ◌+◌, ◌≤◌, ◌≡◌, ◌⊎◌, inl, inr, refl, ap, ◌∙◌, Bool, true, false, if◌then◌else◌, List, some,
  Result, ok, err, sub32, u32, arith, Bool-cases,
}
use fuchsia_minfs.Format.{Dirent, is_last, minfs_max_directory_size}
use fuchsia_minfs.Directory.Records.{Directory, DirectoryOffset, bytes_read}
use fuchsia_minfs.Directory.Chain.{reserved_at, reached_start, validate_dirent-long}
use fuchsia_minfs.Directory.Erase.{read_dirent, write_head, erase_dirent}
use fuchsia_minfs.Directory.Records.{callback_find, for_each_dirent, at_start}
use fuchsia_minfs.Directory.Erase.{
  UnlinkCalls, drop_parent_link, unlink_child, check_unlink, callback_unlink, save_sync,
  directory_unlink,
}
use fuchsia_minfs.Unlinked.Purge.{result_cases}
use fuchsia_minfs.Vnode.State.{Vnodes, Calls, Outcome, can_follow, remove_inode_link}
use fuchsia_minfs.Directory.Join.{read_dirent-ok}
use fuchsia_minfs.Directory.Coalesce.{Coalesced, coalesce-Coalesced, Erased, erased}
use fuchsia_minfs.Directory.Found.{walk_from-Previous, found-valid, check_unlink-linked}
use fuchsia_minfs.Vnode.Returns.{remove_inode_link-some}

-- What UnlinkChild leaves, with the change that ForEachDirent counts.
pub record Unlinks (d : Directory) (s : Vnodes) (child : ℕ) (calls : Calls) (off : ℕ)
    (r : Directory × Outcome) : Type 0 where
  pub child_unlinked : remove_inode_link calls s child ≡ some r.1
  pub erases : Erased d off r.0
  pub counts : r.0.dirent_count ≡ sub32 d.dirent_count 1
  pub links :
      r.0.link_count
      ≡ (if (s.vnodes child).is_directory then sub32 d.link_count 1 else d.link_count)
  pub changes : r.1.1 ≡ ok tt → r.0.seq_num ≡ u32 (d.seq_num + 1)

erase_dirent-size :
    (truncate : Result (Unit {0})) (d : Directory) (de : Dirent) (off : ℕ)
    → off + 12 ≤ d.size
    → ((erase_dirent truncate d de off).size ≡ d.size)
      ⊎ ((is_last de.reclen ≡ true) × ((erase_dirent truncate d de off).size ≡ off + 12))
unfolding erase_dirent write_head
erase_dirent-size truncate d de off h = elim (Bool-cases (is_last de.reclen)) [
  | inr l ↦ inl (rw l (omega (arith, h)))
  | inl l ↦ elim (result_cases truncate) [
    | inl (e, q) ↦ inl (rw (l, q) (omega (arith, h)))
    | inr q ↦ inr (l, rw (l, q) refl)
  ]
]

erase_dirent-kept :
    (truncate : Result (Unit {0})) (d : Directory) (de : Dirent) (off : ℕ)
    → ((erase_dirent truncate d de off).seq_num ≡ d.seq_num)
      × ((erase_dirent truncate d de off).link_count ≡ d.link_count)
      × ((erase_dirent truncate d de off).dirent_count ≡ sub32 d.dirent_count 1)
unfolding erase_dirent write_head
erase_dirent-kept truncate d de off = (refl, refl, refl)

module _ (calls : UnlinkCalls) (s : Vnodes) (d : Directory) (child : ℕ) (offs : DirectoryOffset)
    (e : ℕ) (c : Coalesced d offs e) (long : 12 ≤ reserved_at d offs.off)
    (room : offs.off + 12 ≤ d.size) where
  left : Directory
  left = drop_parent_link (s.vnodes child) (erase_dirent calls.truncate d c.empty c.place)

  unlink_child-left :
      (o : Outcome)
      → remove_inode_link calls.child s child ≡ some o
      → unlink_child calls s d child offs ≡ some (left, o)
  unfolding unlink_child left
  unlink_child-left o q = rw (unlink_child, c.computes, q) refl

  left-Erased :
      (d' : Directory)
      → ((o : ℕ) → d'.records o ≡ (erase_dirent calls.truncate d c.empty c.place).records o)
      → d'.size ≡ (erase_dirent calls.truncate d c.empty c.place).size
      → Erased d offs.off d'
  unfolding erase_dirent
  left-Erased d' records size =
      erased d d' offs e c long room records
        (elim (erase_dirent-size calls.truncate d c.empty c.place (omega (arith, room, c.before))) [
          | inl q ↦ inl (size ∙ q)
          | inr (l, q) ↦ inr (l, size ∙ q)
        ])

  unlink_child-Unlinks :
      (o : Outcome)
      → remove_inode_link calls.child s child ≡ some o
      → Unlinks d s child calls.child offs.off (save_sync (left, o))
  unfolding left
  unlink_child-Unlinks (t, err st) q =
      let k = erase_dirent-kept calls.truncate d c.empty c.place in
      record {
        child_unlinked = q;
        erases = left-Erased (save_sync (left, (t, err st))).0 (λ o. refl) refl;
        counts = k.2;
        links = ap (λ n. if (s.vnodes child).is_directory then sub32 n 1 else n) k.1;
        changes = λ z. absurd (ground arith);
      }
  unlink_child-Unlinks (t, ok tt) q =
      let k = erase_dirent-kept calls.truncate d c.empty c.place in
      record {
        child_unlinked = q;
        erases = left-Erased (save_sync (left, (t, ok tt))).0 (λ o. refl) refl;
        counts = k.2;
        links = ap (λ n. if (s.vnodes child).is_directory then sub32 n 1 else n) k.1;
        changes = λ z. ap (λ n. u32 (n + 1)) k.0;
      }

directory_unlink-found :
    (calls : UnlinkCalls) (inode_count : ℕ) (s : Vnodes) (d : Directory) (name : List ℕ)
    (must_be_dir : Bool) (offs : DirectoryOffset) (x : Directory × Outcome)
    → calls.begin_transaction ≡ ok tt
    → for_each_dirent d (callback_find name) ≡ some (ok (true, offs))
    → callback_unlink calls inode_count s d must_be_dir offs ≡ some x
    → directory_unlink calls inode_count s d name must_be_dir ≡ some (save_sync x)
unfolding directory_unlink
directory_unlink-found calls inode_count s d name must_be_dir offs x b e h =
    rw (directory_unlink, b, e, h) refl

callback_unlink-checked :
    (calls : UnlinkCalls) (inode_count : ℕ) (s s' : Vnodes) (d : Directory) (must_be_dir : Bool)
    (offs : DirectoryOffset) (x : Directory × Outcome)
    → check_unlink calls inode_count s must_be_dir (d.records offs.off).ino ≡ ok s'
    → unlink_child calls s' d (d.records offs.off).ino offs ≡ some x
    → callback_unlink calls inode_count s d must_be_dir offs ≡ some x
unfolding callback_unlink
callback_unlink-checked calls inode_count s s' d must_be_dir offs x check h =
    rw (callback_unlink, check, h) refl

-- Unlink of a name that the walk over the directory finds, where the tests of DirentCallbackUnlink pass,
-- the record behind, if there is one, can be read and is valid, and the lookup finds the vnode at the end
-- of the list of unlinked inodes, if there is one: RemoveInodeLink takes a link from
-- the child; the other records in use stay where they are and as they are, that one is none any more, and
-- no other comes up, whether the record is joined with free ones beside it or the directory is cut
-- behind it; the directory counts one record less, a link less if the child is a directory, and one
-- change if RemoveInodeLink succeeds.
pub directory_unlink-Unlinks :
    (calls : UnlinkCalls) (inode_count : ℕ) (s s' : Vnodes) (d : Directory) (name : List ℕ)
    (must_be_dir : Bool) (offs : DirectoryOffset)
    → calls.begin_transaction ≡ ok tt
    → for_each_dirent d (callback_find name) ≡ some (ok (true, offs))
    → check_unlink calls inode_count s must_be_dir (d.records offs.off).ino ≡ ok s'
    → (is_last (d.records offs.off).reclen ≡ false
        → read_dirent d (offs.off + reserved_at d offs.off)
          ≡ ok (d.records (offs.off + reserved_at d offs.off)))
    → can_follow s' s'.unlinked.unlinked_tail ≡ true
    → (r : Directory × Outcome) × (directory_unlink calls inode_count s d name must_be_dir ≡ some r)
      × Unlinks d s' (d.records offs.off).ino calls.child offs.off r
unfolding for_each_dirent
directory_unlink-Unlinks calls inode_count s s' d name must_be_dir offs b e check next found =
    let child = (d.records offs.off).ino in
    let (valid, m) = found-valid d name offs e in
    let (r, prev) =
      walk_from-Previous minfs_max_directory_size d name at_start offs reached_start (inl refl) e in
    let (long, within) =
      validate_dirent-long (d.records offs.off) (bytes_read d offs.off) offs.off valid in
    let (end, c) = coalesce-Coalesced d offs r prev long within next in
    let room = (read_dirent-ok d offs.off valid).1 in
    let (o, q) =
      remove_inode_link-some calls.child s' child found
        (check_unlink-linked calls inode_count s s' must_be_dir child check) in
    let u = unlink_child-left calls s' d child offs end c long room o q in
    (
      save_sync (left calls s' d child offs end c long room, o),
      directory_unlink-found calls inode_count s d name must_be_dir offs
          (left calls s' d child offs end c long room, o) b e
          (callback_unlink-checked calls inode_count s s' d must_be_dir offs
            (left calls s' d child offs end c long room, o) check u),
      unlink_child-Unlinks calls s' d child offs end c long room o q,
    )
