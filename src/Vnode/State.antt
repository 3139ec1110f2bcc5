-- ===== src/Vnode/State.antt =====
-- Links, opens and closes of vnodes, with the list of those that are unlinked and still open. What
-- BeginTransaction, BlocksShrink, TruncateInternal and FlushCachedWrites return is an argument. `none` is
-- a run that stops, at a ZX_ASSERT or at a null pointer.
use fuchsia_minfs.Prelude.{
  ℕ, ◌+◌, ◌-◌, ◌^◌, Bool, true, false, not, ◌&&◌, ◌||◌, ◌==◌, if◌then◌else◌, Option, none, some,
  Result, ok, err,
}
use fuchsia_minfs.Unlinked.List.{Unlinked, add_unlinked, remove_unlinked}

pub record Vnode : Type 0 where
  pub is_directory : Bool
  pub link_count : ℕ
  pub dirent_count : ℕ
  pub open_count : ℕ
  pub is_purged : Bool

-- `in_hash` says whether the lookup of vnodes finds one; `ino_allocated` is the inode allocator's map.
pub record Vnodes : Type 0 where
  pub unlinked : Unlinked
  pub vnodes : ℕ → Vnode
  pub in_hash : ℕ → Bool
  pub ino_allocated : ℕ → Bool

pub record Calls : Type 0 where
  pub begin_transaction : Result (Unit {0})
  pub blocks_shrink : Result (Unit {0})
  pub truncate : Result (Unit {0})
  pub flush : Result (Unit {0})

abbrev pub Outcome : Type 0
Outcome = Vnodes × Result (Unit {0})

abbrev pub put {ℓ} : {A : Type ℓ} → (ℕ → A) → ℕ → A → ℕ → A
put f i v j = if j == i then v else f j

abbrev pub put_vnode : Vnodes → ℕ → Vnode → Vnodes
put_vnode s ino v = record s { vnodes = put s.vnodes ino v }

abbrev pub is_unlinked : Vnode → Bool
is_unlinked v = v.link_count == 0

abbrev pub vnode_release : Vnodes → ℕ → Vnodes
vnode_release s ino = record s { in_hash = put s.in_hash ino false }

-- The inode is freed first; its blocks may then fail to shrink.
unfoldable pub ino_free : Calls → Vnodes → ℕ → Outcome
ino_free calls s ino =
    let s' = record s { ino_allocated = put s.ino_allocated ino false } in
    elim calls.blocks_shrink [
      | err e ↦ (s', err e)
      | ok done ↦ (put_vnode s' ino (record (s.vnodes ino) { is_purged = true }), ok tt)
    ]

-- VnodeMinfs::RecycleNode.
unfoldable pub recycle_node : Vnodes → ℕ → Vnodes
recycle_node s ino = if is_unlinked (s.vnodes ino) then s else vnode_release s ino

unfoldable pub purge : Calls → Vnodes → ℕ → Outcome
purge calls s ino = ino_free calls (vnode_release s ino) ino

unfoldable pub add_link : Vnodes → ℕ → Option Vnodes
add_link s ino =
    let v = s.vnodes ino in
    if v.link_count + 1 == 2 ^ 32
    then none
    else some (put_vnode s ino (record v { link_count = v.link_count + 1 }))

-- A directory that only points to itself has no link.
unfoldable pub drop_link : Vnode → ℕ
drop_link v = if v.is_directory && v.link_count - 1 == 1 then 0 else v.link_count - 1

-- The entries of an unlinked directory go.
unfoldable pub empty_directory : Calls → Vnodes → ℕ → Outcome
empty_directory calls s ino =
    let v = s.vnodes ino in
    if v.is_directory
    then (put_vnode s ino (record v { dirent_count = 0 }), calls.truncate)
    else (s, ok tt)

-- AddUnlinked and RemoveUnlinked follow a link that is not 0 through VnodeLookupInternal; the vnode
-- that is not found is a null pointer.
abbrev pub can_follow : Vnodes → ℕ → Bool
can_follow s link = link == 0 || s.in_hash link

unfoldable pub unlinked_vnode : Calls → Vnodes → ℕ → Option Outcome
unlinked_vnode calls s ino =
    if (s.vnodes ino).open_count == 0
    then some (purge calls s ino)
    else if can_follow s s.unlinked.unlinked_tail
    then some (empty_directory calls (record s { unlinked = add_unlinked s.unlinked ino }) ino)
    else none

unfoldable pub remove_inode_link : Calls → Vnodes → ℕ → Option Outcome
remove_inode_link calls s ino =
    let v = s.vnodes ino in
    let v' = record v { link_count = drop_link v } in
    let s' = put_vnode s ino v' in
    if v.link_count == 0
    then none
    else if is_unlinked v'
    then unlinked_vnode calls s' ino
    else some (s', ok tt)

-- VnodeMinfs::RemoveUnlinked.
unfoldable pub remove_unlinked_vnode : Calls → Vnodes → ℕ → Option Outcome
remove_unlinked_vnode calls s ino = elim calls.begin_transaction [
  | err e ↦ some (vnode_release s ino, err e)
  | ok done ↦
      if can_follow s (s.unlinked.last_inode ino) && can_follow s (s.unlinked.next_inode ino)
      then some (purge calls (record s { unlinked = remove_unlinked s.unlinked ino }) ino)
      else none
]

unfoldable pub close_node : Calls → Vnodes → ℕ → Option Outcome
close_node calls s ino =
    if not ((s.vnodes ino).open_count == 0)
    then some (s, ok tt)
    else if not (is_unlinked (s.vnodes ino))
    then some (s, calls.flush)
    else remove_unlinked_vnode calls s ino

-- VnodeMinfs::Allocate: a directory has an entry for itself and one in its parent.
abbrev pub new_vnode : Bool → Vnode
new_vnode is_directory = record {
  is_directory = is_directory;
  link_count = if is_directory then 2 else 1;
  dirent_count = if is_directory then 2 else 0;
  open_count = 0;
  is_purged = false;
}

-- Minfs::VnodeNew, with the inode that the allocator gives.
unfoldable pub vnode_new : Bool → Vnodes → ℕ → Vnodes
vnode_new is_directory s ino = record s {
  unlinked = record (s.unlinked) {
    last_inode = put s.unlinked.last_inode ino 0;
    next_inode = put s.unlinked.next_inode ino 0;
  };
  vnodes = put s.vnodes ino (new_vnode is_directory);
  in_hash = put s.in_hash ino true;
  ino_allocated = put s.ino_allocated ino true;
}
