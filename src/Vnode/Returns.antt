-- ===== src/Vnode/Returns.antt =====
-- RemoveInodeLink and CloseNode where the lookup finds the vnodes of the list.
use fuchsia_minfs.Prelude.{
  ℕ, ◌≡◌, ◌≢◌, refl, true, false, ◌==◌, inl, inr, List, some, ok, arith, Bool-cases,
}
use fuchsia_minfs.Vnode.State.{
  Vnode, Vnodes, Calls, Outcome, put_vnode, purge, drop_link, empty_directory, unlinked_vnode,
  remove_inode_link, can_follow,
}
use fuchsia_minfs.Unlinked.List.{add_unlinked}

unlinked_vnode-some :
    (calls : Calls) (s : Vnodes) (ino : ℕ)
    → can_follow s s.unlinked.unlinked_tail ≡ true
    → (o : Outcome) × (unlinked_vnode calls s ino ≡ some o)
unfolding unlinked_vnode
unlinked_vnode-some calls s ino h = elim (Bool-cases ((s.vnodes ino).open_count == 0)) [
  | inl q ↦ (purge calls s ino, rw q refl)
  | inr q ↦ (
    empty_directory calls (record s { unlinked = add_unlinked s.unlinked ino }) ino,
    rw (q, h) refl,
  )
]

pub remove_inode_link-some :
    (calls : Calls) (s : Vnodes) (ino : ℕ)
    → can_follow s s.unlinked.unlinked_tail ≡ true
    → (s.vnodes ino).link_count ≢ 0
    → (o : Outcome) × (remove_inode_link calls s ino ≡ some o)
unfolding remove_inode_link
remove_inode_link-some calls s ino h n =
    let q : ((s.vnodes ino).link_count == 0) ≡ false = ground (arith, n) in
    let v : Vnode = record (s.vnodes ino) { link_count = drop_link (s.vnodes ino) } in
    elim (Bool-cases (drop_link (s.vnodes ino) == 0)) [
      | inl z ↦ let (o, e) = unlinked_vnode-some calls (put_vnode s ino v) ino h in (o, rw (q, z) e)
      | inr z ↦ ((put_vnode s ino v, ok tt), rw (q, z) refl)
    ]
