-- ===== src/Vnode/Keeps.antt =====
-- The list of the unlinked vnodes when a vnode is closed, and over all steps.
use fuchsia_minfs.Prelude.{
  ℕ, ◌-◌, ◌<◌, Bool, false, ◌&&◌, ok, ◌≡◌, ◌≢◌, sym, ◌∙◌, ap, subst, true, ◌==◌, inl, inr, List, [],
  ◌∷◌, ◌++◌, All, All-append, All-append_fst, All-append_snd, arith, Bool-cases, ==_iff,
}
use fuchsia_minfs.Unlinked.List.{remove_unlinked, Fresh, Distinct}
use fuchsia_minfs.Unlinked.Remove.{remove_unlinked-Holds}
use fuchsia_minfs.Unlinked.Purge.{result_cases}
use fuchsia_minfs.Vnode.State.{
  can_follow, Vnode, Vnodes, Calls, ino_free, purge, remove_unlinked_vnode, close_node,
}
use fuchsia_minfs.Vnode.Steps.{
  closed, Step, create, get, recycle, open_vnode, link, unlink, close, Reach, here, next,
}
use fuchsia_minfs.Vnode.Hash.{got-IsConsistent, recycle_node-IsConsistent}
use fuchsia_minfs.Vnode.Links.{In, In-splits, In-erase, remove_unlinked-IsClear}
use fuchsia_minfs.Vnode.Invariant.{IsConsistent, linked-Fresh}
use fuchsia_minfs.Vnode.Frees.{put-same, purge-IsConsistent, release-IsConsistent}
use fuchsia_minfs.Vnode.Unlinks.{
  vnode_new-IsConsistent, Returns, add_link-IsConsistent, opened-IsConsistent, closed-IsConsistent,
  remove_inode_link-IsConsistent,
}

All-erase : (P : ℕ → Type 0) (ino : ℕ) (a b : List ℕ) → All P (a ++ ino ∷ b) → All P (a ++ b)
All-erase P ino a b h =
    All-append P a b (All-append_fst P a (ino ∷ b) h) (All-append_snd P a (ino ∷ b) h).1

Distinct-apart : (ino : ℕ) (a b : List ℕ) → Distinct (a ++ ino ∷ b) → Fresh ino (a ++ b)
Distinct-apart ino [] b (f, d) = f
Distinct-apart ino (x ∷ a) b (f, d) =
    ((λ q. (All-append_snd (λ y. y ≢ x) a (ino ∷ b) f).0 (sym q)), Distinct-apart ino a b d)

-- A vnode of the list that is closed leaves it and is purged.
module _ {fails : Bool} (calls : Calls) (s : Vnodes) (a b : List ℕ) (ino : ℕ)
    (c : IsConsistent fails 0 s (a ++ ino ∷ b)) (z : (s.vnodes ino).link_count ≡ 0)
    (o : (s.vnodes ino).open_count ≡ 0) where
  erased-IsConsistent :
      IsConsistent fails 0 (record s { unlinked = remove_unlinked s.unlinked ino }) (a ++ b)
  erased-IsConsistent = record {
    holds = remove_unlinked-Holds s.unlinked ino a b c.holds;
    unlinked = All-erase (λ x. (s.vnodes x).link_count ≡ 0) ino a b c.unlinked;
    allocated = All-erase (λ x. s.ino_allocated x ≡ true) ino a b c.allocated;
    hashed = λ q. All-erase (λ x. s.in_hash x ≡ true) ino a b (c.hashed q);
    open_listed = λ i n l p.
        In-erase i ino a b (λ q. omega (arith, o, subst (λ j. 0 < (s.vnodes j).open_count) q p))
          (c.open_listed i n l p);
    linked_clear = λ i l.
        remove_unlinked-IsClear s.unlinked ino i a b c.holds (c.linked_live i l).0
          (linked-Fresh 0 s (a ++ ino ∷ b) i c l) (c.linked_clear i l);
    linked_live = c.linked_live;
    never_open = c.never_open;
  }

  remove_unlinked_vnode-IsConsistent :
      (fails ≡ false → calls.begin_transaction ≡ ok tt)
      → Returns
          (λ r. (ys : List ℕ) × IsConsistent fails 0 r.0 ys)
          (remove_unlinked_vnode calls s ino)
  unfolding remove_unlinked_vnode purge ino_free
  remove_unlinked_vnode-IsConsistent begins = elim (result_cases calls.begin_transaction) [
    | inl (e, q) ↦ rw q (
      a ++ ino ∷ b,
      release-IsConsistent s (a ++ ino ∷ b) ino c
          (λ f. absurd (let x = begins f in ground (arith, q, x))),
    )
    | inr q ↦
        elim (Bool-cases
          (can_follow s (s.unlinked.last_inode ino) && can_follow s (s.unlinked.next_inode ino))) [
            | inr g ↦ rw (q, g) tt
            | inl g ↦
                rw (q, g)
                  (
                    a ++ b,
                    purge-IsConsistent calls
                        (record s { unlinked = remove_unlinked s.unlinked ino }) (a ++ b) ino
                        erased-IsConsistent z o (Distinct-apart ino a b c.holds.distinct),
                  )
          ]
  ]

close_node-IsConsistent :
    {fails : Bool} (calls : Calls) (s : Vnodes) (xs : List ℕ) (ino : ℕ)
    → IsConsistent fails 0 s xs
    → (fails ≡ false → calls.begin_transaction ≡ ok tt)
    → ((s.vnodes ino).link_count ≡ 0 → In ino xs)
    → Returns (λ r. (ys : List ℕ) × IsConsistent fails 0 r.0 ys) (close_node calls s ino)
unfolding close_node
close_node-IsConsistent {fails} calls s xs ino c begins member =
    elim (Bool-cases ((s.vnodes ino).open_count == 0)) [
      | inr e ↦ rw e (xs, c)
      | inl e ↦ elim (Bool-cases ((s.vnodes ino).link_count == 0)) [
        | inr q ↦ rw (e, q) (xs, c)
        | inl q ↦
            let z = (==_iff (s.vnodes ino).link_count 0).0 q in
            let (a, b, w) = In-splits ino xs (member z) in
            rw (e, q)
              (remove_unlinked_vnode-IsConsistent calls s a b ino
                (subst (IsConsistent fails 0 s) w c) z ((==_iff (s.vnodes ino).open_count 0).0 e)
                begins)
      ]
    ]

-- A vnode that is open and has no link is on the list.
pub open-In :
    {fails : Bool} (s : Vnodes) (xs : List ℕ) (ino : ℕ)
    → IsConsistent fails 0 s xs
    → 0 < (s.vnodes ino).open_count
    → (s.vnodes ino).link_count ≡ 0
    → In ino xs
open-In s xs ino c h z =
    c.open_listed ino (λ q. omega (arith, h, c.never_open, ap (λ j. (s.vnodes j).open_count) q)) z h

close-IsConsistent :
    {fails : Bool} (calls : Calls) (s : Vnodes) (xs : List ℕ) (ino : ℕ)
    → IsConsistent fails 0 s xs
    → (fails ≡ false → calls.begin_transaction ≡ ok tt)
    → 0 < (s.vnodes ino).open_count
    → Returns
        (λ r. (ys : List ℕ) × IsConsistent fails 0 r.0 ys)
        (close_node calls (closed s ino) ino)
close-IsConsistent calls s xs ino c begins h =
    let v : Vnode = record (s.vnodes ino) { open_count = (s.vnodes ino).open_count - 1 } in
    let same : (closed s ino).vnodes ino ≡ v = put-same s.vnodes ino v in
    close_node-IsConsistent calls (closed s ino) xs ino (closed-IsConsistent s xs ino c) begins
      (λ z. open-In s xs ino c h (sym (ap (λ w. w.link_count) same) ∙ z))

-- A step keeps some list.
Step-IsConsistent :
    {fails : Bool} (s t : Vnodes) (xs : List ℕ)
    → IsConsistent fails 0 s xs
    → Step fails s t
    → (ys : List ℕ) × IsConsistent fails 0 t ys
Step-IsConsistent s t xs c (create d ino n free) = (xs, vnode_new-IsConsistent d s xs ino c n free)
Step-IsConsistent s t xs c (get ino h) = (xs, got-IsConsistent s xs ino c)
Step-IsConsistent s t xs c (recycle ino h) = (xs, recycle_node-IsConsistent s xs ino c)
Step-IsConsistent s t xs c (open_vnode ino h) = (xs, opened-IsConsistent s xs ino c h)
Step-IsConsistent {fails} s t xs c (link ino h e) =
    (xs, subst (Returns (λ u. IsConsistent fails 0 u xs)) e (add_link-IsConsistent s xs ino c h))
Step-IsConsistent {fails} s t xs c (unlink calls ino o h e q) =
    subst (λ u. (ys : List ℕ) × IsConsistent fails 0 u ys) q
      (subst (Returns (λ r. (ys : List ℕ) × IsConsistent fails 0 r.0 ys)) e
        (remove_inode_link-IsConsistent calls s xs ino c h))
Step-IsConsistent {fails} s t xs c (close calls ino o begins h e q) =
    subst (λ u. (ys : List ℕ) × IsConsistent fails 0 u ys) q
      (subst (Returns (λ r. (ys : List ℕ) × IsConsistent fails 0 r.0 ys)) e
        (close-IsConsistent calls s xs ino c begins h))

-- From vnodes whose unlinked list is right, whatever is created, found, recycled, opened, linked,
-- unlinked and closed, as long as no lookup of a vnode of the list gives a null pointer, and whichever
-- of BeginTransaction, BlocksShrink, TruncateInternal and FlushCachedWrites fail: the superblock and the
-- inodes hold a list without repetition, every inode on it is allocated and has no link, every vnode
-- that is open and has no link is on it, and the inode of every vnode with a link is allocated, is not 0
-- and has clear list links. If BeginTransaction does not fail in CloseNode, the lookup finds the vnode of
-- every inode on the list.
pub Reach-IsConsistent :
    (fails : Bool) (s t : Vnodes) (xs : List ℕ)
    → IsConsistent fails 0 s xs
    → Reach fails s t
    → (ys : List ℕ) × IsConsistent fails 0 t ys
Reach-IsConsistent fails s t xs c here = (xs, c)
Reach-IsConsistent fails s t xs c (next r k) =
    let (ys, d) = Reach-IsConsistent fails s _ xs c r in Step-IsConsistent _ t ys d k
