-- ===== src/Vnode/Unlinks.antt =====
-- The list of the unlinked vnodes when a vnode is new, linked, opened or unlinked.
use fuchsia_minfs.Prelude.{
  ℕ, ◌+◌, ◌-◌, ◌^◌, ◌<◌, ◌≡◌, ◌≢◌, refl, sym, ◌∙◌, ap, subst, Option, Bool, true, false, ◌==◌, inl,
  inr, List, [], ◌∷◌, ◌++◌, All, All-append, none, some, arith, Bool-cases, ==_iff,
}
use fuchsia_minfs.Unlinked.List.{add_unlinked, Fresh}
use fuchsia_minfs.Unlinked.Add.{add_unlinked-Holds}
use fuchsia_minfs.Unlinked.Remove.{frame}
use fuchsia_minfs.Vnode.State.{
  Vnode, Vnodes, Calls, put, put_vnode, add_link, drop_link, empty_directory, can_follow,
  unlinked_vnode, remove_inode_link, new_vnode, vnode_new,
}
use fuchsia_minfs.Vnode.Steps.{opened, closed}
use fuchsia_minfs.Vnode.Links.{IsClear, In, In-last, In-append, add_unlinked-IsClear}
use fuchsia_minfs.Vnode.Invariant.{IsConsistent, All-Fresh, linked-Fresh, put-IsConsistent}
use fuchsia_minfs.Vnode.Hash.{got-hashed}
use fuchsia_minfs.Vnode.Frees.{
  All-other, put-other, put-same, differs_by, drop_skip, purge-IsConsistent,
}

new_linked : (is_directory : Bool) → 0 < (new_vnode is_directory).link_count
new_linked true = omega arith
new_linked false = omega arith

pub vnode_new-IsConsistent :
    {fails : Bool} (is_directory : Bool) (s : Vnodes) (xs : List ℕ) (ino : ℕ)
    → IsConsistent fails 0 s xs
    → ino ≢ 0
    → s.ino_allocated ino ≡ false
    → IsConsistent fails 0 (vnode_new is_directory s ino) xs
unfolding vnode_new
vnode_new-IsConsistent is_directory s xs ino c n free =
    let f : Fresh ino xs =
      All-Fresh (λ x. s.ino_allocated x ≡ true) ino xs c.allocated (λ q. ground (arith, q, free)) in
    record {
      holds = record {
        head = c.holds.head;
        linked =
            frame s.unlinked (vnode_new is_directory s ino).unlinked 0 xs refl
              (All-other (λ y. y ≡ y)
                (λ y.
                  (put s.unlinked.last_inode ino 0 y ≡ s.unlinked.last_inode y)
                  × (put s.unlinked.next_inode ino 0 y ≡ s.unlinked.next_inode y))
                ino xs
                (λ i m h. (
                  put-other s.unlinked.last_inode ino i 0 m,
                  put-other s.unlinked.next_inode ino i 0 m,
                ))
                f (All-refl xs))
              c.holds.linked;
        distinct = c.holds.distinct;
      };
      unlinked =
          All-other (λ x. (s.vnodes x).link_count ≡ 0)
            (λ x. (put s.vnodes ino (new_vnode is_directory) x).link_count ≡ 0) ino xs
            (λ i m h.
              ap (λ v. v.link_count) (put-other s.vnodes ino i (new_vnode is_directory) m) ∙ h)
            f c.unlinked;
      allocated =
          All-other (λ x. s.ino_allocated x ≡ true) (λ x. put s.ino_allocated ino true x ≡ true) ino
            xs (λ i m h. put-other s.ino_allocated ino i true m ∙ h) f c.allocated;
      hashed = λ q. got-hashed s xs ino (c.hashed q);
      open_listed = λ i m l o. elim (Bool-cases (i == ino)) [
        | inl e ↦ absurd (
            omega (
              arith,
              new_linked is_directory,
              subst (λ v. v.link_count ≡ 0)
                  (ap (put s.vnodes ino (new_vnode is_directory)) ((==_iff i ino).0 e)
                    ∙ put-same s.vnodes ino (new_vnode is_directory))
                  l,
            ))
        | inr e ↦ c.open_listed i m (rw e at l) (rw e at o)
      ];
      linked_clear = λ i l. elim (Bool-cases (i == ino)) [
        | inl e ↦ record { last = rw e refl; next = rw e refl }
        | inr e ↦ record {
          last = rw e (c.linked_clear i (rw e at l)).last;
          next = rw e (c.linked_clear i (rw e at l)).next;
        }
      ];
      linked_live = λ i l. elim (Bool-cases (i == ino)) [
        | inl e ↦ (λ q. n (sym ((==_iff i ino).0 e) ∙ q), rw e refl)
        | inr e ↦ ((c.linked_live i (rw e at l)).0, rw e (c.linked_live i (rw e at l)).1)
      ];
      never_open =
          ap (λ v. v.open_count)
            (put-other s.vnodes ino 0 (new_vnode is_directory) (λ q. n (sym q)))
          ∙ c.never_open;
    }
  where
    All-refl : (ys : List ℕ) → All (λ y. y ≡ y) ys
    All-refl [] = tt
    All-refl (y ∷ ys) = (refl, All-refl ys)

-- Of what is returned, if anything is.
abbrev pub Returns {ℓ} : {A : Type ℓ} → (A → Type 0) → Option A → Type 0
Returns P none = Unit {0}
Returns P (some x) = P x

pub add_link-IsConsistent :
    {fails : Bool} (s : Vnodes) (xs : List ℕ) (ino : ℕ)
    → IsConsistent fails 0 s xs
    → 0 < (s.vnodes ino).link_count
    → Returns (λ t. IsConsistent fails 0 t xs) (add_link s ino)
unfolding add_link
add_link-IsConsistent s xs ino c h = elim (Bool-cases ((s.vnodes ino).link_count + 1 == 2 ^ 32)) [
  | inl q ↦ rw q tt
  | inr q ↦ rw q (
      put-IsConsistent 0 s xs ino
        (record (s.vnodes ino) { link_count = (s.vnodes ino).link_count + 1 }) c 0
        (λ z. absurd (omega (arith, z, h))) (λ z. h) (λ n l p. absurd (omega (arith, l)))
        (λ i n m p. m) (λ z. ap (λ j. (s.vnodes j).open_count) z ∙ c.never_open))
]

pub opened-IsConsistent :
    {fails : Bool} (s : Vnodes) (xs : List ℕ) (ino : ℕ)
    → IsConsistent fails 0 s xs
    → 0 < (s.vnodes ino).link_count
    → IsConsistent fails 0 (opened s ino) xs
opened-IsConsistent s xs ino c h =
    put-IsConsistent 0 s xs ino
      (record (s.vnodes ino) { open_count = (s.vnodes ino).open_count + 1 }) c 0 (λ z. z) (λ z. h)
      (λ n l p. absurd (omega (arith, l, h))) (λ i n m p. m)
      (λ z. absurd ((c.linked_live ino h).0 z))

pub closed-IsConsistent :
    {fails : Bool} (s : Vnodes) (xs : List ℕ) (ino : ℕ)
    → IsConsistent fails 0 s xs
    → IsConsistent fails 0 (closed s ino) xs
closed-IsConsistent s xs ino c =
    put-IsConsistent 0 s xs ino
      (record (s.vnodes ino) { open_count = (s.vnodes ino).open_count - 1 }) c 0 (λ z. z) (λ z. z)
      (λ n l p. c.open_listed ino n l (omega (arith, p))) (λ i n m p. m)
      (λ z. omega (arith, ap (λ j. (s.vnodes j).open_count) z, c.never_open))

-- A vnode that lost its last link: it goes on the list if it is open, and is purged if it is not.
module _ {fails : Bool} (calls : Calls) (s : Vnodes) (xs : List ℕ) (ino : ℕ)
    (c : IsConsistent fails ino s xs) (found : s.in_hash ino ≡ true) (nz : ino ≢ 0)
    (f : Fresh ino xs) (clear : IsClear s.unlinked ino) (live : s.ino_allocated ino ≡ true)
    (z : (s.vnodes ino).link_count ≡ 0) where
  listed-IsConsistent :
      0 < (s.vnodes ino).open_count
      → IsConsistent fails 0 (record s { unlinked = add_unlinked s.unlinked ino }) (xs ++ ino ∷ [])
  listed-IsConsistent o = record {
    holds = add_unlinked-Holds s.unlinked ino xs c.holds nz f clear.last clear.next;
    unlinked = All-append (λ x. (s.vnodes x).link_count ≡ 0) xs (ino ∷ []) c.unlinked (z, tt);
    allocated = All-append (λ x. s.ino_allocated x ≡ true) xs (ino ∷ []) c.allocated (live, tt);
    hashed = λ q. All-append (λ x. s.in_hash x ≡ true) xs (ino ∷ []) (c.hashed q) (found, tt);
    open_listed = λ i n l p. elim (Bool-cases (i == ino)) [
      | inl e ↦ subst (λ j. In j (xs ++ ino ∷ [])) (sym ((==_iff i ino).0 e)) (In-last ino xs)
      | inr e ↦ In-append i xs (ino ∷ []) (c.open_listed i (differs_by i ino e) l p)
    ];
    linked_clear = λ i l.
        add_unlinked-IsClear s.unlinked ino i xs c.holds
          (λ q. omega (arith, z, subst (λ j. 0 < (s.vnodes j).link_count) q l))
          (linked-Fresh ino s xs i c l) (c.linked_clear i l);
    linked_live = c.linked_live;
    never_open = c.never_open;
  }

  empty_directory-IsConsistent :
      (t : Vnodes) (ys : List ℕ) (i : ℕ)
      → IsConsistent fails 0 t ys
      → IsConsistent fails 0 (empty_directory calls t i).0 ys
  unfolding empty_directory
  empty_directory-IsConsistent t ys i k = elim (Bool-cases (t.vnodes i).is_directory) [
    | inl e ↦ rw e (
        put-IsConsistent 0 t ys i
          record {
            is_directory = true;
            link_count = (t.vnodes i).link_count;
            dirent_count = 0;
            open_count = (t.vnodes i).open_count;
            is_purged = (t.vnodes i).is_purged;
          }
          k 0 (λ h. h) (λ h. h) (k.open_listed i) (λ j n m p. m)
          (λ q. ap (λ j. (t.vnodes j).open_count) q ∙ k.never_open))
    | inr e ↦ rw e k
  ]

  unlinked_vnode-IsConsistent :
      Returns (λ r. (ys : List ℕ) × IsConsistent fails 0 r.0 ys) (unlinked_vnode calls s ino)
  unfolding unlinked_vnode
  unlinked_vnode-IsConsistent = elim (Bool-cases ((s.vnodes ino).open_count == 0)) [
    | inl e ↦
        let o : (s.vnodes ino).open_count ≡ 0 = (==_iff (s.vnodes ino).open_count 0).0 e in
        rw e (xs, purge-IsConsistent calls s xs ino (drop_skip s xs ino c o) z o f)
    | inr e ↦ elim (Bool-cases (can_follow s s.unlinked.unlinked_tail)) [
      | inr g ↦ rw (e, g) tt
      | inl g ↦
          rw (e, g)
            (
              xs ++ ino ∷ [],
              empty_directory-IsConsistent (record s { unlinked = add_unlinked s.unlinked ino })
                  (xs ++ ino ∷ []) ino
                  (listed-IsConsistent (omega (arith, differs_by (s.vnodes ino).open_count 0 e))),
            )
    ]
  ]

-- The last link of a vnode goes.
last_link :
    {fails : Bool} (calls : Calls) (s : Vnodes) (xs : List ℕ) (ino : ℕ)
    → IsConsistent fails 0 s xs
    → s.in_hash ino ≡ true
    → 0 < (s.vnodes ino).link_count
    → (v : Vnode) → v.link_count ≡ 0
    → Returns
        (λ r. (ys : List ℕ) × IsConsistent fails 0 r.0 ys)
        (unlinked_vnode calls (put_vnode s ino v) ino)
last_link calls s xs ino c found h v z =
    let (nz, live) = c.linked_live ino h in
    unlinked_vnode-IsConsistent calls (put_vnode s ino v) xs ino
      (put-IsConsistent 0 s xs ino v c ino (λ w. z) (λ l. h) (λ m w. absurd (m refl))
        (λ i m k o q. omega (arith, c.never_open, subst (λ j. 0 < (s.vnodes j).open_count) q o))
        (λ q. absurd (nz q)))
      found nz (linked-Fresh 0 s xs ino c h) (c.linked_clear ino h) live
      (ap (λ w. w.link_count) (put-same s.vnodes ino v) ∙ z)

pub remove_inode_link-IsConsistent :
    {fails : Bool} (calls : Calls) (s : Vnodes) (xs : List ℕ) (ino : ℕ)
    → IsConsistent fails 0 s xs
    → s.in_hash ino ≡ true
    → Returns (λ o. (ys : List ℕ) × IsConsistent fails 0 o.0 ys) (remove_inode_link calls s ino)
unfolding remove_inode_link
remove_inode_link-IsConsistent calls s xs ino c found =
    elim (Bool-cases ((s.vnodes ino).link_count == 0)) [
      | inl e ↦ rw e tt
      | inr e ↦
          let n = differs_by (s.vnodes ino).link_count 0 e in
          let v : Vnode = record (s.vnodes ino) { link_count = drop_link (s.vnodes ino) } in
          let grows : 0 < (s.vnodes ino).link_count = omega (arith, n) in
          elim (Bool-cases (drop_link (s.vnodes ino) == 0)) [
            | inl q ↦
                rw (e, q) (last_link calls s xs ino c found grows v ((==_iff v.link_count 0).0 q))
            | inr q ↦
                rw (e, q)
                  (
                    xs,
                    put-IsConsistent 0 s xs ino v c 0 (λ z. absurd (n z)) (λ z. grows)
                        (λ m z. absurd (differs_by v.link_count 0 q z)) (λ i m k p. k)
                        (λ z. absurd ((c.linked_live ino grows).0 z)),
                  )
          ]
    ]
