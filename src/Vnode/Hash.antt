-- ===== src/Vnode/Hash.antt =====
-- The vnodes that VnodeLookupInternal finds, and the list.
use fuchsia_minfs.Prelude.{
  ℕ, ◌≡◌, refl, ap, ◌∙◌, Bool, true, ◌&&◌, ◌==◌, inl, inr, List, [], ◌∷◌, ◌++◌, All, arith,
  Bool-cases,
}
use fuchsia_minfs.Unlinked.List.{Linked, first}
use fuchsia_minfs.Vnode.State.{Vnodes, put, recycle_node, can_follow}
use fuchsia_minfs.Vnode.Steps.{got}
use fuchsia_minfs.Vnode.Invariant.{IsConsistent, linked-Fresh}
use fuchsia_minfs.Vnode.Frees.{differs_by, release-IsConsistent}

pub got-hashed :
    (s : Vnodes) (xs : List ℕ) (ino : ℕ)
    → All (λ x. s.in_hash x ≡ true) xs
    → All (λ x. put s.in_hash ino true x ≡ true) xs
got-hashed s [] ino a = tt
got-hashed s (x ∷ xs) ino (h, a) =
    (elim (Bool-cases (x == ino)) [ inl e ↦ rw e refl | inr e ↦ rw e h ], got-hashed s xs ino a)

pub got-IsConsistent :
    {fails : Bool} (s : Vnodes) (xs : List ℕ) (ino : ℕ)
    → IsConsistent fails 0 s xs
    → IsConsistent fails 0 (got s ino) xs
got-IsConsistent s xs ino c = record {
  holds = c.holds;
  unlinked = c.unlinked;
  allocated = c.allocated;
  hashed = λ q. got-hashed s xs ino (c.hashed q);
  open_listed = c.open_listed;
  linked_clear = c.linked_clear;
  linked_live = c.linked_live;
  never_open = c.never_open;
}

pub recycle_node-IsConsistent :
    {fails : Bool} (s : Vnodes) (xs : List ℕ) (ino : ℕ)
    → IsConsistent fails 0 s xs
    → IsConsistent fails 0 (recycle_node s ino) xs
unfolding recycle_node
recycle_node-IsConsistent s xs ino c = elim (Bool-cases ((s.vnodes ino).link_count == 0)) [
  | inl e ↦ rw e c
  | inr e ↦
      let n = differs_by (s.vnodes ino).link_count 0 e in
      rw e (release-IsConsistent s xs ino c (λ q. linked-Fresh 0 s xs ino c (omega (arith, n))))
]

can_follow-first :
    (s : Vnodes) (xs : List ℕ) → All (λ x. s.in_hash x ≡ true) xs → can_follow s (first xs) ≡ true
can_follow-first s [] h = refl
can_follow-first s (x ∷ xs) (p, h) = ground (arith, p)

can_follow-found : (s : Vnodes) (x : ℕ) → s.in_hash x ≡ true → can_follow s x ≡ true
can_follow-found s x h = ground (arith, h)

-- From the vnodes of a list that is found, the next and the last are found.
pub can_follow-tail :
    (s : Vnodes) (before : ℕ) (xs : List ℕ)
    → Linked s.unlinked before xs
    → All (λ x. s.in_hash x ≡ true) xs
    → can_follow s before ≡ true
    → can_follow s s.unlinked.unlinked_tail ≡ true
can_follow-tail s before [] l h p = ap (can_follow s) l ∙ p
can_follow-tail s before (x ∷ xs) (n, b, f, l) (q, h) p =
    can_follow-tail s x xs l h (can_follow-found s x q)

pub can_follow-beside :
    (s : Vnodes) (ino before : ℕ) (a b : List ℕ)
    → Linked s.unlinked before (a ++ ino ∷ b)
    → All (λ x. s.in_hash x ≡ true) (a ++ ino ∷ b)
    → can_follow s before ≡ true
    → (can_follow s (s.unlinked.last_inode ino) && can_follow s (s.unlinked.next_inode ino)) ≡ true
can_follow-beside s ino before [] b (n, l, f, k) (q, h) p =
    let x : can_follow s (s.unlinked.last_inode ino) ≡ true = ap (can_follow s) l ∙ p in
    let y : can_follow s (s.unlinked.next_inode ino) ≡ true =
      ap (can_follow s) f ∙ can_follow-first s b h in
    rw (x, y) refl
can_follow-beside s ino before (x ∷ a) b (n, l, f, k) (q, h) p =
    can_follow-beside s ino x a b k h (can_follow-found s x q)
