-- ===== src/Unlinked/Remove.antt =====
-- RemoveUnlinked erases from the list.
use fuchsia_minfs.Prelude.{
  ℕ, ◌≡◌, ◌≢◌, sym, ap, ◌∙◌, List, [], ◌∷◌, ◌++◌, All, All-append, All-append_fst, All-append_snd,
  arith,
}
use fuchsia_minfs.Unlinked.List.{
  Unlinked, unlink_before, unlink_after, remove_unlinked, first, Linked, Fresh, Distinct, Holds,
}

module _ (u : Unlinked) (ino : ℕ) (apart : ino ≢ u.last_inode ino) where
  pub next-other :
      (i : ℕ) → i ≢ u.last_inode ino → (remove_unlinked u ino).next_inode i ≡ u.next_inode i
  unfolding remove_unlinked unlink_before unlink_after
  next-other i h = ground arith

  next-own :
      u.last_inode ino ≢ 0
      → (remove_unlinked u ino).next_inode (u.last_inode ino) ≡ u.next_inode ino
  unfolding remove_unlinked unlink_before unlink_after
  next-own h = ground arith

  pub last-other :
      (i : ℕ) → i ≢ u.next_inode ino → (remove_unlinked u ino).last_inode i ≡ u.last_inode i
  unfolding remove_unlinked unlink_before unlink_after
  last-other i h = ground arith

  last-own :
      u.next_inode ino ≢ 0
      → (remove_unlinked u ino).last_inode (u.next_inode ino) ≡ u.last_inode ino
  unfolding remove_unlinked unlink_before unlink_after
  last-own h = ground arith

  tail-own : u.next_inode ino ≡ 0 → (remove_unlinked u ino).unlinked_tail ≡ u.last_inode ino
  unfolding remove_unlinked unlink_before unlink_after
  tail-own h = ground arith

  tail-other : u.next_inode ino ≢ 0 → (remove_unlinked u ino).unlinked_tail ≡ u.unlinked_tail
  unfolding remove_unlinked unlink_before unlink_after
  tail-other h = ground arith

  head-own : u.last_inode ino ≡ 0 → (remove_unlinked u ino).unlinked_head ≡ u.next_inode ino
  unfolding remove_unlinked unlink_before unlink_after
  head-own h = ground arith

  head-other : u.last_inode ino ≢ 0 → (remove_unlinked u ino).unlinked_head ≡ u.unlinked_head
  unfolding remove_unlinked unlink_before unlink_after
  head-other h = ground arith

  alike :
      (xs : List ℕ)
      → Fresh (u.last_inode ino) xs
      → Fresh (u.next_inode ino) xs
      → All
          (λ y.
            ((remove_unlinked u ino).last_inode y ≡ u.last_inode y)
            × ((remove_unlinked u ino).next_inode y ≡ u.next_inode y))
          xs
  alike [] f g = tt
  alike (x ∷ xs) (fx, f) (gx, g) = ((last-other x gx, next-other x fx), alike xs f g)

unfoldable pub last_of : ℕ → List ℕ → ℕ
last_of before [] = before
last_of before (x ∷ xs) = last_of x xs

-- The list at an inode.
module _ (u : Unlinked) (ino : ℕ) (b : List ℕ) where
  pub links :
      (before : ℕ) (a : List ℕ)
      → Linked u before (a ++ ino ∷ b)
      → (ino ≢ 0)
        × (u.last_inode ino ≡ last_of before a)
        × (u.next_inode ino ≡ first b)
        × Linked u ino b
  unfolding last_of
  links before [] h = h
  links before (x ∷ a) (n, l, e, rest) = links x a rest

pub last_of-other : (x before : ℕ) (a : List ℕ) → before ≢ x → Fresh x a → last_of before a ≢ x
unfolding last_of
last_of-other x before [] h f = h
last_of-other x before (y ∷ ys) h (f, g) = last_of-other x y ys f g

pub first-other : (x : ℕ) (b : List ℕ) → x ≢ 0 → Fresh x b → first b ≢ x
first-other x [] h f = λ q. h (sym q)
first-other x (y ∷ ys) h (f, g) = f

-- Lists that are linked alike.
pub frame :
    (u v : Unlinked) (x : ℕ) (xs : List ℕ)
    → v.unlinked_tail ≡ u.unlinked_tail
    → All (λ y. (v.last_inode y ≡ u.last_inode y) × (v.next_inode y ≡ u.next_inode y)) xs
    → Linked u x xs
    → Linked v x xs
frame u v x [] t h k = t ∙ k
frame u v x (y ∷ ys) t ((hl, hn), h) (n, l, e, rest) = (n, hl ∙ l, hn ∙ e, frame u v y ys t h rest)

-- What is left of the list behind the inode.
after-Linked :
    (u : Unlinked) (ino before : ℕ) (b : List ℕ)
    → ino ≢ before
    → Fresh before b
    → Distinct b
    → u.last_inode ino ≡ before
    → u.next_inode ino ≡ first b
    → Linked u ino b
    → Linked (remove_unlinked u ino) before b
after-Linked u ino before [] h f d l e k = tail-own u ino (rw l h) e ∙ l
after-Linked u ino before (y ∷ ys) h (fy, f) (dy, d) l e (n, ly, ey, rest) =
    let apart : ino ≢ u.last_inode ino = rw l h in
    let some_next : u.next_inode ino ≢ 0 = rw e n in
    (
      n,
      ap (remove_unlinked u ino).last_inode (sym e) ∙ last-own u ino apart some_next ∙ l,
      next-other u ino apart y (rw l fy) ∙ ey,
      frame u (remove_unlinked u ino) y ys (tail-other u ino apart some_next)
          (alike u ino apart ys (rw l f) (rw e dy)) rest,
    )

-- What stands before it.
next-Linked :
    (u : Unlinked) (ino x : ℕ) (a b : List ℕ)
    → ino ≢ u.last_inode ino
    → x ≢ 0
    → Fresh x a
    → u.last_inode ino ≡ last_of x a
    → u.next_inode ino ≡ first b
    → u.next_inode x ≡ first (a ++ ino ∷ b)
    → (remove_unlinked u ino).next_inode x ≡ first (a ++ b)
unfolding last_of
next-Linked u ino x [] b apart n f l e k =
    ap (remove_unlinked u ino).next_inode (sym l) ∙ next-own u ino apart (rw l n) ∙ e
next-Linked u ino x (z ∷ a) b apart n (fz, f) l e k =
    next-other u ino apart x (λ q. last_of-other x z a fz f (sym (q ∙ l))) ∙ k

remove-Linked :
    (u : Unlinked) (ino before : ℕ) (a b : List ℕ)
    → Fresh before (a ++ ino ∷ b)
    → Fresh ino a
    → Distinct (a ++ ino ∷ b)
    → Linked u before (a ++ ino ∷ b)
    → Linked (remove_unlinked u ino) before (a ++ b)
remove-Linked u ino before [] b (f0, f) g (d0, d) (n, l, e, k) =
    after-Linked u ino before b f0 f d l e k
remove-Linked u ino before (x ∷ a) b f (gx, g) (dx, d) (n, l, e, k) =
    let (nz, pl, nl, kb) = links u ino b x a k in
    let behind = All-append_snd (λ y. y ≢ x) a (ino ∷ b) dx in
    let ahead = All-append_fst (λ y. y ≢ x) a (ino ∷ b) dx in
    let apart : ino ≢ u.last_inode ino = λ q. last_of-other ino x a gx g (sym (q ∙ pl)) in
    (
      n,
      last-other u ino apart x (λ q. first-other x b n behind.1 (sym (q ∙ nl))) ∙ l,
      next-Linked u ino x a b apart n ahead pl nl e,
      remove-Linked u ino x a b dx g d k,
    )

pub Linked-nonzero : (u : Unlinked) (before : ℕ) (xs : List ℕ) → Linked u before xs → Fresh 0 xs
Linked-nonzero u before [] h = tt
Linked-nonzero u before (x ∷ xs) (n, l, e, k) = (n, Linked-nonzero u x xs k)

pub Distinct-before : (ino : ℕ) (a b : List ℕ) → Distinct (a ++ ino ∷ b) → Fresh ino a
Distinct-before ino [] b d = tt
Distinct-before ino (x ∷ a) b (dx, d) =
    (λ q. (All-append_snd (λ y. y ≢ x) a (ino ∷ b) dx).0 (sym q), Distinct-before ino a b d)

Distinct-erase : (ino : ℕ) (a b : List ℕ) → Distinct (a ++ ino ∷ b) → Distinct (a ++ b)
Distinct-erase ino [] b (d0, d) = d
Distinct-erase ino (x ∷ a) b (dx, d) = (
  All-append (λ y. y ≢ x) a b (All-append_fst (λ y. y ≢ x) a (ino ∷ b) dx)
      (All-append_snd (λ y. y ≢ x) a (ino ∷ b) dx).1,
  Distinct-erase ino a b d,
)

removed-head :
    (u : Unlinked) (ino : ℕ) (a b : List ℕ)
    → Fresh 0 (a ++ ino ∷ b)
    → Fresh ino a
    → Linked u 0 (a ++ ino ∷ b)
    → u.unlinked_head ≡ first (a ++ ino ∷ b)
    → (remove_unlinked u ino).unlinked_head ≡ first (a ++ b)
removed-head u ino [] b f g (n, l, e, k) h = head-own u ino (rw l n) l ∙ e
removed-head u ino (x ∷ a) b (fx, f) (gx, g) (n, l, e, k) h =
    let (nz, pl, nl, kb) = links u ino b x a k in
    let apart : ino ≢ u.last_inode ino = λ q. last_of-other ino x a gx g (sym (q ∙ pl)) in
    let some_last : u.last_inode ino ≢ 0 =
      λ q. last_of-other 0 x a n (All-append_fst (λ y. y ≢ 0) a (ino ∷ b) f) (sym pl ∙ q) in
    head-other u ino apart some_last ∙ h

-- RemoveUnlinked of an inode of the list of unlinked inodes erases it from the list, wherever it
-- stands there; the other inodes keep their order.
pub remove_unlinked-Holds :
    (u : Unlinked) (ino : ℕ) (a b : List ℕ)
    → Holds u (a ++ ino ∷ b)
    → Holds (remove_unlinked u ino) (a ++ b)
remove_unlinked-Holds u ino a b h =
    let f = Linked-nonzero u 0 (a ++ ino ∷ b) h.linked in
    let g = Distinct-before ino a b h.distinct in
    record {
      head = removed-head u ino a b f g h.linked h.head;
      linked = remove-Linked u ino 0 a b f g h.distinct h.linked;
      distinct = Distinct-erase ino a b h.distinct;
    }
