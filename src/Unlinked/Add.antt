-- ===== src/Unlinked/Add.antt =====
-- AddUnlinked appends to the list.
use fuchsia_minfs.Prelude.{
  ℕ, ◌≡◌, ◌≢◌, refl, sym, ◌∙◌, true, false, ◌==◌, List, [], ◌∷◌, ◌++◌, All-append, Bool-cases,
  ==_iff, inl, inr,
}
use fuchsia_minfs.Unlinked.List.{Unlinked, add_last, add_unlinked, Linked, Fresh, Distinct, Holds}

pub differs : (a b : ℕ) → a ≢ b → (a == b) ≡ false
differs a b h = elim (Bool-cases (a == b)) [ inl e ↦ absurd (h ((==_iff a b).0 e)) | inr e ↦ e ]

same : (a : ℕ) → (a == a) ≡ true
same a = (==_iff a a).1 refl

pub tail-Fresh :
    (u : Unlinked) (before x z : ℕ) (xs : List ℕ)
    → Linked u before (x ∷ xs)
    → Fresh z (x ∷ xs)
    → u.unlinked_tail ≢ z
tail-Fresh u before x z [] (n, l, e, t) (f, g) q = f (sym t ∙ q)
tail-Fresh u before x z (y ∷ ys) (n, l, e, rest) (f, g) q = tail-Fresh u x y z ys rest g q

add_last-Linked :
    (u : Unlinked) (before x ino : ℕ) (xs : List ℕ)
    → Linked u before (x ∷ xs)
    → Distinct (x ∷ xs)
    → Fresh ino (x ∷ xs)
    → ino ≢ 0
    → u.next_inode ino ≡ 0
    → Linked (add_last u ino) before ((x ∷ xs) ++ ino ∷ [])
unfolding add_last
add_last-Linked u before x ino [] (n, l, e, t) d (f, g) nz z = (
  n,
  rw (differs x ino f) l,
  rw (t, same x),
  (nz, rw (same ino) t, rw (t, differs ino x (λ q. f (sym q))) z, refl),
)
add_last-Linked u before x ino (y ∷ ys) (n, l, e, rest) (dx, d) (f, g) nz z =
    let apart : (x == u.unlinked_tail) ≡ false =
      differs x u.unlinked_tail (λ q. tail-Fresh u x y x ys rest dx (sym q)) in
    (n, rw (differs x ino f) l, rw apart e, add_last-Linked u x y ino ys rest d g nz z)

add_last-head : (u : Unlinked) (ino : ℕ) → (add_last u ino).unlinked_head ≡ u.unlinked_head
unfolding add_last
add_last-head u ino = refl

Distinct-snoc : (x : ℕ) (xs : List ℕ) → Fresh x xs → Distinct xs → Distinct (xs ++ x ∷ [])
Distinct-snoc x [] f d = (tt, tt)
Distinct-snoc x (y ∷ ys) (f, g) (h, d) =
    (All-append (λ z. z ≢ y) ys (x ∷ []) h ((λ q. f (sym q)), tt), Distinct-snoc x ys g d)

pub tail_nonzero :
    (u : Unlinked) (before x : ℕ) (xs : List ℕ) → Linked u before (x ∷ xs) → u.unlinked_tail ≢ 0
tail_nonzero u before x [] (n, l, e, t) q = n (sym t ∙ q)
tail_nonzero u before x (y ∷ ys) (n, l, e, rest) q = tail_nonzero u x y ys rest q

pub add_unlinked-last :
    (u : Unlinked) (ino : ℕ) → u.unlinked_tail ≢ 0 → add_unlinked u ino ≡ add_last u ino
unfolding add_unlinked
add_unlinked-last u ino h = rw (differs u.unlinked_tail 0 h) refl

last-Holds :
    (u : Unlinked) (ino x : ℕ) (xs : List ℕ)
    → Holds u (x ∷ xs)
    → ino ≢ 0
    → Fresh ino (x ∷ xs)
    → u.next_inode ino ≡ 0
    → Holds (add_last u ino) ((x ∷ xs) ++ ino ∷ [])
last-Holds u ino x xs h nz f n = record {
  head = add_last-head u ino ∙ h.head;
  linked = add_last-Linked u 0 x ino xs h.linked h.distinct f nz n;
  distinct = Distinct-snoc ino (x ∷ xs) f h.distinct;
}

-- AddUnlinked appends an inode that is not in the list to the list of unlinked inodes, if the links
-- of the inode are clear.
pub add_unlinked-Holds :
    (u : Unlinked) (ino : ℕ) (xs : List ℕ)
    → Holds u xs
    → ino ≢ 0
    → Fresh ino xs
    → u.last_inode ino ≡ 0
    → u.next_inode ino ≡ 0
    → Holds (add_unlinked u ino) (xs ++ ino ∷ [])
unfolding add_unlinked
add_unlinked-Holds u ino [] h nz f l n =
    let e : (u.unlinked_tail == 0) ≡ true = (==_iff u.unlinked_tail 0).1 h.linked in
    record { head = rw e refl; linked = rw e (nz, l, n, refl); distinct = (tt, tt) }
add_unlinked-Holds u ino (x ∷ xs) h nz f l n =
    rw (add_unlinked-last u ino (tail_nonzero u 0 x xs h.linked)) (last-Holds u ino x xs h nz f n)
