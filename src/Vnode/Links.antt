-- ===== src/Vnode/Links.antt =====
-- The links of the inodes beside the list, under AddUnlinked and RemoveUnlinked.
use fuchsia_minfs.Prelude.{
  ℕ, ◌≡◌, ◌≢◌, refl, sym, ap, ◌∙◌, ◌⊎◌, inl, inr, List, [], ◌∷◌, ◌++◌, All-append_fst,
  All-append_snd, arith,
}
use fuchsia_minfs.Unlinked.List.{Unlinked, add_last, add_unlinked, remove_unlinked, Fresh, Holds}
use fuchsia_minfs.Unlinked.Add.{tail-Fresh, add_unlinked-last, tail_nonzero}
use fuchsia_minfs.Unlinked.Remove.{
  links, last_of-other, first-other, next-other, last-other, Distinct-before,
}

-- The inodes whose links are clear.
pub record IsClear (u : Unlinked) (i : ℕ) : Type 0 where
  pub last : u.last_inode i ≡ 0
  pub next : u.next_inode i ≡ 0

add_last-IsClear :
    (u : Unlinked) (ino i : ℕ)
    → i ≢ ino
    → u.unlinked_tail ≢ i
    → IsClear u i
    → IsClear (add_last u ino) i
unfolding add_last
add_last-IsClear u ino i n t c = ground arith

add_empty-IsClear :
    (u : Unlinked) (ino i : ℕ) → u.unlinked_tail ≡ 0 → IsClear u i → IsClear (add_unlinked u ino) i
unfolding add_unlinked
add_empty-IsClear u ino i t c = ground arith

pub add_unlinked-IsClear :
    (u : Unlinked) (ino i : ℕ) (xs : List ℕ)
    → Holds u xs
    → i ≢ ino
    → Fresh i xs
    → IsClear u i
    → IsClear (add_unlinked u ino) i
add_unlinked-IsClear u ino i [] h n f c = add_empty-IsClear u ino i h.linked c
add_unlinked-IsClear u ino i (x ∷ xs) h n f c =
    rw (add_unlinked-last u ino (tail_nonzero u 0 x xs h.linked))
      (add_last-IsClear u ino i n (tail-Fresh u 0 x i xs h.linked f) c)

pub remove_unlinked-IsClear :
    (u : Unlinked) (ino i : ℕ) (a b : List ℕ)
    → Holds u (a ++ ino ∷ b)
    → i ≢ 0
    → Fresh i (a ++ ino ∷ b)
    → IsClear u i
    → IsClear (remove_unlinked u ino) i
remove_unlinked-IsClear u ino i a b h n f c =
    let (nz, pl, nl, kb) = links u ino b 0 a h.linked in
    let fa = All-append_fst (λ y. y ≢ i) a (ino ∷ b) f in
    let fb = All-append_snd (λ y. y ≢ i) a (ino ∷ b) f in
    let apart : ino ≢ u.last_inode ino = λ q.
      last_of-other ino 0 a (λ z. nz (sym z)) (Distinct-before ino a b h.distinct) (sym (q ∙ pl)) in
    record {
      last = last-other u ino apart i (λ q. first-other i b n fb.1 (sym (q ∙ nl))) ∙ c.last;
      next =
          next-other u ino apart i (λ q. last_of-other i 0 a (λ z. n (sym z)) fa (sym (q ∙ pl)))
          ∙ c.next;
    }

abbrev pub In : ℕ → List ℕ → Type 0
In i [] = ⊥
In i (x ∷ xs) = (x ≡ i) ⊎ In i xs

-- A member of a list stands somewhere in it.
pub In-splits : (i : ℕ) (xs : List ℕ) → In i xs → (a : List ℕ) × (b : List ℕ) × (xs ≡ a ++ i ∷ b)
In-splits i [] h = absurd h
In-splits i (x ∷ xs) (inl q) = ([], xs, ap (λ y. y ∷ xs) q)
In-splits i (x ∷ xs) (inr h) = let (a, b, q) = In-splits i xs h in (x ∷ a, b, ap (λ ys. x ∷ ys) q)

pub In-last : (i : ℕ) (xs : List ℕ) → In i (xs ++ i ∷ [])
In-last i [] = inl refl
In-last i (x ∷ xs) = inr (In-last i xs)

pub In-append : (i : ℕ) (xs ys : List ℕ) → In i xs → In i (xs ++ ys)
In-append i [] ys h = absurd h
In-append i (x ∷ xs) ys (inl q) = inl q
In-append i (x ∷ xs) ys (inr h) = inr (In-append i xs ys h)

pub In-erase : (i ino : ℕ) (a b : List ℕ) → i ≢ ino → In i (a ++ ino ∷ b) → In i (a ++ b)
In-erase i ino [] b n (inl q) = absurd (n (sym q))
In-erase i ino [] b n (inr h) = h
In-erase i ino (x ∷ a) b n (inl q) = inl q
In-erase i ino (x ∷ a) b n (inr h) = inr (In-erase i ino a b n h)
