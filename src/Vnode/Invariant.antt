-- ===== src/Vnode/Invariant.antt =====
-- The list of the superblock, and the vnodes that are unlinked and still open.
use fuchsia_minfs.Prelude.{
  ℕ, ◌<◌, ◌≡◌, ◌≢◌, sym, ◌∙◌, subst, Bool, true, false, ◌==◌, inl, inr, List, [], ◌∷◌, All, arith,
  Bool-cases, ==_iff,
}
use fuchsia_minfs.Unlinked.List.{Fresh, Holds}
use fuchsia_minfs.Vnode.State.{Vnode, Vnodes, put, put_vnode}
use fuchsia_minfs.Vnode.Links.{IsClear, In}

-- The list is that of the vnodes that are unlinked and open; an inode may stay on it when a transaction
-- could not be begun for its purge, which takes its vnode from the hash. `skip` is a vnode that is being
-- unlinked, and `fails` says whether that may happen.
pub record IsConsistent (fails : Bool) (skip : ℕ) (s : Vnodes) (xs : List ℕ) : Type 0 where
  pub holds : Holds s.unlinked xs
  pub unlinked : All (λ x. (s.vnodes x).link_count ≡ 0) xs
  pub allocated : All (λ x. s.ino_allocated x ≡ true) xs
  pub hashed : fails ≡ false → All (λ x. s.in_hash x ≡ true) xs
  pub open_listed :
      (i : ℕ) → i ≢ skip → (s.vnodes i).link_count ≡ 0 → 0 < (s.vnodes i).open_count → In i xs
  pub linked_clear : (i : ℕ) → 0 < (s.vnodes i).link_count → IsClear s.unlinked i
  pub linked_live : (i : ℕ) → 0 < (s.vnodes i).link_count → (i ≢ 0) × (s.ino_allocated i ≡ true)
  pub never_open : (s.vnodes 0).open_count ≡ 0

-- What differs from each member of a list.
pub All-Fresh : (P : ℕ → Type 0) (i : ℕ) (xs : List ℕ) → All P xs → (P i → ⊥) → Fresh i xs
All-Fresh P i [] h n = tt
All-Fresh P i (x ∷ xs) (p, h) n = (λ q. n (subst P q p), All-Fresh P i xs h n)

pub linked-Fresh :
    {fails : Bool} (skip : ℕ) (s : Vnodes) (xs : List ℕ) (i : ℕ)
    → IsConsistent fails skip s xs
    → 0 < (s.vnodes i).link_count
    → Fresh i xs
linked-Fresh skip s xs i c h =
    All-Fresh (λ x. (s.vnodes x).link_count ≡ 0) i xs c.unlinked (λ q. omega (arith, q, h))

All-put :
    (f : ℕ → Vnode) (ino : ℕ) (v : Vnode) (xs : List ℕ)
    → ((f ino).link_count ≡ 0 → v.link_count ≡ 0)
    → All (λ x. (f x).link_count ≡ 0) xs
    → All (λ x. (put f ino v x).link_count ≡ 0) xs
All-put f ino v [] h a = tt
All-put f ino v (x ∷ xs) h (p, a) = (
  elim (Bool-cases (x == ino)) [
    | inl e ↦ rw e (h (subst (λ y. (f y).link_count ≡ 0) ((==_iff x ino).0 e) p))
    | inr e ↦ rw e p
  ],
  All-put f ino v xs h a,
)

-- A vnode changes and the lists do not.
module _ {fails : Bool} (skip : ℕ) (s : Vnodes) (xs : List ℕ) (ino : ℕ) (v : Vnode)
    (c : IsConsistent fails skip s xs) where
  pub put-IsConsistent :
      (skip' : ℕ)
      → ((s.vnodes ino).link_count ≡ 0 → v.link_count ≡ 0)
      → (0 < v.link_count → 0 < (s.vnodes ino).link_count)
      → (ino ≢ skip' → v.link_count ≡ 0 → 0 < v.open_count → In ino xs)
      → ((i : ℕ) → i ≢ ino → i ≢ skip' → 0 < (s.vnodes i).open_count → i ≢ skip)
      → (ino ≡ 0 → v.open_count ≡ 0)
      → IsConsistent fails skip' (put_vnode s ino v) xs
  put-IsConsistent skip' keeps grows listed skips zero_closed = record {
    holds = c.holds;
    unlinked = All-put s.vnodes ino v xs keeps c.unlinked;
    allocated = c.allocated;
    hashed = c.hashed;
    open_listed = λ i n l o. elim (Bool-cases (i == ino)) [
      | inl e ↦
          let q : i ≡ ino = (==_iff i ino).0 e in
          subst (λ j. In j xs) (sym q) (listed (λ z. n (q ∙ z)) (rw e at l) (rw e at o))
      | inr e ↦ c.open_listed i (skips i (ground arith) n (rw e at o)) (rw e at l) (rw e at o)
    ];
    linked_clear = λ i l. c.linked_clear i (was_linked i l);
    linked_live = λ i l. c.linked_live i (was_linked i l);
    never_open = elim (Bool-cases (0 == ino)) [
      | inl e ↦ rw e (zero_closed (sym ((==_iff 0 ino).0 e)))
      | inr e ↦ rw e c.never_open
    ];
  }
    where
      was_linked : (i : ℕ) → 0 < (put s.vnodes ino v i).link_count → 0 < (s.vnodes i).link_count
      was_linked i l = ground (arith, grows)
