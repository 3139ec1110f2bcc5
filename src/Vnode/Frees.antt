-- ===== src/Vnode/Frees.antt =====
-- The purge of a vnode that is not on the list of the unlinked vnodes.
use fuchsia_minfs.Prelude.{
  ℕ, ◌<◌, ◌≡◌, ◌≢◌, refl, ◌∙◌, subst, Bool, true, false, ◌==◌, inl, inr, List, [], ◌∷◌, All, arith,
  Bool-cases, ==_iff,
}
use fuchsia_minfs.Unlinked.List.{Fresh}
use fuchsia_minfs.Unlinked.Purge.{result_cases}
use fuchsia_minfs.Vnode.State.{Vnodes, Calls, put, vnode_release, ino_free, purge}
use fuchsia_minfs.Vnode.Invariant.{IsConsistent, put-IsConsistent}

-- What holds of each other inode still does.
pub All-other :
    (P Q : ℕ → Type 0) (ino : ℕ) (xs : List ℕ)
    → ((i : ℕ) → i ≢ ino → P i → Q i)
    → Fresh ino xs
    → All P xs
    → All Q xs
All-other P Q ino [] h f a = tt
All-other P Q ino (x ∷ xs) h (n, f) (p, a) = (h x n p, All-other P Q ino xs h f a)

pub put-other {ℓ} : {A : Type ℓ} → (f : ℕ → A) (ino i : ℕ) (v : A) → i ≢ ino → put f ino v i ≡ f i
put-other f ino i v n = elim (Bool-cases (i == ino)) [
  | inl e ↦ absurd (n ((==_iff i ino).0 e))
  | inr e ↦ rw e refl
]

pub put-same {ℓ} : {A : Type ℓ} → (f : ℕ → A) (ino : ℕ) (v : A) → put f ino v ino ≡ v
put-same f ino v = rw ((==_iff ino ino).1 refl) refl

pub differs_by : (i j : ℕ) → (i == j) ≡ false → i ≢ j
differs_by i j e q = ground (arith, e, q)

pub drop_skip :
    {fails : Bool} (s : Vnodes) (xs : List ℕ) (ino : ℕ)
    → IsConsistent fails ino s xs
    → (s.vnodes ino).open_count ≡ 0
    → IsConsistent fails 0 s xs
drop_skip s xs ino c z = record {
  holds = c.holds;
  unlinked = c.unlinked;
  allocated = c.allocated;
  hashed = c.hashed;
  open_listed = λ i n l o.
      c.open_listed i (λ q. omega (arith, z, subst (λ j. 0 < (s.vnodes j).open_count) q o)) l o;
  linked_clear = c.linked_clear;
  linked_live = c.linked_live;
  never_open = c.never_open;
}

-- The inode of a vnode with no link, that is not on the list, is freed.
freed-IsConsistent :
    {fails : Bool} (s : Vnodes) (xs : List ℕ) (ino : ℕ)
    → IsConsistent fails 0 s xs
    → (s.vnodes ino).link_count ≡ 0
    → Fresh ino xs
    → IsConsistent fails 0
        (record (vnode_release s ino) { ino_allocated = put s.ino_allocated ino false })
        xs
freed-IsConsistent s xs ino c z f = record {
  holds = c.holds;
  unlinked = c.unlinked;
  allocated =
      All-other (λ x. s.ino_allocated x ≡ true) (λ x. put s.ino_allocated ino false x ≡ true) ino xs
        (λ i n h. put-other s.ino_allocated ino i false n ∙ h) f c.allocated;
  hashed = λ q.
      All-other (λ x. s.in_hash x ≡ true) (λ x. put s.in_hash ino false x ≡ true) ino xs
        (λ i n h. put-other s.in_hash ino i false n ∙ h) f (c.hashed q);
  open_listed = c.open_listed;
  linked_clear = c.linked_clear;
  linked_live = λ i l. (
    (c.linked_live i l).0,
    put-other s.ino_allocated ino i false
          (λ q. omega (arith, z, subst (λ j. 0 < (s.vnodes j).link_count) q l))
        ∙ (c.linked_live i l).1,
  );
  never_open = c.never_open;
}

pub purge-IsConsistent :
    {fails : Bool} (calls : Calls) (s : Vnodes) (xs : List ℕ) (ino : ℕ)
    → IsConsistent fails 0 s xs
    → (s.vnodes ino).link_count ≡ 0
    → (s.vnodes ino).open_count ≡ 0
    → Fresh ino xs
    → IsConsistent fails 0 (purge calls s ino).0 xs
unfolding purge ino_free
purge-IsConsistent calls s xs ino c z o f = elim (result_cases calls.blocks_shrink) [
  | inl (e, q) ↦ rw q (freed-IsConsistent s xs ino c z f)
  | inr q ↦ rw q (
      put-IsConsistent 0
        (record (vnode_release s ino) { ino_allocated = put s.ino_allocated ino false }) xs ino
        (record (s.vnodes ino) { is_purged = true }) (freed-IsConsistent s xs ino c z f) 0 (λ h. h)
        (λ h. h) (λ n l p. absurd (omega (arith, o, p))) (λ i n m p. m) (λ q. o))
]

pub release-IsConsistent :
    {fails : Bool} (s : Vnodes) (xs : List ℕ) (ino : ℕ)
    → IsConsistent fails 0 s xs
    → (fails ≡ false → Fresh ino xs)
    → IsConsistent fails 0 (vnode_release s ino) xs
release-IsConsistent s xs ino c f = record {
  holds = c.holds;
  unlinked = c.unlinked;
  allocated = c.allocated;
  hashed = λ q.
      All-other (λ x. s.in_hash x ≡ true) (λ x. put s.in_hash ino false x ≡ true) ino xs
        (λ i n h. put-other s.in_hash ino i false n ∙ h) (f q) (c.hashed q);
  open_listed = c.open_listed;
  linked_clear = c.linked_clear;
  linked_live = c.linked_live;
  never_open = c.never_open;
}
