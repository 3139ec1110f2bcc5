-- ===== src/Allocator/Changes.antt =====
-- The vector of pending changes: sums over it, and what an update at an address does to them.
use fuchsia_minfs.Prelude.{
  ℕ, ◌+◌, ◌≤◌, ◌<◌, ◌≡◌, ◌≢◌, refl, Bool, not, ◌&&◌, if◌then◌else◌, some, List, [], ◌∷◌, ◌++◌,
  arith, All,
}
use fuchsia_minfs.Allocator.Bitmap.{Bitmaps}
use fuchsia_minfs.Allocator.State.{Change, is_allocation, sum_by}
use fuchsia_minfs.Allocator.Ops.{find_change, update_change}
use fuchsia_minfs.Allocator.Unreserved.{is_reserved, IsUnreserved}

module _ ⦃b : Bitmaps⦄ where
  -- A change that still waits to clear its bits in the map.
  abbrev pub is_freeing : Change → ℕ → Bool
  is_freeing c i = not c.committed && not (is_allocation c.kind) && b.get_bit c.bits i

  -- How many changes reserve the element, and how many wait to free it.
  abbrev pub holders : ℕ → List Change → ℕ
  holders i cs = sum_by (λ c. if is_reserved c i then 1 else 0) cs

  abbrev pub freers : ℕ → List Change → ℕ
  freers i cs = sum_by (λ c. if is_freeing c i then 1 else 0) cs

  pub sum_by-update :
      (g : Change → ℕ) (p : ℕ) (f : Change → Change) (cs : List Change) (c : Change)
      → find_change p cs ≡ some c
      → sum_by g (update_change p f cs) + g c ≡ sum_by g cs + g (f c)
  unfolding find_change update_change
  sum_by-update g p f [] c e = cc
  sum_by-update g p f (x ∷ cs) c e = let ih = sum_by-update g p f cs c in ground (arith, ih)

  pub sum_by-snoc :
      (g : Change → ℕ) (cs : List Change) (c : Change) → sum_by g (cs ++ c ∷ []) ≡ sum_by g cs + g c
  sum_by-snoc g [] c = omega arith
  sum_by-snoc g (x ∷ cs) c = omega (arith, sum_by-snoc g cs c)

  pub sum_by-le :
      (g : Change → ℕ) (p : ℕ) (cs : List Change) (c : Change)
      → find_change p cs ≡ some c
      → g c ≤ sum_by g cs
  unfolding find_change
  sum_by-le g p [] c e = cc
  sum_by-le g p (x ∷ cs) c e = let ih = sum_by-le g p cs c in ground (arith, ih)

  pub find_change-address :
      (p : ℕ) (cs : List Change) (c : Change) → find_change p cs ≡ some c → c.address ≡ p
  unfolding find_change
  find_change-address p [] c e = cc
  find_change-address p (x ∷ cs) c e = let ih = find_change-address p cs c in ground (arith, ih)

  pub find_change-update :
      (p q : ℕ) (f : Change → Change) (cs : List Change)
      → p ≢ q
      → ((c : Change) → (f c).address ≡ c.address)
      → find_change p (update_change q f cs) ≡ find_change p cs
  unfolding find_change update_change
  find_change-update p q f [] n k = refl
  find_change-update p q f (x ∷ cs) n k =
      let ih = find_change-update p q f cs n k in let a = k x in ground (arith, ih, a)

  pub find_change-update_self :
      (p : ℕ) (f : Change → Change) (cs : List Change) (c : Change)
      → ((c : Change) → (f c).address ≡ c.address)
      → find_change p cs ≡ some c
      → find_change p (update_change p f cs) ≡ some (f c)
  unfolding find_change update_change
  find_change-update_self p f [] c k e = cc
  find_change-update_self p f (x ∷ cs) c k e =
      let ih = find_change-update_self p f cs c k in let a = k x in ground (arith, ih, a)

  pub find_change-snoc :
      (p : ℕ) (cs : List Change) (c d : Change)
      → find_change p cs ≡ some c
      → find_change p (cs ++ d ∷ []) ≡ some c
  unfolding find_change
  find_change-snoc p [] c d e = cc
  find_change-snoc p (x ∷ cs) c d e = let ih = find_change-snoc p cs c d in ground (arith, ih)

  -- Every address in use is below `fresh`, the next one.
  abbrev pub Addressed : ℕ → List Change → Type 0
  Addressed fresh cs = All (λ c. c.address < fresh) cs

  pub find_change-new :
      (fresh : ℕ) (cs : List Change) (d : Change)
      → Addressed fresh cs
      → d.address ≡ fresh
      → find_change fresh (cs ++ d ∷ []) ≡ some d
  unfolding find_change
  find_change-new fresh [] d h e = ground arith
  find_change-new fresh (x ∷ cs) d h e =
      let ih = find_change-new fresh cs d h.1 e in ground (arith, ih)

  pub Addressed-new :
      (fresh : ℕ) (cs : List Change) (d : Change)
      → Addressed fresh cs
      → d.address ≡ fresh
      → Addressed (fresh + 1) (cs ++ d ∷ [])
  Addressed-new fresh [] d h e = (omega arith, tt)
  Addressed-new fresh (x ∷ cs) d h e = (omega arith, Addressed-new fresh cs d h.1 e)

  pub Addressed-update :
      (fresh p : ℕ) (f : Change → Change) (cs : List Change)
      → ((c : Change) → (f c).address ≡ c.address)
      → Addressed fresh cs
      → Addressed fresh (update_change p f cs)
  unfolding update_change
  Addressed-update fresh p f [] k h = tt
  Addressed-update fresh p f (x ∷ cs) k h =
      let ih = Addressed-update fresh p f cs k h.1 in let a = k x in ground (arith, ih, a)

  -- No change reserves the element exactly when its count of holders is 0.
  pub holders-zero : (i : ℕ) (cs : List Change) → All (IsUnreserved i) cs → holders i cs ≡ 0
  holders-zero i [] h = refl
  holders-zero i (x ∷ cs) h = let ih = holders-zero i cs h.1 in let a = h.0 in ground (arith, ih, a)
