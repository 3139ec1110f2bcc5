-- ===== src/Allocator/Marked.antt =====
-- What Allocator::Allocate does to the pending allocations of a reservation: one more bit in them.
use fuchsia_minfs.Prelude.{
  ℕ, ◌+◌, ◌-◌, ◌<◌, ◌≡◌, refl, ◌∙◌, false, ◌==◌, if◌then◌else◌, Option, none, some, List, arith,
  inl, inr, sub64, Bool-cases, ==_iff,
}
use fuchsia_minfs.Allocator.Bitmap.{Bitmaps}
use fuchsia_minfs.Allocator.State.{
  Kind, allocation, Change, Allocator, get_reserved_count, sum_reserved, get_available,
}
use fuchsia_minfs.Allocator.Ops.{find_change, update_change, with_bits}
use fuchsia_minfs.Allocator.Unreserved.{is_reserved}
use fuchsia_minfs.Allocator.Locked.{IsFound}
use fuchsia_minfs.Allocator.Changes.{
  holders, freers, is_freeing, sum_by-update, find_change-update, find_change-update_self,
  Addressed-update, holders-zero, sum_by-le,
}
use fuchsia_minfs.Allocator.Invariant.{IsSound, Ready, ReadyIf, available-exact}

module _ ⦃b : Bitmaps⦄ where
  open b use {size, get_one, get_bit, num_bits, set_bit}

  -- A change of the bits keeps the pending changes of every reservation in place.
  pub ReadyIf-with_bits :
      (kind : Kind) (o : Option ℕ) (p : ℕ) (g : b.Rle → b.Rle) (cs : List Change)
      → ReadyIf kind o cs
      → ReadyIf kind o (update_change p (with_bits g) cs)
  ReadyIf-with_bits kind none p g cs h = tt
  ReadyIf-with_bits kind (some q) p g cs (c, f, k, n) = elim (Bool-cases (q == p)) [
    | inl e ↦
        let e' : q ≡ p = (==_iff q p).0 e in
        (
          with_bits g c,
          rw e' (find_change-update_self p (with_bits g) cs c (λ c. refl) (rw e' at f)),
          k,
          n,
        )
    | inr e ↦ (c, find_change-update q p (with_bits g) cs (ground arith) (λ c. refl) ∙ f, k, n)
  ]

  module _ (i p : ℕ) (cs : List Change) (c : Change) (f : find_change p cs ≡ some c)
      (kind : c.kind ≡ allocation) (fresh : c.committed ≡ false) (free : holders i cs ≡ 0) where
    abbrev marked : List Change
    marked = update_change p (with_bits (λ s. set_bit s i)) cs

    bit_clear : get_bit c.bits i ≡ false
    bit_clear =
        let z = sum_by-le (λ c. if is_reserved c i then 1 else 0) p cs c f in
        ground (arith, z, kind, fresh, free)

    holders-marked : (k : ℕ) → holders k marked ≡ (if k == i then 1 else holders k cs)
    holders-marked k =
        let u =
          sum_by-update (λ c. if is_reserved c k then 1 else 0) p (with_bits (λ s. set_bit s i)) cs
            c f in
        let l = b.get_bit-set_bit c.bits i k in
        elim (Bool-cases (k == i)) [
          | inl e ↦
              let e' : k ≡ i = (==_iff k i).0 e in
              let free' : holders k cs ≡ 0 = rw e' free in
              let bit : get_bit c.bits k ≡ false = rw e' bit_clear in
              ground (arith, u, l, kind, fresh, free', bit)
          | inr e ↦ ground (arith, u, l, kind, fresh)
        ]

    freers-marked : (k : ℕ) → freers k marked ≡ freers k cs
    freers-marked k =
        let u =
          sum_by-update (λ c. if is_freeing c k then 1 else 0) p (with_bits (λ s. set_bit s i)) cs c
            f in
        ground (arith, u, kind, fresh)

    sum_reserved-marked : sum_reserved marked ≡ sum_reserved cs + 1
    unfolding get_reserved_count
    sum_reserved-marked =
        let u = sum_by-update get_reserved_count p (with_bits (λ s. set_bit s i)) cs c f in
        let l = b.num_bits-set_bit c.bits i in ground (arith, u, l, kind, fresh, bit_clear)

  -- The state after the body of Allocator::Allocate.
  abbrev pub after_allocate : ℕ → ℕ → Allocator → Allocator
  after_allocate i p a = record a {
    pending_changes = update_change p (with_bits (λ s. set_bit s i)) a.pending_changes;
    reserved = sub64 a.reserved 1;
    first_free = i + 1;
  }

  module _ (i p : ℕ) (a : Allocator) (h : IsSound a) (ready : Ready allocation p a.pending_changes)
      (some_reserved : 0 < a.reserved) (found : IsFound a a.first_free i) where
    free : holders i a.pending_changes ≡ 0
    free = holders-zero i a.pending_changes found.3

    pub one_less : sub64 a.reserved 1 ≡ a.reserved - 1
    one_less = let x = h.fits in let y = h.total_lt in omega arith

    sum_after :
        sum_reserved (after_allocate i p a).pending_changes ≡ sum_reserved a.pending_changes + 1
    sum_after = sum_reserved-marked i p a.pending_changes ready.0 ready.1 ready.2 ready.3 free

    pub holders_after :
        (k : ℕ)
        → holders k (after_allocate i p a).pending_changes
          ≡ (if k == i then 1 else holders k a.pending_changes)
    holders_after k = holders-marked i p a.pending_changes ready.0 ready.1 ready.2 ready.3 free k

    freers_after :
        (k : ℕ) → freers k (after_allocate i p a).pending_changes ≡ freers k a.pending_changes
    freers_after k = freers-marked i p a.pending_changes ready.0 ready.1 ready.2 ready.3 free k

    held_after :
        (k : ℕ)
        → 0 < holders k (after_allocate i p a).pending_changes
        → (k < size a.map_bits) × (get_one a.map_bits k ≡ false)
    held_after k pos = elim (Bool-cases (k == i)) [
      | inl e ↦ rw ((==_iff k i).0 e) (found.1, found.2)
      | inr e ↦ let x = holders_after k in h.held k (ground (arith, x))
    ]

    pub after_allocate-IsSound : IsSound (after_allocate i p a)
    after_allocate-IsSound = record {
      used_le = h.used_le;
      total_lt = h.total_lt;
      fits = let x = h.fits in omega (arith, sum_after, one_less);
      addressed =
          Addressed-update a.fresh p (with_bits (λ s. set_bit s i)) a.pending_changes (λ c. refl)
            h.addressed;
      one_holder = λ k. let x = holders_after k in let y = h.one_holder k in ground (arith, x, y);
      one_freer = λ k. rw (freers_after k) (h.one_freer k);
      held = held_after;
      freed = λ k pos. h.freed k (rw (freers_after k) at pos);
    }

    pub after_allocate-available : get_available (after_allocate i p a) ≡ get_available a
    after_allocate-available =
        let x = available-exact (after_allocate i p a) after_allocate-IsSound in
        let y = available-exact a h in omega (arith, x, y, sum_after, one_less)
