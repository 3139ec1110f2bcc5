-- ===== src/Allocator/Free.antt =====
-- The two ways in which Allocator::Free changes the pending changes.
use fuchsia_minfs.Prelude.{
  ℕ, ◌+◌, ◌<◌, ◌≡◌, refl, true, false, ◌==◌, if◌then◌else◌, some, List, arith, inl, inr, Bool-cases,
  ==_iff,
}
use fuchsia_minfs.Allocator.Bitmap.{Bitmaps}
use fuchsia_minfs.Allocator.State.{
  allocation, deallocation, Change, Allocator, get_reserved_count, sum_reserved, get_available,
}
use fuchsia_minfs.Allocator.Ops.{find_change, update_change, with_bits}
use fuchsia_minfs.Allocator.Unreserved.{is_reserved}
use fuchsia_minfs.Allocator.Changes.{
  holders, freers, is_freeing, sum_by-update, Addressed-update, sum_by-le,
}
use fuchsia_minfs.Allocator.Invariant.{IsSound, available-exact}

module _ ⦃b : Bitmaps⦄ where
  open b use {size, get_one, get_bit, num_bits, set_bit, clear_bit}

  abbrev pub with_changes : List Change → Allocator → Allocator
  with_changes cs a = record a { pending_changes = cs }

  -- The element goes back from the pending allocations.
  module _ (i p : ℕ) (a : Allocator) (h : IsSound a) (c : Change)
      (f : find_change p a.pending_changes ≡ some c) (kind : c.kind ≡ allocation)
      (fresh : c.committed ≡ false) (bit : get_bit c.bits i ≡ true) where
    abbrev pub returned : Allocator
    returned = with_changes (update_change p (with_bits (λ s. clear_bit s i)) a.pending_changes) a

    pub holders-returned :
        (k : ℕ)
        → holders k returned.pending_changes ≡ (if k == i then 0 else holders k a.pending_changes)
    holders-returned k =
        let u =
          sum_by-update (λ c. if is_reserved c k then 1 else 0) p (with_bits (λ s. clear_bit s i))
            a.pending_changes c f in
        let l = b.get_bit-clear_bit c.bits i k in
        let one = h.one_holder k in
        elim (Bool-cases (k == i)) [
          | inl e ↦
              let e' : k ≡ i = (==_iff k i).0 e in
              let bit' : get_bit c.bits k ≡ true = rw e' bit in
              ground (arith, u, l, kind, fresh, one, bit')
          | inr e ↦ ground (arith, u, l, kind, fresh)
        ]

    freers-returned : (k : ℕ) → freers k returned.pending_changes ≡ freers k a.pending_changes
    freers-returned k =
        let u =
          sum_by-update (λ c. if is_freeing c k then 1 else 0) p (with_bits (λ s. clear_bit s i))
            a.pending_changes c f in
        ground (arith, u, kind, fresh)

    sum-returned : sum_reserved returned.pending_changes + 1 ≡ sum_reserved a.pending_changes
    unfolding get_reserved_count
    sum-returned =
        let u =
          sum_by-update get_reserved_count p (with_bits (λ s. clear_bit s i)) a.pending_changes c
            f in
        let l = b.num_bits-clear_bit c.bits i in ground (arith, u, l, kind, fresh, bit)

    pub returned-IsSound : IsSound returned
    returned-IsSound = record {
      used_le = h.used_le;
      total_lt = h.total_lt;
      fits = let x = h.fits in omega (arith, sum-returned);
      addressed =
          Addressed-update a.fresh p (with_bits (λ s. clear_bit s i)) a.pending_changes (λ c. refl)
            h.addressed;
      one_holder =
          λ k. let x = holders-returned k in let y = h.one_holder k in ground (arith, x, y);
      one_freer = λ k. rw (freers-returned k) (h.one_freer k);
      held = λ k pos. let x = holders-returned k in h.held k (ground (arith, x));
      freed = λ k pos. h.freed k (rw (freers-returned k) at pos);
    }

    pub returned-available : get_available returned ≡ get_available a + 1
    returned-available =
        let x = available-exact returned returned-IsSound in
        let y = available-exact a h in omega (arith, x, y, sum-returned)

  -- The element of the map joins the pending deallocations.
  module _ (i q : ℕ) (a : Allocator) (h : IsSound a) (c : Change)
      (f : find_change q a.pending_changes ≡ some c) (kind : c.kind ≡ deallocation)
      (fresh : c.committed ≡ false) (within : i < size a.map_bits)
      (taken : get_one a.map_bits i ≡ true) (once : freers i a.pending_changes ≡ 0) where
    abbrev pub queued : Allocator
    queued = with_changes (update_change q (with_bits (λ s. set_bit s i)) a.pending_changes) a

    holders-queued : (k : ℕ) → holders k queued.pending_changes ≡ holders k a.pending_changes
    holders-queued k =
        let u =
          sum_by-update (λ c. if is_reserved c k then 1 else 0) q (with_bits (λ s. set_bit s i))
            a.pending_changes c f in
        ground (arith, u, kind, fresh)

    pub freers-queued :
        (k : ℕ)
        → freers k queued.pending_changes ≡ (if k == i then 1 else freers k a.pending_changes)
    freers-queued k =
        let u =
          sum_by-update (λ c. if is_freeing c k then 1 else 0) q (with_bits (λ s. set_bit s i))
            a.pending_changes c f in
        let l = b.get_bit-set_bit c.bits i k in
        let z = sum_by-le (λ c. if is_freeing c k then 1 else 0) q a.pending_changes c f in
        elim (Bool-cases (k == i)) [
          | inl e ↦
              let once' : freers k a.pending_changes ≡ 0 = rw ((==_iff k i).0 e) once in
              ground (arith, u, l, z, kind, fresh, once')
          | inr e ↦ ground (arith, u, l, kind, fresh)
        ]

    sum-queued : sum_reserved queued.pending_changes ≡ sum_reserved a.pending_changes
    unfolding get_reserved_count
    sum-queued =
        let u =
          sum_by-update get_reserved_count q (with_bits (λ s. set_bit s i)) a.pending_changes c f in
        ground (arith, u, kind, fresh)

    pub queued-IsSound : IsSound queued
    queued-IsSound = record {
      used_le = h.used_le;
      total_lt = h.total_lt;
      fits = rw sum-queued h.fits;
      addressed =
          Addressed-update a.fresh q (with_bits (λ s. set_bit s i)) a.pending_changes (λ c. refl)
            h.addressed;
      one_holder = λ k. rw (holders-queued k) (h.one_holder k);
      one_freer = λ k. let x = freers-queued k in let y = h.one_freer k in ground (arith, x, y);
      held = λ k pos. h.held k (rw (holders-queued k) at pos);
      freed = λ k pos. elim (Bool-cases (k == i)) [
        | inl e ↦ rw ((==_iff k i).0 e) (within, taken)
        | inr e ↦ let x = freers-queued k in h.freed k (ground (arith, x))
      ];
    }

    pub queued-available : get_available queued ≡ get_available a
    queued-available =
        let x = available-exact queued queued-IsSound in
        let y = available-exact a h in omega (arith, x, y, sum-queued)
