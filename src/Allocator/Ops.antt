-- ===== src/Allocator/Ops.antt =====
-- src/storage/minfs/allocator/{allocator_common.cc, allocator_reservation.{h,cc}}: the operations of the
-- allocator and of a reservation. A ZX_ASSERT that fails, and an address with no change behind it,
-- abort; a ZX_DEBUG_ASSERT checks nothing.
use fuchsia_minfs.Prelude.{
  ℕ, ◌+◌, ◌-◌, true, false, not, ◌&&◌, ◌==◌, ltb, if◌then◌else◌, Option, none, some, List, [], ◌∷◌,
  ◌++◌, sub64, Result, ok, err, bad_state,
}
use fuchsia_minfs.Allocator.Bitmap.{Bitmaps}
use fuchsia_minfs.Allocator.State.{
  Run, done, aborted, ◌>>=◌, Kind, allocation, deallocation, Change, Allocator, get_available,
  get_reserved_count, find_locked,
}
use fuchsia_minfs.Allocator.Storage.{
  PendingWork, Metadata, Device, Extended, extend, persist_range, pool_allocate, pool_release,
}

module _ ⦃b : Bitmaps⦄ where
  open b use {Raw, Rle, num_bits, get_bit, set_bit, clear_bit, ranges}

  -- AllocatorReservation: the addresses stand for its two unique_ptr.
  pub record Reservation : Type 0 where
    pub reserved : ℕ
    pub allocations : Option ℕ
    pub deallocations : Option ℕ

  abbrev pub State : Type 0
  State = Allocator × Reservation

  -- The change at an address, and an update of it in place.
  unfoldable pub find_change : ℕ → List Change → Option Change
  find_change p [] = none
  find_change p (c ∷ cs) = if c.address == p then some c else find_change p cs

  unfoldable pub update_change : ℕ → (Change → Change) → List Change → List Change
  update_change p f [] = []
  update_change p f (c ∷ cs) = if c.address == p then f c ∷ cs else c ∷ update_change p f cs

  unfoldable pub erase_change : ℕ → List Change → List Change
  erase_change p [] = []
  erase_change p (c ∷ cs) =
      let rest = erase_change p cs in if c.address == p then rest else c ∷ rest

  -- `new PendingChange(allocator, kind)`, which enters itself into the vector.
  unfoldable pub add_pending_change : Kind → Allocator → Allocator
  add_pending_change kind a = record a {
    pending_changes =
        a.pending_changes
        ++ record { address = a.fresh; kind = kind; bits = b.empty; committed = false } ∷ [];
    fresh = a.fresh + 1;
  }

  -- GetPendingAllocations and GetPendingDeallocations, with the address of the change.
  unfoldable pub take_allocations : Option ℕ → State → ℕ × State
  take_allocations (some p) s = (p, s)
  take_allocations none (a, r) =
      (a.fresh, (add_pending_change allocation a, record r { allocations = some a.fresh }))

  abbrev pub get_pending_allocations : State → ℕ × State
  get_pending_allocations s = take_allocations s.1.allocations s

  unfoldable pub take_deallocations : Option ℕ → State → ℕ × State
  take_deallocations (some p) s = (p, s)
  take_deallocations none (a, r) =
      (a.fresh, (add_pending_change deallocation a, record r { deallocations = some a.fresh }))

  abbrev pub get_pending_deallocations : State → ℕ × State
  get_pending_deallocations s = take_deallocations s.1.deallocations s

  abbrev pub deref : ℕ → List Change → Run Change
  deref p cs = elim (find_change p cs) [ none ↦ aborted | some c ↦ done c ]

  abbrev pub with_bits : (Rle → Rle) → Change → Change
  with_bits f c = record c { bits = f c.bits }

  abbrev pub with_committed : Change → Change
  with_committed c = record c { committed = true }

  -- Allocator::Reserve.
  unfoldable pub allocator_reserve :
      Device → PendingWork → Metadata → Allocator → ℕ → Result Extended
  allocator_reserve d work m a count =
      if ltb (get_available a) count
      then elim (extend d work m a) [
        | err e ↦ err e
        | ok (work', m', a') ↦ ok (work', m', record a' { reserved = a'.reserved + count })
      ]
      else ok (work, m, record a { reserved = a.reserved + count })

  -- Allocator::Unreserve.
  unfoldable pub allocator_unreserve : Allocator → ℕ → Allocator
  allocator_unreserve a count = record a { reserved = sub64 a.reserved count }

  -- The body of Allocator::Allocate, with the address of the reservation's allocations.
  unfoldable pub allocate_at : ℕ → State → Run (ℕ × State)
  allocate_at p (a, r) = find_locked a >>= λ i. done (
    i,
    (
      record a {
        pending_changes = update_change p (with_bits (λ s. set_bit s i)) a.pending_changes;
        reserved = sub64 a.reserved 1;
        first_free = i + 1;
      },
      r,
    ),
  )

  -- Allocator::Allocate.
  unfoldable pub allocator_allocate : State → Run (ℕ × State)
  allocator_allocate s = let (p, s') = get_pending_allocations s in allocate_at p s'

  -- Allocator::Free, with both addresses.
  unfoldable pub free_at : ℕ → ℕ → State → ℕ → Run State
  free_at p q (a, r) index = deref p a.pending_changes >>= λ c.
      if get_bit c.bits index
      then done (
        record a {
          pending_changes = update_change p (with_bits (λ s. clear_bit s index)) a.pending_changes;
        },
        r,
      )
      else done (
        record a {
          pending_changes = update_change q (with_bits (λ s. set_bit s index)) a.pending_changes;
        },
        r,
      )

  unfoldable pub allocator_free : State → ℕ → Run State
  allocator_free s index =
      let (p, s') = get_pending_allocations s in
      let (q, s'') = get_pending_deallocations s' in free_at p q s'' index

  -- The loops of Allocator::Commit over the ranges of a change, with what they persist.
  unfoldable pub set_ranges : Raw → List (ℕ × ℕ) → Raw
  set_ranges m [] = m
  set_ranges m ((off, len) ∷ rest) = set_ranges (b.set_range m off (off + len)) rest

  unfoldable pub clear_ranges : Raw → List (ℕ × ℕ) → Raw
  clear_ranges m [] = m
  clear_ranges m ((off, len) ∷ rest) = clear_ranges (b.clear_range m off (off + len)) rest

  unfoldable pub persist_ranges : Metadata → PendingWork → List (ℕ × ℕ) → PendingWork
  persist_ranges meta work [] = work
  persist_ranges meta work ((off, len) ∷ rest) =
      persist_ranges meta (persist_range meta work off len) rest

  -- "Update count of allocated blocks."
  unfoldable pub update_count : Allocator → ℕ → ℕ → Allocator
  update_count a allocated freed =
      if ltb freed allocated
      then pool_allocate a (allocated - freed)
      else if ltb allocated freed
      then pool_release a (freed - allocated)
      else a

  -- The part of Allocator::Commit that changes the map, the counts and the flags.
  unfoldable pub commit_ranges :
      Metadata → PendingWork → ℕ → ℕ → Allocator → Change → Change → PendingWork × Allocator
  commit_ranges meta work p q a c d =
      let a' = update_count a (num_bits c.bits) (num_bits d.bits) in
      (
        persist_ranges meta (persist_ranges meta work (ranges c.bits)) (ranges d.bits),
        record a' {
          map_bits = clear_ranges (set_ranges a.map_bits (ranges c.bits)) (ranges d.bits);
          pending_changes =
              update_change q with_committed (update_change p with_committed a.pending_changes);
        },
      )

  -- The rest of Allocator::Commit, once the two changes are known not to be committed.
  unfoldable pub commit_changes :
      Metadata → PendingWork → ℕ → ℕ → Allocator → Change → Change → PendingWork × Allocator
  commit_changes meta work p q a c d =
      if num_bits c.bits == 0 && num_bits d.bits == 0
      then (work, a)
      else commit_ranges meta work p q a c d

  unfoldable pub commit_at :
      Metadata → PendingWork → ℕ → ℕ → Allocator → Run (PendingWork × Allocator)
  commit_at meta work p q a = deref p a.pending_changes >>= λ c. deref q a.pending_changes >>= λ d.
      if not c.committed && not d.committed
      then done (commit_changes meta work p q a c d)
      else aborted

  -- Allocator::Commit.
  unfoldable pub allocator_commit : Metadata → PendingWork → State → Run (PendingWork × State)
  allocator_commit meta work s =
      let (p, s') = get_pending_allocations s in
      let (q, s'') = get_pending_deallocations s' in
      commit_at meta work p q s''.0 >>= λ wa. done (wa.0, (wa.1, s''.1))

  -- Allocator::RemovePendingChange, at the destruction of a change.
  abbrev pub lower_first_free : List (ℕ × ℕ) → ℕ → ℕ
  lower_first_free [] first = first
  lower_first_free ((off, len) ∷ rest) first = if ltb off first then off else first

  unfoldable pub remove_pending_change : Allocator → Change → Allocator
  remove_pending_change a c = record a {
    first_free =
        if ltb 0 (get_reserved_count c)
        then lower_first_free (ranges c.bits) a.first_free
        else a.first_free;
    pending_changes = erase_change c.address a.pending_changes;
  }

  abbrev pub remove_at : Option ℕ → Allocator → Allocator
  remove_at none a = a
  remove_at (some p) a = elim (find_change p a.pending_changes) [
    | none ↦ a
    | some c ↦ remove_pending_change a c
  ]

  -- AllocatorReservation::Reserve and ExtendReservation.
  unfoldable pub reserve :
      Device → PendingWork → Metadata → State → ℕ → Result (PendingWork × Metadata × State)
  reserve d work m (a, r) count =
      if r.reserved == 0
      then elim (allocator_reserve d work m a count) [
        | err e ↦ err e
        | ok (work', m', a') ↦ ok (work', m', (a', record r { reserved = count }))
      ]
      else err bad_state

  unfoldable pub extend_reservation :
      Device → PendingWork → Metadata → State → ℕ → Result (PendingWork × Metadata × State)
  extend_reservation d work m (a, r) count = elim (allocator_reserve d work m a count) [
    | err e ↦ err e
    | ok (work', m', a') ↦ ok (work', m', (a', record r { reserved = r.reserved + count }))
  ]

  -- AllocatorReservation::Allocate.
  unfoldable pub allocate : State → Run (ℕ × State)
  allocate (a, r) =
      if ltb 0 r.reserved
      then allocator_allocate (a, record r { reserved = r.reserved - 1 })
      else aborted

  -- AllocatorReservation::Deallocate, and Swap.
  unfoldable pub deallocate : State → ℕ → Run State
  deallocate s element = allocator_free s element

  unfoldable pub swap : State → ℕ → Run (ℕ × State)
  swap s old_index = if ltb 0 old_index then allocator_free s old_index >>= allocate else allocate s

  -- AllocatorReservation::Cancel.
  unfoldable pub cancel : State → State
  cancel (a, r) =
      if ltb 0 r.reserved
      then (allocator_unreserve a r.reserved, record r { reserved = 0 })
      else (a, r)

  -- ~AllocatorReservation: the members go in the reverse order of their declaration.
  unfoldable pub destroy : State → Allocator
  unfolding cancel
  destroy (a, r) = remove_at r.allocations (remove_at r.deallocations (cancel (a, r)).0)
