-- ===== src/Allocator/Allocate.antt =====
-- Allocator::Allocate and AllocatorReservation::Allocate.
use fuchsia_minfs.Prelude.{
  ℕ, ◌+◌, ◌-◌, ◌<◌, ◌≡◌, ◌≢◌, refl, sym, ◌∙◌, ap, false, arith, inl, inr, sub64, ==_iff,
}
use fuchsia_minfs.Allocator.Bitmap.{Bitmaps}
use fuchsia_minfs.Allocator.State.{
  Run, done, aborted, unfinished, allocation, deallocation, get_available, find_locked,
}
use fuchsia_minfs.Allocator.Ops.{
  State, get_pending_allocations, allocate_at, allocator_allocate, allocate,
}
use fuchsia_minfs.Allocator.Locked.{find_locked-IsFound, find_locked-ends, IsFound, Run-cases}
use fuchsia_minfs.Allocator.Changes.{holders, holders-zero}
use fuchsia_minfs.Allocator.Invariant.{IsSound, Owns, Prepared, get_pending_allocations-Prepared}
use fuchsia_minfs.Allocator.Marked.{
  after_allocate, after_allocate-IsSound, after_allocate-available, holders_after, one_less,
  ReadyIf-with_bits,
}

module _ ⦃b : Bitmaps⦄ where
  open b use {size, get_one, set_bit}

  -- The reservation once AllocatorReservation::Allocate has counted the element.
  abbrev pub spend : State → State
  spend (a, r) = (a, record r { reserved = r.reserved - 1 })

  allocate_at-inv :
      (p : ℕ) (s : State) (i : ℕ) (t : State)
      → allocate_at p s ≡ done (i, t)
      → (find_locked s.0 ≡ done i) × (t ≡ (after_allocate i p s.0, s.1))
  unfolding allocate_at
  allocate_at-inv p (a, r) i t e = elim (Run-cases (find_locked a)) [
    | inl (n, x) ↦
        let e' = rw (x, allocate_at) at e in
        let m : n ≡ i = cc in
        let q : t ≡ (after_allocate n p a, r) = cc in (x ∙ ap done m, rw m at q)
    | inr (inl x) ↦ absurd (ground arith)
    | inr (inr x) ↦ absurd (ground arith)
  ]

  allocate-inv :
      (s : State) (r : Run (ℕ × State))
      → allocate s ≡ r
      → r ≢ aborted
      → (0 < s.1.reserved)
        × (allocate_at (get_pending_allocations (spend s)).0 (get_pending_allocations (spend s)).1
            ≡ r)
  unfolding allocate allocator_allocate
  allocate-inv (a, r) x e k = ground arith

  spend-Owns : (s : State) → Owns s → Owns (spend s)
  spend-Owns (a, r) o = record {
    mine = let m = o.mine in omega arith;
    allocs = o.allocs;
    deallocs = o.deallocs;
  }

  allocate_at-ends : (p : ℕ) (s : State) → allocate_at p s ≢ unfinished
  unfolding allocate_at
  allocate_at-ends p (a, r) e = elim (Run-cases (find_locked a)) [
    | inl (n, x) ↦ ground arith
    | inr (inl x) ↦ ground arith
    | inr (inr x) ↦ find_locked-ends a x
  ]

  -- A call of AllocatorReservation::Allocate ends, on any state: it returns or fails a ZX_ASSERT,
  -- within the fuel of its two searches.
  pub allocate-ends : (s : State) → allocate s ≢ unfinished
  allocate-ends s e =
      let (pos, at) = allocate-inv s unfinished e (λ k. cc) in
      allocate_at-ends (get_pending_allocations (spend s)).0 (get_pending_allocations (spend s)).1
        at

  -- The call and what it found, on a sound allocator.
  record Allocated (s : State) (i : ℕ) (t : State) : Type 0 where
    some_reserved : 0 < s.1.reserved
    found :
        IsFound
          (get_pending_allocations (spend s)).1.0
          (get_pending_allocations (spend s)).1.0.first_free
          i
    result : t ≡ (
      after_allocate i
          (get_pending_allocations (spend s)).0
          (get_pending_allocations (spend s)).1.0,
      (get_pending_allocations (spend s)).1.1,
    )
    prepared :
        Prepared allocation
          (spend s)
          (get_pending_allocations (spend s)).1
          (get_pending_allocations (spend s)).0

  allocate-Allocated :
      (s : State) (i : ℕ) (t : State)
      → IsSound s.0
      → Owns s
      → allocate s ≡ done (i, t)
      → Allocated s i t
  allocate-Allocated s i t h o e =
      let (pos, at) = allocate-inv s (done (i, t)) e (λ k. cc) in
      let (f, r) =
        allocate_at-inv (get_pending_allocations (spend s)).0 (get_pending_allocations (spend s)).1
          i t at in
      record {
        some_reserved = pos;
        found = find_locked-IsFound (get_pending_allocations (spend s)).1.0 i f;
        result = r;
        prepared = get_pending_allocations-Prepared (spend s) h (spend-Owns s o);
      }

  module _ (s : State) (i : ℕ) (t : State) (h : IsSound s.0) (o : Owns s)
      (e : allocate s ≡ done (i, t)) where
    abbrev u : State
    u = (get_pending_allocations (spend s)).1

    abbrev p : ℕ
    p = (get_pending_allocations (spend s)).0

    call : Allocated s i t
    call = allocate-Allocated s i t h o e

    prepared : Prepared allocation (spend s) u p
    prepared = Allocated.prepared call

    before : (0 < u.0.reserved) × (u.1.reserved + 1 ≡ s.1.reserved) × (u.1.reserved < u.0.reserved)
    before =
        let x = prepared.same_reserved in
        let y = prepared.same_mine in
        let z = call.some_reserved in let m = o.mine in (omega arith, omega arith, omega arith)

    one_less_here : sub64 u.0.reserved 1 ≡ u.0.reserved - 1
    one_less_here = one_less i p u.0 prepared.sound prepared.ready before.0 call.found

    -- What Allocate returns on a sound allocator is sound again, and the reservation still owns its
    -- elements and its changes.
    pub allocate-IsSound : IsSound t.0 × Owns t
    allocate-IsSound = rw call.result (
      after_allocate-IsSound i p u.0 prepared.sound prepared.ready before.0 call.found,
      record {
        mine = let z = before.2 in omega (arith, one_less_here);
        allocs =
            ReadyIf-with_bits allocation u.1.allocations p (λ s. set_bit s i) u.0.pending_changes
              prepared.owns.allocs;
        deallocs =
            ReadyIf-with_bits deallocation u.1.deallocations p (λ s. set_bit s i)
              u.0.pending_changes prepared.owns.deallocs;
      },
    )

    -- On a sound allocator, an element that Allocate returns lies in the map, was clear there, and was
    -- reserved by no pending change; afterwards one change reserves it. The reservation has one element
    -- less to allocate, and the number of available elements is as before.
    pub allocate-fresh :
        (i < size s.0.map_bits)
        × (get_one s.0.map_bits i ≡ false)
        × (holders i s.0.pending_changes ≡ 0)
        × (holders i t.0.pending_changes ≡ 1)
        × (t.1.reserved + 1 ≡ s.1.reserved)
        × (t.0.reserved + 1 ≡ s.0.reserved)
        × (get_available t.0 ≡ get_available s.0)
    allocate-fresh =
        let f = call.found in
        let w = prepared in
        rw call.result (
          rw (← w.same_map) f.1,
          rw (← w.same_map) f.2,
          sym (w.same_holders i) ∙ holders-zero i u.0.pending_changes f.3,
          holders_after i p u.0 w.sound w.ready before.0 f i ∙ rw ((==_iff i i).1 refl),
          before.1,
          (let z = before.0 in let y = w.same_reserved in omega (arith, one_less_here)),
          after_allocate-available i p u.0 w.sound w.ready before.0 f ∙ w.same_available,
        )
