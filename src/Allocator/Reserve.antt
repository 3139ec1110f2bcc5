-- ===== src/Allocator/Reserve.antt =====
-- AllocatorReservation::Reserve and Cancel.
use fuchsia_minfs.Prelude.{ℕ, ◌+◌, ◌≤◌, ◌≡◌, refl, ltb, arith, inl, inr, sub64, Bool-cases, ok}
use fuchsia_minfs.Allocator.Bitmap.{Bitmaps}
use fuchsia_minfs.Allocator.State.{Allocator, get_available}
use fuchsia_minfs.Allocator.Storage.{PendingWork, Metadata, Device}
use fuchsia_minfs.Allocator.Ops.{
  State, allocator_reserve, allocator_unreserve, reserve, cancel, extend_reservation,
}
use fuchsia_minfs.Allocator.Invariant.{IsSound, Owns, available-exact}

module _ ⦃b : Bitmaps⦄ where
  -- A reservation of elements that are available.
  abbrev pub reserved_state : State → ℕ → State
  reserved_state (a, r) count =
      (record a { reserved = a.reserved + count }, record r { reserved = count })

  -- Reserve, on a sound allocator and a reservation that holds no elements, of no more elements than
  -- are available, succeeds with no write and no change of the metadata. The allocator is sound, and
  -- exactly the reserved elements are no longer available.
  pub reserve-grants :
      (d : Device) (work : PendingWork) (m : Metadata) (s : State) (count : ℕ)
      → IsSound s.0
      → Owns s
      → s.1.reserved ≡ 0
      → count ≤ get_available s.0
      → (reserve d work m s count ≡ ok (work, m, reserved_state s count))
        × IsSound (reserved_state s count).0
        × Owns (reserved_state s count)
        × (get_available (reserved_state s count).0 + count ≡ get_available s.0)
  unfolding reserve allocator_reserve
  reserve-grants d work m (a, r) count h o z fits =
      let exact = available-exact a h in
      let sound : IsSound (record a { reserved = a.reserved + count }) = record {
        used_le = h.used_le;
        total_lt = h.total_lt;
        fits = let x = h.used_le in omega arith;
        addressed = h.addressed;
        one_holder = h.one_holder;
        one_freer = h.one_freer;
        held = h.held;
        freed = h.freed;
      } in
      (
        ground arith,
        sound,
        record { mine = omega arith; allocs = o.allocs; deallocs = o.deallocs },
        (let x = available-exact (record a { reserved = a.reserved + count }) sound in omega arith),
      )

  allocator_reserve-grants :
      (d : Device) (work : PendingWork) (m : Metadata) (a : Allocator) (count : ℕ)
      → count ≤ get_available a
      → allocator_reserve d work m a count
        ≡ ok (work, m, record a { reserved = a.reserved + count })
  unfolding allocator_reserve
  allocator_reserve-grants d work m a count fits = ground (arith, fits)

  extend_reservation-grants :
      (d : Device) (work : PendingWork) (m : Metadata) (s : State) (count more : ℕ)
      → more ≤ get_available (reserved_state s count).0
      → extend_reservation d work m (reserved_state s count) more
        ≡ ok (work, m, reserved_state s (count + more))
  unfolding extend_reservation
  extend_reservation-grants d work m (a, r) count more fits =
      let a' : Allocator = record a { reserved = a.reserved + count } in
      let e : a.reserved + count + more ≡ a.reserved + (count + more) = omega arith in
      rw (extend_reservation, allocator_reserve-grants d work m a' more fits, e) refl

  cancel-reserved_state :
      (s : State) (count : ℕ)
      → IsSound s.0
      → s.1.reserved ≡ 0
      → count ≤ get_available s.0
      → cancel (reserved_state s count) ≡ s
  unfolding cancel allocator_unreserve
  cancel-reserved_state (a, r) count h z fits =
      let exact = available-exact a h in
      let t = h.total_lt in
      let back : sub64 (a.reserved + count) count ≡ a.reserved = omega arith in
      elim (Bool-cases (ltb 0 count)) [ inl e ↦ ground arith | inr e ↦ ground arith ]

  -- Reserve and then ExtendReservation, on a sound allocator and a reservation that holds no elements,
  -- of no more elements together than are available, succeed with no write and no change of the
  -- metadata; exactly those elements are no longer available, and Cancel then gives back the allocator
  -- and the reservation as they were before.
  pub cancel-reserve :
      (d : Device) (work : PendingWork) (m : Metadata) (s : State) (count more : ℕ)
      → IsSound s.0
      → Owns s
      → s.1.reserved ≡ 0
      → count + more ≤ get_available s.0
      → (x : State) × (y : State) × (reserve d work m s count ≡ ok (work, m, x))
        × (extend_reservation d work m x more ≡ ok (work, m, y))
        × (get_available y.0 + (count + more) ≡ get_available s.0)
        × (cancel y ≡ s)
  cancel-reserve d work m s count more h o z fits =
      let first = reserve-grants d work m s count h o z (omega (arith, fits)) in
      let whole = reserve-grants d work m s (count + more) h o z fits in
      (
        reserved_state s count,
        reserved_state s (count + more),
        first.0,
        extend_reservation-grants d work m s count more (omega (arith, first.3, fits)),
        whole.3,
        cancel-reserved_state s (count + more) h z fits,
      )
