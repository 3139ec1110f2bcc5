-- ===== src/Tests/Allocator.antt =====
-- The allocator on four elements.
use fuchsia_minfs.Prelude.{
  ℕ, zero, suc, ◌+◌, ◌≤◌, ◌<◌, ◌≡◌, ◌≢◌, refl, true, false, not, ◌&&◌, if◌then◌else◌, ◌==◌, none,
  some, [], ◌∷◌, arith, inr, ok, err, no_space, ltb, ◌-◌, round_up,
}
use fuchsia_minfs.Allocator.State.{
  done, unfinished, allocation, Change, Allocator, get_available, get_reserved_count, find_locked,
  find_loop, find_next_unreserved, find_next_loop, get_next_unreserved,
}
use fuchsia_minfs.Allocator.Storage.{
  PendingWork, Metadata, Device, extended_size, units_per_slices, bitmap_blocks_for_size,
}
use fuchsia_minfs.Allocator.Extends.{reserve-extends}
use fuchsia_minfs.Format.{minfs_block_bits, minfs_block_size}
use fuchsia_minfs.Allocator.Ops.{
  State, find_change, allocate, allocator_allocate, allocate_at, take_allocations, update_change,
  deallocate, allocator_commit, reserve, cancel, extend_reservation,
}
use fuchsia_minfs.Allocator.Changes.{holders, freers}
use fuchsia_minfs.Allocator.Invariant.{IsSound, Owns}
use fuchsia_minfs.Allocator.Allocate.{allocate-ends, allocate-IsSound, allocate-fresh}
use fuchsia_minfs.Allocator.Deallocate.{deallocate-frees, MayFree, owns_bit, frees_bit}
use fuchsia_minfs.Allocator.Pending.{allocated_bits, freed_bits}
use fuchsia_minfs.Allocator.Committed.{commit-conserves}
use fuchsia_minfs.Allocator.Reserve.{reserve-grants, cancel-reserve, reserved_state}
use fuchsia_minfs.Tests.Bits.{list_bitmaps, pad, find_from, popcount, put, next}

-- Elements 0 and 2 are in use, and a change of another reservation holds element 1.
abbrev other_change : Change
other_change = record {
  address = 0;
  kind = allocation;
  bits = false ∷ true ∷ [];
  committed = false;
}

-- The reservation here has allocated nothing yet.
abbrev own_change : Change
own_change = record { address = 1; kind = allocation; bits = []; committed = false }

abbrev four : Allocator
four = record {
  reserved = 1;
  first_free = 0;
  pool_used = 2;
  pool_total = 5;
  map_bits = true ∷ false ∷ true ∷ false ∷ false ∷ [];
  pending_changes = other_change ∷ own_change ∷ [];
  fresh = 2;
}

abbrev one_reserved : State
one_reserved = (four, record { reserved = 1; allocations = some 1; deallocations = none })

four_held :
    (i : ℕ)
    → 0 < holders i four.pending_changes
    → (i < 5) × (list_bitmaps.get_one four.map_bits i ≡ false)
four_held zero h = absurd (ground arith)
four_held (suc zero) h = (omega arith, refl)
four_held (suc (suc i)) h = absurd (ground arith)

four_one : (i : ℕ) → holders i four.pending_changes ≤ 1
four_one i = ground arith

four_freers : (i : ℕ) → freers i four.pending_changes ≡ 0
four_freers i = ground arith

four-IsSound : IsSound four
unfolding get_reserved_count popcount
four-IsSound = record {
  used_le = omega arith;
  total_lt = omega arith;
  fits = omega arith;
  addressed = omega arith;
  one_holder = four_one;
  one_freer = λ i. omega (arith, four_freers i);
  held = four_held;
  freed = λ i h. absurd (omega (arith, four_freers i));
}

one_reserved-Owns : Owns one_reserved
unfolding find_change
one_reserved-Owns = record {
  mine = omega arith;
  allocs = (own_change, refl, refl, refl);
  deallocs = tt;
}

allocate-ends_example : allocate one_reserved ≢ unfinished
allocate-ends_example = allocate-ends one_reserved

-- The element found is 3: 0 and 2 are set in the map, and 1 is reserved by the other change.
abbrev three_change : Change
three_change = record {
  address = 1;
  kind = allocation;
  bits = false ∷ false ∷ false ∷ true ∷ [];
  committed = false;
}

abbrev three_allocated : State
three_allocated = (
  record four { reserved = 0; first_free = 4; pending_changes = other_change ∷ three_change ∷ [] },
  record { reserved = 0; allocations = some 1; deallocations = none },
)

allocate_three : allocate one_reserved ≡ done (3, three_allocated)
unfolding allocate allocator_allocate allocate_at take_allocations update_change find_locked
    find_loop find_next_unreserved find_next_loop get_next_unreserved find_from put next
allocate_three = refl

allocate-IsSound_example : IsSound three_allocated.0 × Owns three_allocated
allocate-IsSound_example =
    allocate-IsSound one_reserved 3 three_allocated four-IsSound one_reserved-Owns allocate_three

allocate-fresh_example :
    (3 < 5)
    × (list_bitmaps.get_one four.map_bits 3 ≡ false)
    × (holders 3 four.pending_changes ≡ 0)
    × (holders 3 three_allocated.0.pending_changes ≡ 1)
    × (◌≡◌ {A = ℕ} (0 + 1) 1)
    × (◌≡◌ {A = ℕ} (0 + 1) 1)
    × (get_available three_allocated.0 ≡ get_available four)
allocate-fresh_example =
    allocate-fresh one_reserved 3 three_allocated four-IsSound one_reserved-Owns allocate_three

-- Element 2 is in the map, and no deallocation waits for it.
two_free : MayFree one_reserved 2
unfolding find_change
two_free = inr (omega arith, refl, refl)

deallocate-frees_example :
    (t : State) × (deallocate one_reserved 2 ≡ done t)
    × IsSound t.0
    × Owns t
    × (get_available t.0
        ≡ get_available one_reserved.0 + (if owns_bit one_reserved 2 then 1 else 0))
    × ((j : ℕ)
        → (owns_bit t j ≡ (if 2 == j then false else owns_bit one_reserved j))
          × (frees_bit t j ≡ (
              if 2 == j && not (owns_bit one_reserved 2) then true else frees_bit one_reserved j)))
    × (t.0.map_bits ≡ one_reserved.0.map_bits)
deallocate-frees_example = deallocate-frees one_reserved 2 four-IsSound one_reserved-Owns two_free

abbrev four_metadata : Metadata
four_metadata = record {
  data_start_block = 40;
  metadata_start_block = 8;
  using_fvm = false;
  slice_size = 32768;
  data_slices = 1;
  metadata_slices = 1;
  unit_size = 8192;
}

abbrev broken_device : Device
broken_device = record { volume_extend = λ o n. err no_space; grow_callback = λ n. err no_space }

enough_in_use :
    list_bitmaps.num_bits (freed_bits three_allocated)
    ≤ three_allocated.0.pool_used + list_bitmaps.num_bits (allocated_bits three_allocated)
unfolding find_change popcount
enough_in_use = omega arith

commit-conserves_example :
    (wt : PendingWork × State) × (allocator_commit four_metadata [] three_allocated ≡ done wt)
    × IsSound wt.1.0
    × (get_available wt.1.0 ≡ get_available three_allocated.0)
    × (list_bitmaps.get_one wt.1.0.map_bits 3 ≡ (
        if list_bitmaps.get_bit (freed_bits three_allocated) 3
        then false
        else if list_bitmaps.get_bit (allocated_bits three_allocated) 3
        then true
        else list_bitmaps.get_one three_allocated.0.map_bits 3))
commit-conserves_example =
    commit-conserves four_metadata [] three_allocated allocate-IsSound_example.0
      allocate-IsSound_example.1 enough_in_use 3 (omega arith)

-- Another reservation, with no changes and no elements: one element is still available.
abbrev newcomer : State
newcomer = (four, record { reserved = 0; allocations = none; deallocations = none })

newcomer-Owns : Owns newcomer
newcomer-Owns = record { mine = omega arith; allocs = tt; deallocs = tt }

one_available : get_available four ≡ 1
unfolding get_available get_reserved_count popcount
one_available = refl

reserve-grants_example :
    (reserve broken_device [] four_metadata newcomer 1
      ≡ ok ([], four_metadata, reserved_state newcomer 1))
    × IsSound (reserved_state newcomer 1).0
    × Owns (reserved_state newcomer 1)
    × (get_available (reserved_state newcomer 1).0 + 1 ≡ get_available newcomer.0)
reserve-grants_example =
    reserve-grants broken_device [] four_metadata newcomer 1 four-IsSound newcomer-Owns refl
      (omega (arith, one_available))

cancel-reserve_example :
    (x : State) × (y : State) × (reserve broken_device [] four_metadata newcomer 0
      ≡ ok ([], four_metadata, x))
    × (extend_reservation broken_device [] four_metadata x 1 ≡ ok ([], four_metadata, y))
    × (get_available y.0 + (0 + 1) ≡ get_available newcomer.0)
    × (cancel y ≡ newcomer)
cancel-reserve_example =
    cancel-reserve broken_device [] four_metadata newcomer 0 1 four-IsSound newcomer-Owns refl
      (omega (arith, one_available))

-- A volume manager that grants a slice of four blocks: the pool of five elements grows to eight.
abbrev managed_metadata : Metadata
managed_metadata = record four_metadata { using_fvm = true }

abbrev granting_device : Device
granting_device = record { volume_extend = λ o n. ok tt; grow_callback = λ n. ok tt }

eight : extended_size managed_metadata ≡ 8
unfolding units_per_slices
eight = refl

bitmap_room :
    bitmap_blocks_for_size (extended_size managed_metadata)
    ≤ units_per_slices managed_metadata 1 minfs_block_size
unfolding units_per_slices bitmap_blocks_for_size
bitmap_room = omega arith

reserve-extends_example :
    (work' : PendingWork) × (t : State) × (reserve granting_device [] managed_metadata newcomer 3
      ≡ ok (work', record managed_metadata { data_slices = 2 }, t))
    × IsSound t.0
    × Owns t
    × (get_available t.0 + 3 ≡ get_available four + (extended_size managed_metadata - 5))
    × (list_bitmaps.size t.0.map_bits ≡ extended_size managed_metadata)
    × ((k : ℕ)
        → k < extended_size managed_metadata
        → list_bitmaps.get_one t.0.map_bits k
          ≡ (if ltb k 5 then list_bitmaps.get_one four.map_bits k else false))
reserve-extends_example =
    reserve-extends granting_device [] managed_metadata newcomer 3
      (pad (round_up (extended_size managed_metadata) minfs_block_bits) four.map_bits) four-IsSound
      newcomer-Owns refl (omega (arith, one_available)) refl bitmap_room refl refl refl
      (omega (arith, eight)) (omega (arith, eight)) (omega (arith, eight, one_available))
