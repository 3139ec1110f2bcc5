-- ===== src/Allocator/Deallocate.antt =====
-- Allocator::Free, behind AllocatorReservation::Deallocate.
use fuchsia_minfs.Prelude.{
  Option, none, List, refl, sym, ap, ==_iff, ◌≢◌, ℕ, ◌+◌, ◌<◌, ◌≡◌, ◌∙◌, Bool, true, false, not,
  ◌&&◌, ◌==◌, if◌then◌else◌, some, arith, inl, inr, Bool-cases, ◌⊎◌,
}
use fuchsia_minfs.Allocator.Bitmap.{Bitmaps}
use fuchsia_minfs.Allocator.State.{done, allocation, deallocation, Change, Allocator, get_available}
use fuchsia_minfs.Allocator.Ops.{
  Reservation, State, take_allocations, take_deallocations, find_change, update_change,
  get_pending_allocations, get_pending_deallocations, with_bits, free_at, allocator_free,
  deallocate,
}
use fuchsia_minfs.Allocator.Changes.{freers, find_change-update, find_change-update_self}
use fuchsia_minfs.Allocator.Invariant.{IsSound, Owns}
use fuchsia_minfs.Allocator.Marked.{ReadyIf-with_bits}
use fuchsia_minfs.Allocator.Pending.{
  pending_bits, allocated_bits, freed_bits, Both, both_getters, after_first,
}
use fuchsia_minfs.Allocator.Free.{
  returned, returned-IsSound, returned-available, queued, queued-IsSound, queued-available,
  with_changes,
}

module _ ⦃b : Bitmaps⦄ where
  open b use {size, get_one, get_bit, set_bit, clear_bit}

  -- The reservation has allocated the element, and not yet committed it.
  abbrev pub owns_bit : State → ℕ → Bool
  owns_bit s i = get_bit (allocated_bits s) i

  -- The reservation is going to free the element.
  abbrev pub frees_bit : State → ℕ → Bool
  frees_bit s i = get_bit (freed_bits s) i

  -- What the debug assertion of Free asks: the element is in the map, unless it is the reservation's
  -- own, and waits for no other deallocation.
  abbrev pub MayFree : State → ℕ → Type 0
  MayFree s i =
      (owns_bit s i ≡ true)
      ⊎ ((i < size s.0.map_bits)
          × (get_one s.0.map_bits i ≡ true)
          × (freers i s.0.pending_changes ≡ 0))

  free_at-own :
      (p q : ℕ) (a : Allocator) (r : Reservation) (i : ℕ) (c : Change)
      → find_change p a.pending_changes ≡ some c
      → get_bit c.bits i ≡ true
      → free_at p q (a, r) i
        ≡ done
            (with_changes (update_change p (with_bits (λ s. clear_bit s i)) a.pending_changes) a, r)
  unfolding free_at
  free_at-own p q a r i c f bit = ground arith

  free_at-map :
      (p q : ℕ) (a : Allocator) (r : Reservation) (i : ℕ) (c : Change)
      → find_change p a.pending_changes ≡ some c
      → get_bit c.bits i ≡ false
      → free_at p q (a, r) i
        ≡ done
            (with_changes (update_change q (with_bits (λ s. set_bit s i)) a.pending_changes) a, r)
  unfolding free_at
  free_at-map p q a r i c f bit = ground arith

  take_allocations-own :
      (o : Option ℕ) (s : State)
      → s.1.allocations ≡ o
      → (take_allocations o s).1.1.allocations ≡ some (take_allocations o s).0
  unfolding take_allocations
  take_allocations-own (some p) s e = e
  take_allocations-own none s e = refl

  take_deallocations-own :
      (o : Option ℕ) (s : State)
      → s.1.deallocations ≡ o
      → ((take_deallocations o s).1.1.deallocations ≡ some (take_deallocations o s).0)
        × ((take_deallocations o s).1.1.allocations ≡ s.1.allocations)
  unfolding take_deallocations
  take_deallocations-own (some p) s e = (e, refl)
  take_deallocations-own none s e = (refl, refl)

  -- The bits of a change that is updated, and of another one.
  module _ (o : Option ℕ) (p : ℕ) (cs : List Change) (c : Change) (g : b.Rle → b.Rle)
      (own : o ≡ some p) (f : find_change p cs ≡ some c) where
    pending_bits-update_self : pending_bits o (update_change p (with_bits g) cs) ≡ g c.bits
    pending_bits-update_self =
        let u = find_change-update_self p (with_bits g) cs c (λ d. refl) f in
        rw own (rw (u, pending_bits) refl)

    pending_bits-update_other :
        (q : ℕ) → p ≢ q → pending_bits o (update_change q (with_bits g) cs) ≡ c.bits
    pending_bits-update_other q n =
        let u = find_change-update p q (with_bits g) cs n (λ d. refl) ∙ f in
        rw own (rw (u, pending_bits) refl)

  module _ (s : State) (i : ℕ) (h : IsSound s.0) (o : Owns s) (may : MayFree s i) where
    abbrev v : State
    v = (get_pending_deallocations (after_first s)).1

    abbrev p : ℕ
    p = (get_pending_allocations s).0

    abbrev q : ℕ
    q = (get_pending_deallocations (after_first s)).0

    both : Both s v p q
    both = both_getters s h o

    -- What becomes of each element in the two changes.
    abbrev Moves : State → Type 0
    Moves t =
        ((j : ℕ)
          → (owns_bit t j ≡ (if i == j then false else owns_bit s j))
            × (frees_bit t j ≡ (if i == j && not (owns_bit s i) then true else frees_bit s j)))
        × (t.0.map_bits ≡ s.0.map_bits)

    abbrev Frees : State → Type 0
    Frees t =
        (deallocate s i ≡ done t)
        × IsSound t.0
        × Owns t
        × (get_available t.0 ≡ get_available s.0 + (if owns_bit s i then 1 else 0))
        × Moves t

    Owns-with_bits :
        (x : ℕ) (g : b.Rle → b.Rle)
        → Owns (with_changes (update_change x (with_bits g) v.0.pending_changes) v.0, v.1)
    Owns-with_bits x g = record {
      mine = both.owns.mine;
      allocs =
          ReadyIf-with_bits allocation v.1.allocations x g v.0.pending_changes both.owns.allocs;
      deallocs =
          ReadyIf-with_bits deallocation v.1.deallocations x g v.0.pending_changes
            both.owns.deallocs;
    }

    own_allocs : v.1.allocations ≡ some p
    own_allocs =
        (take_deallocations-own (after_first s).1.deallocations (after_first s) refl).1
        ∙ take_allocations-own s.1.allocations s refl

    own_deallocs : v.1.deallocations ≡ some q
    own_deallocs = (take_deallocations-own (after_first s).1.deallocations (after_first s) refl).0

    two_changes : p ≢ q
    two_changes e =
        let k = both.kind_allocs in
        let l = both.kind_deallocs in
        let same =
          sym both.found_allocs
          ∙ ap (λ x. find_change x v.0.pending_changes) e
          ∙ both.found_deallocs in
        ground (arith, k, l, same)

    own-Moves :
        owns_bit s i ≡ true
        → Moves (
          with_changes (update_change p (with_bits (λ s. clear_bit s i)) v.0.pending_changes) v.0,
          v.1,
        )
    own-Moves mine = (
      (λ j.
          let x =
            pending_bits-update_self v.1.allocations p v.0.pending_changes both.allocs
              (λ s. clear_bit s i) own_allocs both.found_allocs in
          let y =
            pending_bits-update_other v.1.deallocations q v.0.pending_changes both.deallocs
              (λ s. clear_bit s i) own_deallocs both.found_deallocs p (λ e. two_changes (sym e)) in
          let l = b.get_bit-clear_bit both.allocs.bits i j in
          (
            ap (λ z. get_bit z j) x
                ∙ l
                ∙ ap (λ z. if i == j then false else get_bit z j) both.bits_allocs,
            ap (λ z. get_bit z j) y
                ∙ ap (λ z. get_bit z j) both.bits_deallocs
                ∙ rw mine (elim (Bool-cases (i == j)) [ inl e ↦ rw e refl | inr e ↦ rw e refl ]),
          )),
      both.same_map,
    )

    map-Moves :
        owns_bit s i ≡ false
        → Moves (
          with_changes (update_change q (with_bits (λ s. set_bit s i)) v.0.pending_changes) v.0,
          v.1,
        )
    map-Moves other = (
      (λ j.
          let x =
            pending_bits-update_other v.1.allocations p v.0.pending_changes both.allocs
              (λ s. set_bit s i) own_allocs both.found_allocs q two_changes in
          let y =
            pending_bits-update_self v.1.deallocations q v.0.pending_changes both.deallocs
              (λ s. set_bit s i) own_deallocs both.found_deallocs in
          let l = b.get_bit-set_bit both.deallocs.bits i j in
          (
            ap (λ z. get_bit z j) x
                ∙ ap (λ z. get_bit z j) both.bits_allocs
                ∙ elim (Bool-cases (i == j)) [
                  | inl e ↦ rw e (ap (owns_bit s) (sym ((==_iff i j).0 e)) ∙ other)
                  | inr e ↦ rw e refl
                ],
            ap (λ z. get_bit z j) y
                ∙ l
                ∙ ap (λ z. if i == j then true else get_bit z j) both.bits_deallocs
                ∙ rw other (elim (Bool-cases (i == j)) [ inl e ↦ rw e refl | inr e ↦ rw e refl ]),
          )),
      both.same_map,
    )

    deallocate_own : owns_bit s i ≡ true → (t : State) × Frees t
    unfolding deallocate allocator_free
    deallocate_own mine =
        let here : get_bit both.allocs.bits i ≡ true = rw both.bits_allocs mine in
        (
          (
            returned i p v.0 both.sound both.allocs both.found_allocs both.kind_allocs
                both.fresh_allocs here,
            v.1,
          ),
          (
            free_at-own p q v.0 v.1 i both.allocs both.found_allocs here,
            returned-IsSound i p v.0 both.sound both.allocs both.found_allocs both.kind_allocs
                both.fresh_allocs here,
            Owns-with_bits p (λ s. clear_bit s i),
            rw mine (
                omega (
                  arith,
                  returned-available i p v.0 both.sound both.allocs both.found_allocs
                      both.kind_allocs both.fresh_allocs here,
                  both.same_available,
                )),
            own-Moves mine,
          ),
        )

    deallocate_map : owns_bit s i ≡ false → (t : State) × Frees t
    unfolding deallocate allocator_free
    deallocate_map other =
        let here : get_bit both.allocs.bits i ≡ false = rw both.bits_allocs other in
        let w : (i < size s.0.map_bits)
            × (get_one s.0.map_bits i ≡ true)
            × (freers i s.0.pending_changes ≡ 0) =
          ground (arith, may, other) in
        let within : i < size v.0.map_bits = rw both.same_map w.0 in
        let taken : get_one v.0.map_bits i ≡ true = rw both.same_map w.1 in
        let once : freers i v.0.pending_changes ≡ 0 = both.same_freers i ∙ w.2 in
        (
          (
            queued i q v.0 both.sound both.deallocs both.found_deallocs both.kind_deallocs
                both.fresh_deallocs within taken once,
            v.1,
          ),
          (
            free_at-map p q v.0 v.1 i both.allocs both.found_allocs here,
            queued-IsSound i q v.0 both.sound both.deallocs both.found_deallocs both.kind_deallocs
                both.fresh_deallocs within taken once,
            Owns-with_bits q (λ s. set_bit s i),
            rw other (
                omega (
                  arith,
                  queued-available i q v.0 both.sound both.deallocs both.found_deallocs
                      both.kind_deallocs both.fresh_deallocs within taken once,
                  both.same_available,
                )),
            map-Moves other,
          ),
        )

    -- Deallocate on a sound allocator, of an element that may be freed, succeeds and leaves the
    -- allocator sound and the reservation's changes in place. One element more is available at once
    -- if the reservation had allocated this one and not committed it, and none otherwise. The
    -- reservation no longer has this element among its allocations, and has it among its deallocations
    -- if it had not allocated it itself; every other element, and the map, are as before.
    pub deallocate-frees :
        (t : State) × (deallocate s i ≡ done t)
        × IsSound t.0
        × Owns t
        × (get_available t.0 ≡ get_available s.0 + (if owns_bit s i then 1 else 0))
        × ((j : ℕ)
            → (owns_bit t j ≡ (if i == j then false else owns_bit s j))
              × (frees_bit t j ≡ (if i == j && not (owns_bit s i) then true else frees_bit s j)))
        × (t.0.map_bits ≡ s.0.map_bits)
    deallocate-frees = elim (Bool-cases (owns_bit s i)) [
      | inl mine ↦ let (t, e) = deallocate_own mine in (t, e.0, e.1, e.2, e.3, e.4.0, e.4.1)
      | inr other ↦ let (t, e) = deallocate_map other in (t, e.0, e.1, e.2, e.3, e.4.0, e.4.1)
    ]
