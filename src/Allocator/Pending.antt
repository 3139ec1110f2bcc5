-- ===== src/Allocator/Pending.antt =====
-- The bits of a reservation's two pending changes, whether they have been created or not.
use fuchsia_minfs.Prelude.{ℕ, ◌≡◌, refl, ◌∙◌, false, Option, none, some, List, arith}
use fuchsia_minfs.Allocator.Bitmap.{Bitmaps}
use fuchsia_minfs.Allocator.State.{allocation, deallocation, Kind, Change, Allocator, get_available}
use fuchsia_minfs.Allocator.Ops.{
  State, find_change, take_allocations, take_deallocations, add_pending_change,
  get_pending_allocations, get_pending_deallocations,
}
use fuchsia_minfs.Allocator.Changes.{find_change-new, find_change-snoc, freers}
use fuchsia_minfs.Allocator.Invariant.{
  IsSound, Owns, ReadyIf, get_pending_allocations-Prepared, get_pending_deallocations-Prepared,
}

module _ ⦃b : Bitmaps⦄ where
  abbrev pub pending_bits : Option ℕ → List Change → b.Rle
  pending_bits none cs = b.empty
  pending_bits (some p) cs = elim (find_change p cs) [ none ↦ b.empty | some c ↦ c.bits ]

  -- What the reservation has allocated and not yet committed, and what it is going to free.
  abbrev pub allocated_bits : State → b.Rle
  allocated_bits (a, r) = pending_bits r.allocations a.pending_changes

  abbrev pub freed_bits : State → b.Rle
  freed_bits (a, r) = pending_bits r.deallocations a.pending_changes

  new_bits :
      (kind : Kind) (a : Allocator) (c : Change)
      → IsSound a
      → find_change a.fresh (add_pending_change kind a).pending_changes ≡ some c
      → c.bits ≡ b.empty
  unfolding add_pending_change
  new_bits kind a c h f =
      let n =
        find_change-new a.fresh a.pending_changes
          (record { address = a.fresh; kind = kind; bits = b.empty; committed = false }) h.addressed
          refl in
      ground (arith, n, f)

  take_allocations-bits :
      (o : Option ℕ) (s : State) (c : Change)
      → s.1.allocations ≡ o
      → IsSound s.0
      → find_change (take_allocations o s).0 (take_allocations o s).1.0.pending_changes ≡ some c
      → c.bits ≡ allocated_bits s
  unfolding take_allocations
  take_allocations-bits (some p) (a, r) c e h f = rw e (rw (f, pending_bits))
  take_allocations-bits none (a, r) c e h f = rw e (new_bits allocation a c h f)

  take_deallocations-bits :
      (o : Option ℕ) (s : State) (c : Change)
      → s.1.deallocations ≡ o
      → IsSound s.0
      → find_change (take_deallocations o s).0 (take_deallocations o s).1.0.pending_changes ≡ some c
      → c.bits ≡ freed_bits s
  unfolding take_deallocations
  take_deallocations-bits (some p) (a, r) c e h f = rw e (rw (f, pending_bits))
  take_deallocations-bits none (a, r) c e h f = rw e (new_bits deallocation a c h f)

  pending_bits-add :
      (kind other : Kind) (o : Option ℕ) (a : Allocator)
      → ReadyIf other o a.pending_changes
      → pending_bits o (add_pending_change kind a).pending_changes
        ≡ pending_bits o a.pending_changes
  unfolding add_pending_change
  pending_bits-add kind other none a h = refl
  pending_bits-add kind other (some p) a (c, f, k, n) =
      let f' =
        find_change-snoc p a.pending_changes c
          (record { address = a.fresh; kind = kind; bits = b.empty; committed = false }) f in
      rw (f, f', pending_bits)

  freed_bits-take :
      (o : Option ℕ) (s : State)
      → ReadyIf deallocation s.1.deallocations s.0.pending_changes
      → freed_bits (take_allocations o s).1 ≡ freed_bits s
  unfolding take_allocations
  freed_bits-take (some p) s h = refl
  freed_bits-take none (a, r) h = pending_bits-add allocation deallocation r.deallocations a h

  -- The two changes that Free and Commit work on, found after both getters.
  pub record Both (s : State) (v : State) (p q : ℕ) : Type 0 where
    pub sound : IsSound v.0
    pub owns : Owns v
    pub allocs : Change
    pub deallocs : Change
    pub found_allocs : find_change p v.0.pending_changes ≡ some allocs
    pub found_deallocs : find_change q v.0.pending_changes ≡ some deallocs
    pub kind_allocs : allocs.kind ≡ allocation
    pub kind_deallocs : deallocs.kind ≡ deallocation
    pub fresh_allocs : allocs.committed ≡ false
    pub fresh_deallocs : deallocs.committed ≡ false
    pub bits_allocs : allocs.bits ≡ allocated_bits s
    pub bits_deallocs : deallocs.bits ≡ freed_bits s
    pub same_available : get_available v.0 ≡ get_available s.0
    pub same_map : v.0.map_bits ≡ s.0.map_bits
    pub same_used : v.0.pool_used ≡ s.0.pool_used
    pub same_freers : (i : ℕ) → freers i v.0.pending_changes ≡ freers i s.0.pending_changes

  same_used-allocs :
      (o : Option ℕ) (s : State) → (take_allocations o s).1.0.pool_used ≡ s.0.pool_used
  unfolding take_allocations add_pending_change
  same_used-allocs (some p) s = refl
  same_used-allocs none s = refl

  same_used-deallocs :
      (o : Option ℕ) (s : State) → (take_deallocations o s).1.0.pool_used ≡ s.0.pool_used
  unfolding take_deallocations add_pending_change
  same_used-deallocs (some p) s = refl
  same_used-deallocs none s = refl

  abbrev pub after_first : State → State
  after_first s = (get_pending_allocations s).1

  pub both_getters :
      (s : State)
      → IsSound s.0
      → Owns s
      → Both s
          (get_pending_deallocations (after_first s)).1
          (get_pending_allocations s).0
          (get_pending_deallocations (after_first s)).0
  both_getters s h o =
      let first = get_pending_allocations-Prepared s h o in
      let u = after_first s in
      let second = get_pending_deallocations-Prepared u first.sound first.owns in
      let (c, f, k, n) = first.ready in
      let (d, g, l, m) = second.ready in
      record {
        sound = second.sound;
        owns = second.owns;
        allocs = c;
        deallocs = d;
        found_allocs = second.keeps (get_pending_allocations s).0 c f;
        found_deallocs = g;
        kind_allocs = k;
        kind_deallocs = l;
        fresh_allocs = n;
        fresh_deallocs = m;
        bits_allocs = take_allocations-bits s.1.allocations s c refl h f;
        bits_deallocs =
            take_deallocations-bits u.1.deallocations u d refl first.sound g
            ∙ freed_bits-take s.1.allocations s o.deallocs;
        same_available = second.same_available ∙ first.same_available;
        same_map = second.same_map ∙ first.same_map;
        same_used = same_used-deallocs u.1.deallocations u ∙ same_used-allocs s.1.allocations s;
        same_freers = λ i. second.same_freers i ∙ first.same_freers i;
      }
