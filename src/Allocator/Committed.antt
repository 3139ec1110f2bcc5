-- ===== src/Allocator/Committed.antt =====
-- AllocatorReservation::Commit on a sound allocator.
use fuchsia_minfs.Prelude.{ℕ, ◌+◌, ◌≤◌, ◌<◌, ◌≡◌, ◌∙◌, true, false, if◌then◌else◌, arith, some}
use fuchsia_minfs.Allocator.Bitmap.{Bitmaps}
use fuchsia_minfs.Allocator.State.{done, ◌>>=◌, Change, Allocator, get_available}
use fuchsia_minfs.Allocator.Storage.{PendingWork, Metadata}
use fuchsia_minfs.Allocator.Ops.{
  State, find_change, commit_changes, commit_at, allocator_commit, get_pending_allocations,
  get_pending_deallocations,
}
use fuchsia_minfs.Allocator.Invariant.{IsSound, Owns}
use fuchsia_minfs.Allocator.Pending.{allocated_bits, freed_bits, Both, both_getters, after_first}
use fuchsia_minfs.Allocator.Commit.{committed-IsSound, get_one-committed}

module _ ⦃b : Bitmaps⦄ where
  open b use {size, get_one, get_bit, num_bits}

  commit_at-done :
      (meta : Metadata) (work : PendingWork) (p q : ℕ) (a : Allocator) (c d : Change)
      → find_change p a.pending_changes ≡ some c
      → find_change q a.pending_changes ≡ some d
      → c.committed ≡ false
      → d.committed ≡ false
      → commit_at meta work p q a ≡ done (commit_changes meta work p q a c d)
  unfolding commit_at
  commit_at-done meta work p q a c d f g m n = ground arith

  module _ (meta : Metadata) (work : PendingWork) (s : State) (h : IsSound s.0) (o : Owns s)
      (counted : num_bits (freed_bits s) ≤ s.0.pool_used + num_bits (allocated_bits s)) where
    abbrev v : State
    v = (get_pending_deallocations (after_first s)).1

    abbrev p : ℕ
    p = (get_pending_allocations s).0

    abbrev q : ℕ
    q = (get_pending_deallocations (after_first s)).0

    both : Both s v p q
    both = both_getters s h o

    counted_here : num_bits both.deallocs.bits ≤ v.0.pool_used + num_bits both.allocs.bits
    counted_here = rw (both.bits_allocs, both.bits_deallocs, both.same_used) counted

    abbrev result : PendingWork × Allocator
    result = commit_changes meta work p q v.0 both.allocs both.deallocs

    result-IsSound : IsSound result.1 × (get_available result.1 ≡ get_available v.0)
    result-IsSound =
        committed-IsSound meta work p q v.0 both.sound both.allocs both.deallocs both.found_allocs
          both.found_deallocs both.kind_allocs both.kind_deallocs both.fresh_allocs
          both.fresh_deallocs counted_here

    result-map :
        (k : ℕ)
        → k < size v.0.map_bits
        → get_one result.1.map_bits k ≡ (
            if get_bit both.deallocs.bits k
            then false
            else if get_bit both.allocs.bits k
            then true
            else get_one v.0.map_bits k)
    result-map =
        get_one-committed meta work p q v.0 both.sound both.allocs both.deallocs both.found_allocs
          both.found_deallocs both.kind_allocs both.kind_deallocs both.fresh_allocs
          both.fresh_deallocs counted_here

    -- A commit on a sound allocator that has as many elements in use as the reservation is going to
    -- free succeeds and leaves the allocator sound. As many elements are available as before. An
    -- element `k` of the map is clear if the reservation frees it, else set if the reservation has
    -- allocated it, and otherwise stays as it was.
    pub commit-conserves :
        (k : ℕ)
        → k < size s.0.map_bits
        → (wt : PendingWork × State) × (allocator_commit meta work s ≡ done wt)
          × IsSound wt.1.0
          × (get_available wt.1.0 ≡ get_available s.0)
          × (get_one wt.1.0.map_bits k ≡ (
              if get_bit (freed_bits s) k
              then false
              else if get_bit (allocated_bits s) k
              then true
              else get_one s.0.map_bits k))
    unfolding allocator_commit
    commit-conserves k within = (
      (result.0, (result.1, v.1)),
      (let e =
            commit_at-done meta work p q v.0 both.allocs both.deallocs both.found_allocs
              both.found_deallocs both.fresh_allocs both.fresh_deallocs in
          rw (e, ◌>>=◌)),
      result-IsSound.0,
      result-IsSound.1 ∙ both.same_available,
      result-map k (rw both.same_map within)
          ∙ rw (both.same_map, both.bits_allocs, both.bits_deallocs),
    )
