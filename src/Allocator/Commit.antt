-- ===== src/Allocator/Commit.antt =====
-- Allocator::Commit.
use fuchsia_minfs.Prelude.{
  ℕ, ◌+◌, ◌-◌, ◌≤◌, ◌<◌, ◌≡◌, ◌≢◌, refl, sym, ◌∙◌, true, false, if◌then◌else◌, some, List, [], ◌∷◌,
  arith, inl, inr, Bool-cases, ◌⊎◌,
}
use fuchsia_minfs.Allocator.Bitmap.{Bitmaps, in_ranges, total_length}
use fuchsia_minfs.Allocator.State.{
  allocation, deallocation, Change, Allocator, get_reserved_count, sum_by, sum_reserved,
  get_available,
}
use fuchsia_minfs.Allocator.Storage.{PendingWork, Metadata, pool_allocate, pool_release}
use fuchsia_minfs.Allocator.Ops.{
  find_change, update_change, with_committed, set_ranges, clear_ranges, update_count, commit_ranges,
  commit_changes,
}
use fuchsia_minfs.Allocator.Unreserved.{is_reserved}
use fuchsia_minfs.Allocator.Changes.{
  holders, freers, is_freeing, sum_by-update, Addressed, Addressed-update, sum_by-le,
  find_change-update,
}
use fuchsia_minfs.Allocator.Invariant.{IsSound, available-exact}

-- Ranges of total length 0 hold no element.
in_ranges-empty : (rs : List (ℕ × ℕ)) (k : ℕ) → total_length rs ≡ 0 → in_ranges rs k ≡ false
in_ranges-empty [] k z = refl
in_ranges-empty ((off, len) ∷ rs) k z =
    let ih = in_ranges-empty rs k (omega arith) in ground (arith, ih)

module _ ⦃b : Bitmaps⦄ where
  open b use {Raw, size, get_one, get_bit, num_bits, ranges}

  size-set_ranges : (m : Raw) (rs : List (ℕ × ℕ)) → size (set_ranges m rs) ≡ size m
  unfolding set_ranges
  size-set_ranges m [] = refl
  size-set_ranges m ((off, len) ∷ rs) =
      size-set_ranges (b.set_range m off (off + len)) rs ∙ b.size-set_range m off (off + len)

  size-clear_ranges : (m : Raw) (rs : List (ℕ × ℕ)) → size (clear_ranges m rs) ≡ size m
  unfolding clear_ranges
  size-clear_ranges m [] = refl
  size-clear_ranges m ((off, len) ∷ rs) =
      size-clear_ranges (b.clear_range m off (off + len)) rs ∙ b.size-clear_range m off (off + len)

  get_one-set_ranges :
      (m : Raw) (rs : List (ℕ × ℕ)) (k : ℕ)
      → k < size m
      → get_one (set_ranges m rs) k ≡ (if in_ranges rs k then true else get_one m k)
  unfolding set_ranges
  get_one-set_ranges m [] k h = refl
  get_one-set_ranges m ((off, len) ∷ rs) k h =
      let l = b.get_one-set_range m off (off + len) k h in
      let ih =
        get_one-set_ranges (b.set_range m off (off + len)) rs k
          (rw (b.size-set_range m off (off + len)) h) in
      ground (arith, l, ih)

  get_one-clear_ranges :
      (m : Raw) (rs : List (ℕ × ℕ)) (k : ℕ)
      → k < size m
      → get_one (clear_ranges m rs) k ≡ (if in_ranges rs k then false else get_one m k)
  unfolding clear_ranges
  get_one-clear_ranges m [] k h = refl
  get_one-clear_ranges m ((off, len) ∷ rs) k h =
      let l = b.get_one-clear_range m off (off + len) k h in
      let ih =
        get_one-clear_ranges (b.clear_range m off (off + len)) rs k
          (rw (b.size-clear_range m off (off + len)) h) in
      ground (arith, l, ih)

  -- A bitmap with no bits set holds no element.
  get_bit_none : (c : b.Rle) (k : ℕ) → num_bits c ≡ 0 → get_bit c k ≡ false
  get_bit_none c k z =
      b.get_bit-ranges c k ∙ in_ranges-empty (ranges c) k (sym (b.num_bits-ranges c) ∙ z)

  module _ (meta : Metadata) (work : PendingWork) (p q : ℕ) (a : Allocator) (h : IsSound a)
      (c d : Change) (f : find_change p a.pending_changes ≡ some c)
      (g : find_change q a.pending_changes ≡ some d) (kind_c : c.kind ≡ allocation)
      (kind_d : d.kind ≡ deallocation) (fresh_c : c.committed ≡ false)
      (fresh_d : d.committed ≡ false)
      (counted : num_bits d.bits ≤ a.pool_used + num_bits c.bits) where
    abbrev pub committed : Allocator
    committed = (commit_changes meta work p q a c d).1

    apart : p ≢ q
    apart e =
        let g' : find_change p a.pending_changes ≡ some d = rw e g in
        ground (arith, f, g', kind_c, kind_d)

    find_second : find_change q (update_change p with_committed a.pending_changes) ≡ some d
    find_second =
        find_change-update q p with_committed a.pending_changes (λ e. apart (sym e)) (λ c. refl) ∙ g

    abbrev marked : List Change
    marked = update_change q with_committed (update_change p with_committed a.pending_changes)

    abbrev recorded : Allocator
    recorded = (commit_ranges meta work p q a c d).1

    committed_cases :
        ((num_bits c.bits ≡ 0) × (num_bits d.bits ≡ 0) × (committed ≡ a)) ⊎ (committed ≡ recorded)
    unfolding commit_changes
    committed_cases = ground arith

    get_one-recorded :
        (k : ℕ)
        → k < size a.map_bits
        → get_one recorded.map_bits k ≡ (
            if get_bit d.bits k
            then false
            else if get_bit c.bits k
            then true
            else get_one a.map_bits k)
    unfolding commit_ranges
    get_one-recorded k within =
        let l = get_one-set_ranges a.map_bits (ranges c.bits) k within in
        let m =
          get_one-clear_ranges (set_ranges a.map_bits (ranges c.bits)) (ranges d.bits) k
            (rw (size-set_ranges a.map_bits (ranges c.bits)) within) in
        rw (b.get_bit-ranges c.bits k, b.get_bit-ranges d.bits k) (m ∙ rw l)

    size-recorded : size recorded.map_bits ≡ size a.map_bits
    unfolding commit_ranges
    size-recorded =
        size-clear_ranges (set_ranges a.map_bits (ranges c.bits)) (ranges d.bits)
        ∙ size-set_ranges a.map_bits (ranges c.bits)

    -- The map after a commit: what was allocated is set, what was freed is clear, and the rest stays.
    pub get_one-committed :
        (k : ℕ)
        → k < size a.map_bits
        → get_one committed.map_bits k ≡ (
            if get_bit d.bits k
            then false
            else if get_bit c.bits k
            then true
            else get_one a.map_bits k)
    get_one-committed k within = elim committed_cases [
      | inl (zc, zd, e) ↦ rw (e, get_bit_none c.bits k zc, get_bit_none d.bits k zd)
      | inr e ↦ rw e (get_one-recorded k within)
    ]

    -- Both updates in a sum over the vector.
    sum_by-marked :
        (m : Change → ℕ)
        → sum_by m marked + m c + m d
          ≡ sum_by m a.pending_changes + m (with_committed c) + m (with_committed d)
    sum_by-marked m = omega (
      arith,
      sum_by-update m p with_committed a.pending_changes c f,
      sum_by-update m q with_committed (update_change p with_committed a.pending_changes) d
          find_second,
    )

    sum-marked :
        sum_reserved marked + num_bits c.bits ≡ sum_reserved a.pending_changes + num_bits d.bits
    unfolding get_reserved_count
    sum-marked =
        let m = sum_by-marked get_reserved_count in
        ground (arith, m, kind_c, kind_d, fresh_c, fresh_d)

    held_by_c : (k : ℕ) → get_bit c.bits k ≡ true → 0 < holders k a.pending_changes
    held_by_c k e =
        let m = sum_by-le (λ c. if is_reserved c k then 1 else 0) p a.pending_changes c f in
        ground (arith, m, kind_c, fresh_c)

    freed_by_d : (k : ℕ) → get_bit d.bits k ≡ true → 0 < freers k a.pending_changes
    freed_by_d k e =
        let m = sum_by-le (λ c. if is_freeing c k then 1 else 0) q a.pending_changes d g in
        ground (arith, m, kind_d, fresh_d)

    holders-marked :
        (k : ℕ)
        → holders k marked + (if get_bit c.bits k then 1 else 0)
          ≡ holders k a.pending_changes + (if get_bit d.bits k then 1 else 0)
    holders-marked k =
        let m = sum_by-marked (λ c. if is_reserved c k then 1 else 0) in
        ground (arith, m, kind_c, kind_d, fresh_c, fresh_d)

    freers-marked :
        (k : ℕ) → freers k marked + (if get_bit d.bits k then 1 else 0) ≡ freers k a.pending_changes
    freers-marked k =
        let m = sum_by-marked (λ c. if is_freeing c k then 1 else 0) in
        ground (arith, m, kind_c, kind_d, fresh_c, fresh_d)

    -- An element that waits to be freed is not reserved.
    not_both : (k : ℕ) → 0 < holders k a.pending_changes → 0 < freers k a.pending_changes → ⊥
    not_both k x y = let u = (h.held k x).1 in let v = (h.freed k y).1 in ground (arith, u, v)

    sum_by-le_reserved : num_bits c.bits ≤ sum_reserved a.pending_changes
    unfolding get_reserved_count
    sum_by-le_reserved =
        let m = sum_by-le get_reserved_count p a.pending_changes c f in
        ground (arith, m, kind_c, fresh_c)

    used_after :
        (update_count a (num_bits c.bits) (num_bits d.bits)).pool_used + num_bits d.bits
        ≡ a.pool_used + num_bits c.bits
    unfolding update_count pool_allocate pool_release
    used_after =
        let x = sum_by-le_reserved in
        let y = h.fits in let z = h.total_lt in let w = h.used_le in let v = counted in ground arith

    kept :
        (recorded.pool_total ≡ a.pool_total)
        × (recorded.reserved ≡ a.reserved)
        × (recorded.fresh ≡ a.fresh)
    unfolding commit_ranges update_count pool_allocate pool_release
    kept = ground arith

    used-recorded : recorded.pool_used + num_bits d.bits ≡ a.pool_used + num_bits c.bits
    unfolding commit_ranges
    used-recorded = used_after

    sum-recorded :
        sum_reserved recorded.pending_changes + num_bits c.bits
        ≡ sum_reserved a.pending_changes + num_bits d.bits
    unfolding commit_ranges
    sum-recorded = sum-marked

    holders-recorded :
        (k : ℕ)
        → holders k recorded.pending_changes + (if get_bit c.bits k then 1 else 0)
          ≡ holders k a.pending_changes + (if get_bit d.bits k then 1 else 0)
    unfolding commit_ranges
    holders-recorded k = holders-marked k

    freers-recorded :
        (k : ℕ)
        → freers k recorded.pending_changes + (if get_bit d.bits k then 1 else 0)
          ≡ freers k a.pending_changes
    unfolding commit_ranges
    freers-recorded k = freers-marked k

    Addressed-recorded : Addressed recorded.fresh recorded.pending_changes
    unfolding commit_ranges
    Addressed-recorded = rw (kept.2) (
        Addressed-update a.fresh q with_committed (update_change p with_committed a.pending_changes)
          (λ c. refl)
          (Addressed-update a.fresh p with_committed a.pending_changes (λ c. refl) h.addressed))

    one-recorded : (k : ℕ) → holders k recorded.pending_changes ≤ 1
    one-recorded k =
        let x = holders-recorded k in
        let y = h.one_holder k in
        let z = held_by_c k in
        let w = freed_by_d k in let n = not_both k in ground (arith, x, y, z, w, n)

    held-recorded :
        (k : ℕ)
        → 0 < holders k recorded.pending_changes
        → (k < size recorded.map_bits) × (get_one recorded.map_bits k ≡ false)
    held-recorded k pos = elim (Bool-cases (get_bit d.bits k)) [
      | inl e ↦
          let w = (h.freed k (freed_by_d k e)).0 in
          (rw size-recorded w, get_one-recorded k w ∙ rw e)
      | inr e ↦
          let x = holders-recorded k in
          let y = h.one_holder k in
          let n : 0 < holders k a.pending_changes = ground (arith, x, y, e) in
          let no : get_bit c.bits k ≡ false = ground (arith, x, y, e) in
          let v = h.held k n in (rw size-recorded v.0, get_one-recorded k v.0 ∙ rw (e, no) v.1)
    ]

    freed-recorded :
        (k : ℕ)
        → 0 < freers k recorded.pending_changes
        → (k < size recorded.map_bits) × (get_one recorded.map_bits k ≡ true)
    freed-recorded k pos =
        let x = freers-recorded k in
        let y = h.one_freer k in
        let n : 0 < freers k a.pending_changes = omega arith in
        let e : get_bit d.bits k ≡ false = ground (arith, x, y) in
        let v = h.freed k n in
        let z = held_by_c k in
        let u = not_both k in
        let no : get_bit c.bits k ≡ false = ground (arith, z, u, n) in
        (rw size-recorded v.0, get_one-recorded k v.0 ∙ rw (e, no) v.1)

    recorded-IsSound : IsSound recorded
    recorded-IsSound = record {
      used_le = fits_after.0;
      total_lt = rw (kept.0) h.total_lt;
      fits = fits_after.1;
      addressed = Addressed-recorded;
      one_holder = one-recorded;
      one_freer = λ k. let x = freers-recorded k in let y = h.one_freer k in omega arith;
      held = held-recorded;
      freed = freed-recorded;
    }
      where
        fits_after :
            (recorded.pool_used ≤ recorded.pool_total)
            × (recorded.reserved + sum_reserved recorded.pending_changes
                ≤ recorded.pool_total - recorded.pool_used)
        fits_after =
            let x = sum_by-le_reserved in
            let y = h.fits in
            let z = h.used_le in
            let k = kept in
            let u = used-recorded in let s = sum-recorded in (omega arith, omega arith)

    -- Either way a commit leaves the allocator sound, with as many elements available as before.
    pub committed-IsSound : IsSound committed × (get_available committed ≡ get_available a)
    committed-IsSound = elim committed_cases [
      | inl (zc, zd, e) ↦ rw e (h, refl)
      | inr e ↦
          let x = available-exact recorded recorded-IsSound in
          let y = available-exact a h in
          let k = kept in rw e (recorded-IsSound, omega (arith, x, y, used-recorded, sum-recorded))
    ]
