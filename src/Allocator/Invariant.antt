-- ===== src/Allocator/Invariant.antt =====
-- The invariant of the allocator, and the change that a reservation creates when it first needs one.
use fuchsia_minfs.Prelude.{
  ℕ, ◌+◌, ◌-◌, ◌^◌, ◌≤◌, ◌<◌, ◌≡◌, refl, true, false, if◌then◌else◌, Option, none, some, List, [],
  ◌∷◌, ◌++◌, arith, subst,
}
use fuchsia_minfs.Allocator.Bitmap.{Bitmaps}
use fuchsia_minfs.Allocator.State.{
  Kind, allocation, deallocation, Change, Allocator, get_reserved_count, sum_by, sum_reserved,
  get_available,
}
use fuchsia_minfs.Allocator.Ops.{
  State, find_change, add_pending_change, get_pending_allocations, get_pending_deallocations,
  take_allocations, take_deallocations,
}
use fuchsia_minfs.Allocator.Unreserved.{is_reserved}
use fuchsia_minfs.Allocator.Changes.{
  holders, freers, is_freeing, sum_by-snoc, find_change-snoc, find_change-new, Addressed,
  Addressed-new,
}

module _ ⦃b : Bitmaps⦄ where
  open b use {size, get_one, get_bit, num_bits}

  -- The counts are exact and fit. Each element is reserved by one change at most, and then it is clear
  -- in the map; each waits to be freed in one change at most, and then it is set in the map.
  pub record IsSound (a : Allocator) : Type 0 where
    pub used_le : a.pool_used ≤ a.pool_total
    pub total_lt : a.pool_total < 2 ^ 32
    pub fits : a.reserved + sum_reserved a.pending_changes ≤ a.pool_total - a.pool_used
    pub addressed : Addressed a.fresh a.pending_changes
    pub one_holder : (i : ℕ) → holders i a.pending_changes ≤ 1
    pub one_freer : (i : ℕ) → freers i a.pending_changes ≤ 1
    pub held :
        (i : ℕ)
        → 0 < holders i a.pending_changes
        → (i < size a.map_bits) × (get_one a.map_bits i ≡ false)
    pub freed :
        (i : ℕ)
        → 0 < freers i a.pending_changes
        → (i < size a.map_bits) × (get_one a.map_bits i ≡ true)

  -- The address leads to a change of this kind that is not committed.
  abbrev pub Ready : Kind → ℕ → List Change → Type 0
  Ready kind p cs =
      (c : Change) × (find_change p cs ≡ some c) × (c.kind ≡ kind) × (c.committed ≡ false)

  abbrev pub ReadyIf : Kind → Option ℕ → List Change → Type 0
  ReadyIf kind none cs = Unit {0}
  ReadyIf kind (some p) cs = Ready kind p cs

  -- The reservation's elements are among the allocator's, and its changes are not committed.
  pub record Owns (s : State) : Type 0 where
    pub mine : s.1.reserved ≤ s.0.reserved
    pub allocs : ReadyIf allocation s.1.allocations s.0.pending_changes
    pub deallocs : ReadyIf deallocation s.1.deallocations s.0.pending_changes

  -- With exact counts GetAvailable does not wrap.
  pub available-exact :
      (a : Allocator)
      → IsSound a
      → get_available a + a.reserved + sum_reserved a.pending_changes + a.pool_used ≡ a.pool_total
  unfolding get_available
  available-exact a h = let f = h.fits in let u = h.used_le in let t = h.total_lt in omega arith

  ReadyIf-snoc :
      (kind : Kind) (o : Option ℕ) (cs : List Change) (d : Change)
      → ReadyIf kind o cs
      → ReadyIf kind o (cs ++ d ∷ [])
  ReadyIf-snoc kind none cs d h = tt
  ReadyIf-snoc kind (some p) cs d (c, f, k, n) = (c, find_change-snoc p cs c d f, k, n)

  abbrev new_change : Kind → ℕ → Change
  new_change kind p = record { address = p; kind = kind; bits = b.empty; committed = false }

  -- An empty change adds nothing to a sum over the vector.
  sum_by-new :
      (g : Change → ℕ) (cs : List Change) (d : Change)
      → g d ≡ 0
      → sum_by g (cs ++ d ∷ []) ≡ sum_by g cs
  sum_by-new g cs d z = omega (arith, sum_by-snoc g cs d)

  holds_none :
      (kind : Kind) (p i : ℕ) → ◌≡◌ {A = ℕ} (if is_reserved (new_change kind p) i then 1 else 0) 0
  holds_none allocation p i = let e = b.get_bit-empty i in ground (arith, e)
  holds_none deallocation p i = refl

  frees_none :
      (kind : Kind) (p i : ℕ) → ◌≡◌ {A = ℕ} (if is_freeing (new_change kind p) i then 1 else 0) 0
  frees_none allocation p i = refl
  frees_none deallocation p i = let e = b.get_bit-empty i in ground (arith, e)

  reserves_none : (kind : Kind) (p : ℕ) → get_reserved_count (new_change kind p) ≡ 0
  unfolding get_reserved_count
  reserves_none allocation p = b.num_bits-empty
  reserves_none deallocation p = refl

  same_holders-new :
      (i : ℕ) (kind : Kind) (p : ℕ) (cs : List Change)
      → holders i (cs ++ new_change kind p ∷ []) ≡ holders i cs
  same_holders-new i kind p cs =
      sum_by-new (λ c. if is_reserved c i then 1 else 0) cs (new_change kind p)
        (holds_none kind p i)

  same_freers-new :
      (i : ℕ) (kind : Kind) (p : ℕ) (cs : List Change)
      → freers i (cs ++ new_change kind p ∷ []) ≡ freers i cs
  same_freers-new i kind p cs =
      sum_by-new (λ c. if is_freeing c i then 1 else 0) cs (new_change kind p) (frees_none kind p i)

  add_pending_change-IsSound :
      (kind : Kind) (a : Allocator) → IsSound a → IsSound (add_pending_change kind a)
  unfolding add_pending_change
  add_pending_change-IsSound kind a h = record {
    used_le = h.used_le;
    total_lt = h.total_lt;
    fits =
        rw
          (sum_by-new get_reserved_count a.pending_changes (new_change kind a.fresh)
            (reserves_none kind a.fresh))
          h.fits;
    addressed = Addressed-new a.fresh a.pending_changes (new_change kind a.fresh) h.addressed refl;
    one_holder = λ i. rw (same_holders-new i kind a.fresh a.pending_changes) (h.one_holder i);
    one_freer = λ i. rw (same_freers-new i kind a.fresh a.pending_changes) (h.one_freer i);
    held = λ i k. h.held i (rw (same_holders-new i kind a.fresh a.pending_changes) at k);
    freed = λ i k. h.freed i (rw (same_freers-new i kind a.fresh a.pending_changes) at k);
  }

  -- What a getter of a pending change leaves: the change is there, and the counts are as before.
  pub record Prepared (kind : Kind) (s t : State) (p : ℕ) : Type 0 where
    pub sound : IsSound t.0
    pub owns : Owns t
    pub ready : Ready kind p t.0.pending_changes
    pub same_available : get_available t.0 ≡ get_available s.0
    pub same_reserved : t.0.reserved ≡ s.0.reserved
    pub same_mine : t.1.reserved ≡ s.1.reserved
    pub same_map : t.0.map_bits ≡ s.0.map_bits
    pub same_first : t.0.first_free ≡ s.0.first_free
    pub same_holders : (i : ℕ) → holders i t.0.pending_changes ≡ holders i s.0.pending_changes
    pub keeps :
        (q : ℕ) (c : Change)
        → find_change q s.0.pending_changes ≡ some c
        → find_change q t.0.pending_changes ≡ some c
    pub same_freers : (i : ℕ) → freers i t.0.pending_changes ≡ freers i s.0.pending_changes

  add_pending_change-available :
      (kind : Kind) (a : Allocator) → get_available (add_pending_change kind a) ≡ get_available a
  unfolding add_pending_change get_available
  add_pending_change-available kind a = rw (
      sum_by-new get_reserved_count a.pending_changes (new_change kind a.fresh)
        (reserves_none kind a.fresh))

  take_allocations-Prepared :
      (o : Option ℕ) (s : State)
      → s.1.allocations ≡ o
      → IsSound s.0
      → Owns s
      → Prepared allocation s (take_allocations o s).1 (take_allocations o s).0
  unfolding take_allocations add_pending_change
  take_allocations-Prepared (some p) s e h o = record {
    sound = h;
    owns = o;
    ready = subst (λ x. ReadyIf allocation x s.0.pending_changes) e o.allocs;
    same_available = refl;
    same_reserved = refl;
    same_mine = refl;
    same_map = refl;
    same_first = refl;
    same_holders = λ i. refl;
    keeps = λ q c f. f;
    same_freers = λ i. refl;
  }
  take_allocations-Prepared none (a, r) e h o =
      let fresh : Ready allocation a.fresh
          (a.pending_changes ++ new_change allocation a.fresh ∷ []) =
        (
          new_change allocation a.fresh,
          find_change-new a.fresh a.pending_changes (new_change allocation a.fresh) h.addressed
              refl,
          refl,
          refl,
        ) in
      record {
        sound = add_pending_change-IsSound allocation a h;
        owns = record {
          mine = o.mine;
          allocs = fresh;
          deallocs = ReadyIf-snoc deallocation r.deallocations a.pending_changes _ o.deallocs;
        };
        ready = fresh;
        same_available = add_pending_change-available allocation a;
        same_reserved = refl;
        same_mine = refl;
        same_map = refl;
        same_first = refl;
        same_holders = λ i. same_holders-new i allocation a.fresh a.pending_changes;
        keeps = λ q c f. find_change-snoc q a.pending_changes c (new_change allocation a.fresh) f;
        same_freers = λ i. same_freers-new i allocation a.fresh a.pending_changes;
      }

  take_deallocations-Prepared :
      (o : Option ℕ) (s : State)
      → s.1.deallocations ≡ o
      → IsSound s.0
      → Owns s
      → Prepared deallocation s (take_deallocations o s).1 (take_deallocations o s).0
  unfolding take_deallocations add_pending_change
  take_deallocations-Prepared (some p) s e h o = record {
    sound = h;
    owns = o;
    ready = subst (λ x. ReadyIf deallocation x s.0.pending_changes) e o.deallocs;
    same_available = refl;
    same_reserved = refl;
    same_mine = refl;
    same_map = refl;
    same_first = refl;
    same_holders = λ i. refl;
    keeps = λ q c f. f;
    same_freers = λ i. refl;
  }
  take_deallocations-Prepared none (a, r) e h o =
      let fresh : Ready deallocation a.fresh
          (a.pending_changes ++ new_change deallocation a.fresh ∷ []) =
        (
          new_change deallocation a.fresh,
          find_change-new a.fresh a.pending_changes (new_change deallocation a.fresh) h.addressed
              refl,
          refl,
          refl,
        ) in
      record {
        sound = add_pending_change-IsSound deallocation a h;
        owns = record {
          mine = o.mine;
          allocs = ReadyIf-snoc allocation r.allocations a.pending_changes _ o.allocs;
          deallocs = fresh;
        };
        ready = fresh;
        same_available = add_pending_change-available deallocation a;
        same_reserved = refl;
        same_mine = refl;
        same_map = refl;
        same_first = refl;
        same_holders = λ i. same_holders-new i deallocation a.fresh a.pending_changes;
        keeps = λ q c f. find_change-snoc q a.pending_changes c (new_change deallocation a.fresh) f;
        same_freers = λ i. same_freers-new i deallocation a.fresh a.pending_changes;
      }

  pub get_pending_allocations-Prepared :
      (s : State)
      → IsSound s.0
      → Owns s
      → Prepared allocation s (get_pending_allocations s).1 (get_pending_allocations s).0
  get_pending_allocations-Prepared s h o = take_allocations-Prepared s.1.allocations s refl h o

  pub get_pending_deallocations-Prepared :
      (s : State)
      → IsSound s.0
      → Owns s
      → Prepared deallocation s (get_pending_deallocations s).1 (get_pending_deallocations s).0
  get_pending_deallocations-Prepared s h o =
      take_deallocations-Prepared s.1.deallocations s refl h o
