-- ===== src/Allocator/Extends.antt =====
-- Reserve of more elements than are available, where the pool grows by a slice.
use fuchsia_minfs.Prelude.{
  ℕ, ◌+◌, ◌-◌, ◌^◌, ◌≤◌, ◌<◌, ◌≡◌, refl, Bool, true, false, not, if◌then◌else◌, ltb, arith, some,
  ◌∷◌, [], ◌++◌, ok, u32, sub64, round_up, ◌∙◌,
}
use fuchsia_minfs.Format.{minfs_block_bits, minfs_block_size}
use fuchsia_minfs.Allocator.Bitmap.{Bitmaps}
use fuchsia_minfs.Allocator.State.{Allocator, get_available}
use fuchsia_minfs.Allocator.Storage.{
  write_superblock, PendingWork, Metadata, Device, extend, extended_size, units_per_slices,
  blocks_to_slices, bitmap_blocks_for_size, grow_map, persist_range,
}
use fuchsia_minfs.Allocator.Ops.{State, allocator_reserve, reserve}
use fuchsia_minfs.Allocator.Invariant.{IsSound, Owns, available-exact}

module _ ⦃b : Bitmaps⦄ where
  open b use {Raw, size, get_one}

  -- The allocator with the grown map, and `count` elements more that are reserved.
  abbrev grown : Allocator → Raw → (total count : ℕ) → Allocator
  grown a g total count = record a {
    map_bits = b.shrink g total;
    pool_total = total;
    reserved = a.reserved + count;
  }

  extended_size-bound : (m : Metadata) → extended_size m < 2 ^ 32
  unfolding units_per_slices
  extended_size-bound m = omega arith

  round_up-le : (n : ℕ) → n ≤ round_up n minfs_block_bits
  round_up-le n = omega arith

  module _ (d : Device) (work : PendingWork) (m : Metadata) (a : Allocator) (g : Raw)
      (fvm : m.using_fvm ≡ true)
      (room : bitmap_blocks_for_size (extended_size m)
        ≤ units_per_slices m m.metadata_slices minfs_block_size)
      (volume : d.volume_extend (u32 (blocks_to_slices m m.data_start_block + m.data_slices)) 1
        ≡ ok tt)
      (callback : d.grow_callback (extended_size m) ≡ ok tt)
      (memory : b.grow a.map_bits (round_up (extended_size m) minfs_block_bits) ≡ some g) where
    abbrev extended_work : PendingWork
    extended_work =
        persist_range m (work ++ write_superblock ∷ []) (size a.map_bits)
          (sub64 (extended_size m) (size a.map_bits))

    grow_map-grown :
        grow_map a (extended_size m)
        ≡ ok (size a.map_bits, record a { map_bits = b.shrink g (extended_size m) })
    unfolding grow_map
    grow_map-grown = rw (grow_map, memory) refl

    extend-succeeds :
        extend d work m a
        ≡ ok (
          extended_work,
          record m { data_slices = u32 (m.data_slices + 1) },
          record a { map_bits = b.shrink g (extended_size m); pool_total = extended_size m },
        )
    unfolding extend
    extend-succeeds =
        let tested : not (
              ltb (units_per_slices m m.metadata_slices minfs_block_size)
                (bitmap_blocks_for_size (extended_size m)))
            ≡ true =
          ground (arith, room) in
        rw (tested, volume, callback, grow_map-grown, fvm) refl

    get_one-grown :
        size a.map_bits ≤ extended_size m
        → (k : ℕ) → k < extended_size m
        → get_one (b.shrink g (extended_size m)) k
          ≡ (if ltb k (size a.map_bits) then get_one a.map_bits k else false)
    get_one-grown keeps k l =
        let up = round_up-le (extended_size m) in
        let long = b.size-grow a.map_bits (round_up (extended_size m) minfs_block_bits) g memory in
        b.get_one-shrink g (extended_size m) k (omega (arith, up, long)) l
        ∙ b.get_one-grow a.map_bits (round_up (extended_size m) minfs_block_bits) g k memory
            (omega (arith, up, l))

    size-grown : size (b.shrink g (extended_size m)) ≡ extended_size m
    size-grown =
        let up = round_up-le (extended_size m) in
        let long = b.size-grow a.map_bits (round_up (extended_size m) minfs_block_bits) g memory in
        b.size-shrink g (extended_size m) (omega (arith, up, long))

    kept :
        size a.map_bits ≤ extended_size m
        → (k : ℕ) (v : Bool) → (k < size a.map_bits) × (get_one a.map_bits k ≡ v)
        → (k < size (b.shrink g (extended_size m))) × (get_one (b.shrink g (extended_size m)) k ≡ v)
    kept keeps k v (l, e) =
        let within : k < extended_size m = omega (arith, l, keeps) in
        let same = get_one-grown keeps k within in
        (omega (arith, within, size-grown), ground (arith, same, l, e))

    grown-IsSound :
        (count : ℕ)
        → IsSound a
        → size a.map_bits ≤ extended_size m
        → a.pool_total ≤ extended_size m
        → count ≤ get_available a + (extended_size m - a.pool_total)
        → IsSound (grown a g (extended_size m) count)
    grown-IsSound count h keeps grows fits =
        let exact = available-exact a h in
        record {
          used_le = let u = h.used_le in omega (arith, u, grows);
          total_lt = extended_size-bound m;
          fits = let u = h.used_le in omega (arith, exact, fits, grows, u);
          addressed = h.addressed;
          one_holder = h.one_holder;
          one_freer = h.one_freer;
          held = λ i k. kept keeps i false (h.held i k);
          freed = λ i k. kept keeps i true (h.freed i k);
        }

  -- Reserve, on a sound allocator and a reservation that holds no elements, of more elements than are
  -- available, on a volume manager that grants a slice, with room for the larger map and with memory for
  -- it, where the larger pool is no smaller than the map and the pool before and has enough elements:
  -- it succeeds and counts a slice more; the allocator is sound; the elements that the pool has more are
  -- available, less those reserved; the map is as large as the pool, keeps the bits that it had, and is
  -- clear behind them.
  pub reserve-extends :
      (d : Device) (work : PendingWork) (m : Metadata) (s : State) (count : ℕ) (g : Raw)
      → IsSound s.0
      → Owns s
      → s.1.reserved ≡ 0
      → get_available s.0 < count
      → m.using_fvm ≡ true
      → bitmap_blocks_for_size (extended_size m)
        ≤ units_per_slices m m.metadata_slices minfs_block_size
      → d.volume_extend (u32 (blocks_to_slices m m.data_start_block + m.data_slices)) 1 ≡ ok tt
      → d.grow_callback (extended_size m) ≡ ok tt
      → b.grow s.0.map_bits (round_up (extended_size m) minfs_block_bits) ≡ some g
      → size s.0.map_bits ≤ extended_size m
      → s.0.pool_total ≤ extended_size m
      → count ≤ get_available s.0 + (extended_size m - s.0.pool_total)
      → (work' : PendingWork) × (t : State) × (reserve d work m s count
          ≡ ok (work', record m { data_slices = u32 (m.data_slices + 1) }, t))
        × IsSound t.0
        × Owns t
        × (get_available t.0 + count ≡ get_available s.0 + (extended_size m - s.0.pool_total))
        × (size t.0.map_bits ≡ extended_size m)
        × ((k : ℕ)
            → k < extended_size m
            → get_one t.0.map_bits k
              ≡ (if ltb k (size s.0.map_bits) then get_one s.0.map_bits k else false))
  unfolding reserve allocator_reserve
  reserve-extends d work m (a, r) count g h o z more fvm room volume callback memory keeps grows
        fits =
      let short : ltb (get_available a) count ≡ true = ground (arith, more) in
      let sound =
        grown-IsSound d work m a g fvm room volume callback memory count h keeps grows fits in
      let exact = available-exact a h in
      let exact' = available-exact (grown a g (extended_size m) count) sound in
      (
        extended_work d work m a g fvm room volume callback memory,
        (grown a g (extended_size m) count, record r { reserved = count }),
        rw (z, short, extend-succeeds d work m a g fvm room volume callback memory) refl,
        sound,
        record { mine = omega arith; allocs = o.allocs; deallocs = o.deallocs },
        omega (arith, exact, exact', grows),
        size-grown d work m a g fvm room volume callback memory,
        (λ k l. get_one-grown d work m a g fvm room volume callback memory keeps k l),
      )
