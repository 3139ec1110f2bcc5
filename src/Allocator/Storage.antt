-- ===== src/Allocator/Storage.antt =====
-- src/storage/minfs/allocator/{storage.cc, storage_common.cc, metadata.h, metadata.cc} and
-- allocator_common.cc: the growth of the pool, and what is written to the transaction. The device and
-- the callback that grows the inode table are parameters.
use fuchsia_minfs.Prelude.{
  ℕ, ◌+◌, ◌-◌, ◌*◌, ◌/◌, Bool, not, ltb, none, some, List, [], ◌∷◌, ◌++◌, Result, ok, err, ◌>>=◌,
  ◌>>◌, guard, no_space, u32, u64, sub32, sub64, round_up,
}
use fuchsia_minfs.Format.{minfs_block_bits, minfs_block_size}
use fuchsia_minfs.Allocator.Bitmap.{Bitmaps}
use fuchsia_minfs.Allocator.State.{Allocator}

-- A write that a PendingWork holds: a range of blocks of the map, from `vmo_offset` in memory to
-- `dev_offset` on the device, or the superblock with its backup.
pub data Operation : Type 0 where
  write_map : (vmo_offset dev_offset block_count : ℕ) → Operation
  write_superblock : Operation

abbrev pub PendingWork : Type 0
PendingWork = List Operation

-- AllocatorMetadata and AllocatorFvmMetadata, less the two pool counts: `data_slices` and
-- `metadata_slices` are the superblock's fields that the access record names.
pub record Metadata : Type 0 where
  pub data_start_block : ℕ
  pub metadata_start_block : ℕ
  pub using_fvm : Bool
  pub slice_size : ℕ
  pub data_slices : ℕ
  pub metadata_slices : ℕ
  pub unit_size : ℕ

-- VolumeExtend of the block device, and the callback that grows what the pool indexes.
pub record Device : Type 0 where
  pub volume_extend : ℕ → ℕ → Result (Unit {0})
  pub grow_callback : ℕ → Result (Unit {0})

unfoldable pub bitmap_blocks_for_size : ℕ → ℕ
bitmap_blocks_for_size n = u32 (u32 n + minfs_block_bits - 1) / minfs_block_bits

unfoldable pub units_per_slices : Metadata → ℕ → ℕ → ℕ
units_per_slices m slices unit = u32 (m.slice_size * slices / unit)

unfoldable pub blocks_to_slices : Metadata → ℕ → ℕ
blocks_to_slices m blocks = u32 (blocks / (m.slice_size / minfs_block_size))

unfoldable pub persist_range : Metadata → PendingWork → ℕ → ℕ → PendingWork
persist_range m work index count =
    let first = u32 (index / minfs_block_bits) in
    let last = u32 (sub64 (u64 (index + count)) 1 / minfs_block_bits) in
    work ++ write_map first (u32 (m.metadata_start_block + first)) (u32 (sub32 last first + 1)) ∷ []

module _ ⦃b : Bitmaps⦄ where
  unfoldable pub pool_allocate : Allocator → ℕ → Allocator
  pool_allocate a units = record a { pool_used = u32 (a.pool_used + units) }

  unfoldable pub pool_release : Allocator → ℕ → Allocator
  pool_release a units = record a { pool_used = sub32 a.pool_used units }

  -- GrowMapLocked: the size before, and the allocator with the grown map.
  unfoldable pub grow_map : Allocator → ℕ → Result (ℕ × Allocator)
  grow_map a new_size = elim (b.grow a.map_bits (round_up new_size minfs_block_bits)) [
    | none ↦ err no_space
    | some m ↦ ok (b.size a.map_bits, record a { map_bits = b.shrink m new_size })
  ]

  -- The extent of a pool grown by one slice of data.
  abbrev pub extended_size : Metadata → ℕ
  extended_size m = units_per_slices m (u32 (m.data_slices + 1)) m.unit_size

  abbrev pub Extended : Type 0
  Extended = PendingWork × Metadata × Allocator

  unfoldable pub extend : Device → PendingWork → Metadata → Allocator → Result Extended
  extend d work m a = do
    guard m.using_fvm no_space
    guard
        (not (
          ltb (units_per_slices m m.metadata_slices minfs_block_size)
            (bitmap_blocks_for_size (extended_size m))))
        no_space
    d.volume_extend (u32 (blocks_to_slices m m.data_start_block + m.data_slices)) 1
    d.grow_callback (extended_size m)
    (old_size, a') ← grow_map a (extended_size m)
    ok (
      persist_range m (work ++ write_superblock ∷ []) old_size (sub64 (extended_size m) old_size),
      record m { data_slices = u32 (m.data_slices + 1) },
      record a' { pool_total = extended_size m },
    )
