-- ===== src/Mapper/Iterator.antt =====
-- VnodeIterator, read-only, and VnodeMapper. The head of `levels` is level 0, so the level above one is
-- the next of the list and the length of the list is `level_count_`. A level whose view is delayed
-- keeps the bank that its view getter reads. Blk reads its view
-- only where `remaining` is not 0, which is where BufferView's assertion on the index holds.
use fuchsia_minfs.Prelude.{
  ℕ, ◌+◌, ◌-◌, ◌*◌, ◌/◌, Bool, true, false, not, ◌&&◌, ◌||◌, ◌==◌, ltb, leb, if◌then◌else◌, min,
  Option, none, some, List, [], ◌∷◌, sub64, u64, u32, round_down, bad_state, out_of_range,
}
use fuchsia_minfs.Prelude.Outcome.{Outcome, returned, failed, crashed, ◌>>=◌, ◌>>◌}
use fuchsia_minfs.Format.{
  minfs_direct, minfs_indirect, minfs_doubly_indirect, minfs_direct_per_indirect,
}
use fuchsia_minfs.Mapper.Pointers.{
  Pointers, Bank, direct, indirect, doubly_indirect, in_file, read, get_view, coalesce,
  indirect_file_start_block, double_indirect_file_start_block, max_blocks,
  double_indirect_view_start, double_indirect_leaf_view_start,
}

-- `valid`: the view has been got. `start` begins `range`, which has `count` pointers.
pub record Level : Type 0 where
  pub bank : Bank
  pub valid : Bool
  pub index : ℕ
  pub count : ℕ
  pub start : ℕ

pub record Iterator : Type 0 where
  pub file_block : ℕ
  pub contiguous_block_count : ℕ
  pub levels : List Level

unfoldable pub remaining : Level → ℕ
remaining l = sub64 l.count l.index

-- The pointer `k` of the view.
abbrev pub view : Pointers → Level → ℕ → ℕ
view v l k = read v l.bank (l.start + k)

unfoldable pub level_blk : Pointers → Level → ℕ
level_blk v l = if l.valid then view v l l.index else 0

-- `level + 1 < level_count_ && levels_[level + 1].blk() == 0`.
unfoldable pub parent_sparse : Pointers → List Level → Bool
parent_sparse v [] = false
parent_sparse v (parent ∷ above) = level_blk v parent == 0

-- BufferView::operator[] asserts that the index is below the count of the view: `levels_[level + 1].blk()`
-- reads the parent's view so.
unfoldable pub parent_in_view : List Level → Bool
parent_in_view [] = true
parent_in_view (parent ∷ above) = not parent.valid || ltb parent.index parent.count

abbrev pub new_level : Bank → (start end block : ℕ) → Bool → Level
new_level bank start end block valid = record {
  bank = bank;
  valid = valid;
  index = block - start;
  count = end - start;
  start = start;
}

unfoldable pub initialize_level :
    Pointers → List Level → Bank → (start end block : ℕ) → Outcome (List Level)
initialize_level v above bank start end block =
    if leb start block && ltb block end
    then if not (parent_in_view above)
      then crashed
      else if parent_sparse v above
      then returned (new_level bank start end block false ∷ above)
      else get_view v bank start end >> returned (new_level bank start end block true ∷ above)
    else crashed

unfoldable pub initialize_indirect_level : Pointers → List Level → ℕ → Outcome (List Level)
initialize_indirect_level v above relative_block =
    let first_block = round_down relative_block minfs_direct_per_indirect in
    initialize_level v above in_file first_block (first_block + minfs_direct_per_indirect)
      relative_block

abbrev pub at_block : ℕ → List Level → Iterator
at_block file_block levels = record {
  file_block = file_block;
  contiguous_block_count = 0;
  levels = levels;
}

-- The three ranges of Init.
unfoldable pub init_direct : Pointers → ℕ → Outcome Iterator
init_direct v file_block = do
  levels ← initialize_level v [] direct 0 minfs_direct file_block
  returned (at_block file_block levels)

unfoldable pub init_indirect : Pointers → ℕ → ℕ → Outcome Iterator
init_indirect v file_block relative_block = do
  levels ←
      initialize_level v [] indirect 0 minfs_indirect (relative_block / minfs_direct_per_indirect)
  levels ← initialize_indirect_level v levels relative_block
  returned (at_block file_block levels)

unfoldable pub init_doubly_indirect : Pointers → ℕ → ℕ → Outcome Iterator
init_doubly_indirect v file_block relative_block = do
  levels ←
      initialize_level v [] doubly_indirect 0 minfs_doubly_indirect
        (relative_block / minfs_direct_per_indirect / minfs_direct_per_indirect)
  levels ←
      initialize_indirect_level v levels
        (relative_block / minfs_direct_per_indirect + double_indirect_view_start)
  levels ← initialize_indirect_level v levels (relative_block + double_indirect_leaf_view_start)
  returned (at_block file_block levels)

unfoldable pub init : Pointers → ℕ → Outcome Iterator
init v file_block =
    if ltb file_block indirect_file_start_block
    then init_direct v file_block
    else if ltb file_block double_indirect_file_start_block
    then init_indirect v file_block (file_block - indirect_file_start_block)
    else if ltb file_block max_blocks
    then init_doubly_indirect v file_block (file_block - double_indirect_file_start_block)
    else if file_block == max_blocks
    then returned (at_block file_block [])
    else failed out_of_range

abbrev pub blk_of : Pointers → List Level → ℕ
blk_of v [] = 0
blk_of v (level ∷ above) = if ltb 0 (remaining level) then level_blk v level else 0

-- VnodeIterator::Blk.
unfoldable pub blk : Pointers → Iterator → ℕ
blk v it = blk_of v it.levels

abbrev pub next_index : List Level → ℕ
next_index [] = 0
next_index (level ∷ above) = level.index + 1

-- The loop of ComputeContiguousBlockCount, from a level on up.
unfoldable pub count_sparse : Pointers → List Level → ℕ → ℕ → ℕ → ℕ
count_sparse v [] index multiplier count = count
count_sparse v (level ∷ above) index multiplier count =
    let left = sub64 level.count index in
    let contiguous = coalesce (λ k. view v level (index + k)) left in
    let up =
      count_sparse v above (next_index above) (u64 (multiplier * minfs_direct_per_indirect)) in
    elim (left == 0 || not level.valid) [
      | true ↦ up (u64 (count + left * multiplier))
      | false ↦ elim (view v level index == 0) [
        | false ↦ count
        | true ↦ elim (ltb contiguous left) [
          | true ↦ u64 (count + contiguous * multiplier)
          | false ↦ up (u64 (count + contiguous * multiplier))
        ]
      ]
    ]

-- ComputeContiguousBlockCount, on the levels of an iterator that has some.
unfoldable pub compute_contiguous_block_count : Pointers → List Level → ℕ
compute_contiguous_block_count v [] = 0
compute_contiguous_block_count v (level ∷ above) =
    if blk_of v (level ∷ above) == 0
    then count_sparse v (level ∷ above) level.index 1 0
    else coalesce (λ k. view v level (level.index + k)) (remaining level)

-- The value, and the iterator with its cached count.
unfoldable pub get_contiguous_block_count : Pointers → Iterator → ℕ → ℕ × Iterator
get_contiguous_block_count v it max =
    let count =
      if it.contiguous_block_count == 0
      then compute_contiguous_block_count v it.levels
      else it.contiguous_block_count in
    elim it.levels [
      | [] ↦ (0, it)
      | level ∷ above ↦ (min count max, record it { contiguous_block_count = count })
    ]

-- VnodeMapper::MapToBlk.
unfoldable pub map_to_blk : Pointers → (start length : ℕ) → Outcome (ℕ × ℕ)
map_to_blk v start length = do
  it ← init v start
  returned (blk v it, (get_contiguous_block_count v it length).0)

-- A DeviceBlock is unmapped (`none`) or a block of the device. VnodeMapper::Map returns one with the
-- length of the range.
unfoldable pub to_device_block : ℕ → ℕ → Option ℕ
to_device_block dat_block block = if block == 0 then none else some (u32 (block + dat_block))

unfoldable pub map : Pointers → ℕ → (start length : ℕ) → Outcome (Option ℕ × ℕ)
map v dat_block start length = do
  (block, count) ← map_to_blk v start length
  returned (to_device_block dat_block block, count)

-- VnodeIterator::Advance, read-only: there is nothing to flush.
unfoldable pub advance_within : Iterator → Level → List Level → ℕ → Iterator
advance_within it level above count = record {
  file_block = u64 (it.file_block + count);
  contiguous_block_count =
      if leb it.contiguous_block_count count then 0 else it.contiguous_block_count - count;
  levels = record level { index = level.index + count } ∷ above;
}

unfoldable pub advance : Pointers → Iterator → ℕ → Outcome Iterator
advance v it count = elim it.levels [
  | [] ↦ if count == 0 then returned it else failed bad_state
  | level ∷ above ↦
      if ltb count (remaining level)
      then returned (advance_within it level above count)
      else init v (u64 (it.file_block + count))
]
