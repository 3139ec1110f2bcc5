-- ===== src/Mapper/Indirect.antt =====
-- VnodeIndirectMapper, read-only: where the blocks of the virtual indirect file lie.
use fuchsia_minfs.Prelude.{
  ℕ, ◌+◌, ◌-◌, ◌*◌, ◌/◌, ◌<◌, ◌≡◌, true, false, ltb, leb, if◌then◌else◌, Option, min, round_down,
  arith, out_of_range,
}
use fuchsia_minfs.Prelude.Outcome.{Outcome, returned, failed, ◌>>=◌, ◌>>◌}
use fuchsia_minfs.Format.{minfs_indirect, minfs_doubly_indirect, minfs_direct_per_indirect}
use fuchsia_minfs.Mapper.Pointers.{
  Pointers, Bank, indirect, doubly_indirect, in_file, read, get_view, coalesce,
  double_indirect_view_start,
}
use fuchsia_minfs.Mapper.Coalesce.{coalesce-within}
use fuchsia_minfs.Mapper.Iterator.{Level, level_blk, to_device_block, new_level}
use fuchsia_minfs.Mapper.Mapping.{Loads, in_file_level}

abbrev double_indirect_leaf_start : ℕ
double_indirect_leaf_start = minfs_indirect + minfs_doubly_indirect

abbrev pub indirect_file_blocks : ℕ
indirect_file_blocks =
    double_indirect_leaf_start + minfs_doubly_indirect * minfs_direct_per_indirect

-- What VnodeIndirectMapper::GetView names: a bank and a range of it.
unfoldable pub indirect_range : (start end : ℕ) → Outcome (Bank × ℕ × ℕ)
indirect_range start end =
    if ltb start minfs_indirect
    then returned (indirect, start, min end minfs_indirect)
    else if ltb start double_indirect_leaf_start
    then returned (
      doubly_indirect,
      start - minfs_indirect,
      min end double_indirect_leaf_start - minfs_indirect,
    )
    else if ltb start indirect_file_blocks
    then returned (
      in_file,
      start - double_indirect_leaf_start + double_indirect_view_start,
      min end indirect_file_blocks - double_indirect_leaf_start + double_indirect_view_start,
    )
    else failed out_of_range

-- VnodeIndirectMapper::Map, which is MapForWrite with no transaction and no `allocated`.
unfoldable pub indirect_map : Pointers → ℕ → (start end : ℕ) → Outcome (Option ℕ × ℕ)
indirect_map v dat_block start end = do
  (bank, first, last) ← indirect_range start end
  get_view v bank first last
  returned (
    to_device_block dat_block (read v bank first),
    coalesce (λ k. read v bank (first + k)) (last - first),
  )

coalesce-one : (f : ℕ → ℕ) → coalesce f 1 ≡ 1
coalesce-one f = let c = coalesce-within f 1 (omega arith) in omega (arith, c.0, c.1)

-- A valid level of the indirect file, and the level above it that points to its block.
pub data Parent (v : Pointers) : Level → Level → Type 0 where
  of_indirect :
      (r : ℕ)
      → r < 63488
      → Parent v (in_file_level r true) (new_level indirect 0 31 (r / 2048) true)
  of_middle :
      (r : ℕ)
      → r < 2048 * 2048
      → Parent v
          (in_file_level (r / 2048 + 63488) true)
          (new_level doubly_indirect 0 1 (r / 2048 / 2048) true)
  of_low :
      (r : ℕ)
      → r < 2048 * 2048
      → Parent v (in_file_level (r + 65536) true) (in_file_level (r / 2048 + 63488) true)

-- With an indirect file that can be read, VnodeIndirectMapper maps the block of the virtual indirect
-- file that a level of an iterator views to the block that the level above it points to.
pub indirect_map-Parent :
    (v : Pointers) (dat_block : ℕ) (l above : Level)
    → Loads v
    → Parent v l above
    → indirect_map v dat_block (l.start / 2048) (l.start / 2048 + 1)
      ≡ returned (to_device_block dat_block (level_blk v above), 1)
unfolding indirect_map indirect_range level_blk get_view
indirect_map-Parent v dat_block l above loads (of_indirect r h) =
    let e : r / 2048 * 2048 / 2048 ≡ r / 2048 = omega arith in
    let a : ltb (r / 2048) 31 ≡ true = ground arith in
    let m : min (r / 2048 + 1) 31 ≡ r / 2048 + 1 = omega arith in
    let w : leb (r / 2048 + 1) 31 ≡ true = ground arith in
    let o : r / 2048 + 1 - r / 2048 ≡ 1 = omega arith in
    let i : 0 + (r / 2048 - 0) ≡ r / 2048 = omega arith in
    rw (e, a, m, w, o, coalesce-one (λ k. read v indirect (r / 2048 + k)), i)
indirect_map-Parent v dat_block l above loads (of_middle r h) =
    let e : round_down (r / 2048 + 63488) 2048 / 2048 ≡ 31 = omega arith in
    let z : r / 2048 / 2048 ≡ 0 = omega arith in
    rw (e, z, coalesce-one (λ k. read v doubly_indirect (0 + k)))
indirect_map-Parent v dat_block l above loads (of_low r h) =
    let e : round_down (r + 65536) 2048 / 2048 ≡ 32 + r / 2048 = omega arith in
    let a : ltb (32 + r / 2048) 31 ≡ false = ground arith in
    let a' : ltb (32 + r / 2048) 32 ≡ false = ground arith in
    let a'' : ltb (32 + r / 2048) 2080 ≡ true = ground arith in
    let s : 32 + r / 2048 - 32 + 63488 ≡ r / 2048 + 63488 = omega arith in
    let m : min (32 + r / 2048 + 1) 2080 - 32 + 63488 ≡ r / 2048 + 63488 + 1 = omega arith in
    let o : r / 2048 + 63488 + 1 - (r / 2048 + 63488) ≡ 1 = omega arith in
    let i : round_down (r / 2048 + 63488) 2048
          + (r / 2048 + 63488 - round_down (r / 2048 + 63488) 2048)
        ≡ r / 2048 + 63488 =
      omega arith in
    rw (
      e,
      a,
      a',
      a'',
      s,
      m,
      loads (r / 2048 + 63488) (r / 2048 + 63488 + 1),
      o,
      coalesce-one (λ k. read v in_file (r / 2048 + 63488 + k)),
      i,
    )
