-- ===== src/Tests/Mapper.antt =====
-- A file with two direct blocks, an indirect one and one behind the doubly indirect block.
use fuchsia_minfs.Prelude.{
  ℕ, zero, suc, ◌+◌, ◌/◌, ◌≤◌, ◌<◌, ◌≡◌, ◌≢◌, ◌⊎◌, refl, [], ◌∷◌, get_or, replicate, ok, ltb, ◌==◌,
  if◌then◌else◌, arith, true,
}
use fuchsia_minfs.Prelude.Outcome.{returned, crashed}
use fuchsia_minfs.Mapper.Pointers.{
  Pointers, direct, indirect, doubly_indirect, in_file, read, get_view, max_blocks, coalesce,
  coalesce_run,
}
use fuchsia_minfs.Mapper.Coalesce.{along, coalesce-longest}
use fuchsia_minfs.Mapper.Iterator.{
  Iterator, init, blk, advance, map_to_blk, at_block, get_contiguous_block_count,
  compute_contiguous_block_count, init_indirect, initialize_indirect_level, initialize_level,
  parent_sparse, parent_in_view, level_blk, remaining,
}
use fuchsia_minfs.Mapper.Mapping.{block_at, Loads, levels_at, init-blk}
use fuchsia_minfs.Mapper.Holds.{init-holds}
use fuchsia_minfs.Mapper.Sparse.{Words}
use fuchsia_minfs.Mapper.Contiguous.{map_to_blk-returns, map_to_blk-along}
use fuchsia_minfs.Mapper.Mapping.{in_file_level}
use fuchsia_minfs.Mapper.Iterator.{to_device_block}
use fuchsia_minfs.Mapper.Indirect.{indirect_map, indirect_map-Parent, of_low}
use fuchsia_minfs.Mapper.Moves.{IsAt, advance-IsAt}

abbrev file_pointers : Pointers
file_pointers = record {
  dnum = 100 ∷ 101 ∷ replicate 14 0;
  inum = 7 ∷ replicate 30 0;
  dinum = 9 ∷ [];
  indirect_file =
      λ i. if ltb i 3 then 200 + i else if i == 63488 then 8 else if i == 65536 then 300 else 0;
  load = λ start end. ok tt;
}

file-Loads : Loads file_pointers
file-Loads start end = refl

zeros : (n i : ℕ) → ◌≡◌ {A = ℕ} (get_or (replicate n 0) i 0) 0
zeros zero i = refl
zeros (suc n) zero = refl
zeros (suc n) (suc i) = zeros n i

file-Words : Words file_pointers
unfolding read
file-Words direct zero = omega arith
file-Words direct (suc zero) = omega arith
file-Words direct (suc (suc i)) = omega (arith, zeros 14 i)
file-Words indirect zero = omega arith
file-Words indirect (suc i) = omega (arith, zeros 30 i)
file-Words doubly_indirect zero = omega arith
file-Words doubly_indirect (suc i) = omega arith
file-Words in_file i = ground arith

coalesce-longest_example :
    (0 < coalesce file_pointers.indirect_file 5)
    × (coalesce file_pointers.indirect_file 5 ≤ 5)
    × ((k : ℕ)
        → k < coalesce file_pointers.indirect_file 5
        → file_pointers.indirect_file k ≡ along (file_pointers.indirect_file 0) k)
    × ((coalesce file_pointers.indirect_file 5 ≡ 5)
        ⊎ (file_pointers.indirect_file (coalesce file_pointers.indirect_file 5)
            ≢ along (file_pointers.indirect_file 0) (coalesce file_pointers.indirect_file 5)))
unfolding coalesce coalesce_run
coalesce-longest_example =
    coalesce-longest file_pointers.indirect_file 5 (omega arith) (omega arith)

init-blk_example :
    (it : Iterator) × (init file_pointers 63504 ≡ returned it)
    × (it.file_block ≡ 63504)
    × (blk file_pointers it ≡ block_at file_pointers 63504)
init-blk_example = init-blk file_pointers 63504 file-Loads (omega arith)

init-holds_example : init file_pointers 4257808 ≢ crashed
init-holds_example = init-holds file_pointers 4257808

map_to_blk-returns_example :
    (count : ℕ) × (map_to_blk file_pointers 17 9 ≡ returned (block_at file_pointers 17, count))
    × (0 < count)
    × (count ≤ 9)
map_to_blk-returns_example =
    map_to_blk-returns file_pointers 17 9 file-Loads file-Words (omega arith) (omega arith)

two_mapped : map_to_blk file_pointers 17 9 ≡ returned (201, 2)
unfolding map_to_blk get_contiguous_block_count compute_contiguous_block_count blk init
    init_indirect initialize_indirect_level initialize_level parent_sparse parent_in_view level_blk
    remaining get_view read coalesce coalesce_run
two_mapped = refl

map_to_blk-along_example : (17 + 1 < max_blocks) × (block_at file_pointers (17 + 1) ≡ along 201 1)
map_to_blk-along_example =
    map_to_blk-along file_pointers 17 9 1 file-Loads file-Words (omega arith) two_mapped
      (omega arith)

-- From the last direct block into the doubly indirect range.
advance-IsAt_example :
    (it' : Iterator) × (advance file_pointers (at_block 15 (levels_at file_pointers 15)) 63489
      ≡ returned it')
    × IsAt file_pointers (15 + 63489) it'
    × (blk file_pointers it' ≡ block_at file_pointers (15 + 63489))
advance-IsAt_example =
    advance-IsAt file_pointers 15 63489 (at_block 15 (levels_at file_pointers 15)) file-Loads
      (record { here = refl; levels = refl }) (omega arith)

indirect_map-Parent_example :
    indirect_map file_pointers 40 (65536 / 2048) (65536 / 2048 + 1)
    ≡ returned (to_device_block 40 (level_blk file_pointers (in_file_level 63488 true)), 1)
indirect_map-Parent_example =
    indirect_map-Parent file_pointers 40 (in_file_level (5 + 65536) true)
      (in_file_level (5 / 2048 + 63488) true) file-Loads (of_low 5 (omega arith))
