-- ===== src/Mapper/Contiguous.antt =====
-- GetContiguousBlockCount and MapToBlk: each block of the range that they report.
use fuchsia_minfs.Prelude.{
  ℕ, ◌+◌, ◌-◌, ◌*◌, ◌/◌, ◌%◌, ◌≤◌, ◌<◌, ◌≡◌, refl, true, false, not, ◌==◌, ltb, List, [], ◌∷◌,
  sub64, arith, Bool-cases, inl, inr, ==_iff, min, sym, ap, subst, ◌∙◌,
}
use fuchsia_minfs.Prelude.Outcome.{returned}
use fuchsia_minfs.Mapper.Pointers.{
  Pointers, direct, indirect, doubly_indirect, read, max_blocks, coalesce,
}
use fuchsia_minfs.Mapper.Coalesce.{along}
use fuchsia_minfs.Mapper.Iterator.{
  Level, remaining, view, new_level, at_block, blk, blk_of, compute_contiguous_block_count,
  get_contiguous_block_count, map_to_blk,
}
use fuchsia_minfs.Mapper.Mapping.{
  block_at, Loads, in_file_level, direct_levels, indirect_levels, double_levels, middle_valid,
  low_valid, levels_at, init-levels_at, blk_of-levels_at, blk_of-in_file,
}
use fuchsia_minfs.Mapper.Sparse.{
  Words, Unmapped, block_at-direct, block_at-indirect, block_at-double, coalesce-view,
  coalesce-view-pos, sparse_count, sparse-direct,
}
use fuchsia_minfs.Mapper.Regions.{sparse-indirect, sparse-double, view-in_file}

-- A count of blocks from `n` on that follow each other, or are all unmapped.
abbrev Follows : Pointers → ℕ → ℕ → Type 0
Follows v n count =
    (0 < count)
    × ((k : ℕ) → k < count → (n + k < max_blocks) × (block_at v (n + k) ≡ along (block_at v n) k))

Unmapped-Follows :
    (v : Pointers) (n count : ℕ) → Unmapped v n count → block_at v n ≡ 0 → Follows v n count
Unmapped-Follows v n count (some, u) z = (some, λ k q. ((u k q).0, (u k q).1 ∙ sym (rw (z, along))))

-- Mapped blocks, whose pointers are those of one view.
run-Follows :
    (v : Pointers) (l : Level) (n : ℕ)
    → Words v
    → 0 < sub64 l.count l.index
    → ((k : ℕ)
        → k < sub64 l.count l.index
        → (n + k < max_blocks) × (block_at v (n + k) ≡ view v l (l.index + k)))
    → Follows v n (coalesce (λ k. view v l (l.index + k)) (sub64 l.count l.index))
run-Follows v l n words pos same =
    let c = coalesce-view-pos v l l.index (sub64 l.count l.index) words pos in
    let z : l.index + 0 ≡ l.index = omega arith in
    let z' : n + 0 ≡ n = omega arith in
    let first : block_at v n ≡ view v l l.index = rw (z, z') at (same 0 pos).1 in
    (
      c.0,
      λ k q.
          let at = same k (omega (arith, c.1)) in
          (
            at.0,
            at.1 ∙ (coalesce-view v l l.index (sub64 l.count l.index) k words pos q).2 ∙ rw first,
          ),
    )

-- Both cases of ComputeContiguousBlockCount.
compute-Follows :
    (v : Pointers) (l : Level) (above : List Level) (n : ℕ)
    → Words v
    → 0 < sub64 l.count l.index
    → blk_of v (l ∷ above) ≡ block_at v n
    → (blk_of v (l ∷ above) ≡ 0 → Unmapped v n (sparse_count v l above))
    → ((blk_of v (l ∷ above) == 0) ≡ false
        → (k : ℕ) → k < sub64 l.count l.index
        → (n + k < max_blocks) × (block_at v (n + k) ≡ view v l (l.index + k)))
    → Follows v n (compute_contiguous_block_count v (l ∷ above))
unfolding compute_contiguous_block_count remaining
compute-Follows v l above n words pos here unmapped mapped =
    elim (Bool-cases (blk_of v (l ∷ above) == 0)) [
      | inl e ↦
          let z = (==_iff (blk_of v (l ∷ above)) 0).0 e in
          rw (e, compute_contiguous_block_count)
            (Unmapped-Follows v n (sparse_count v l above) (unmapped z) (sym here ∙ z))
      | inr e ↦ rw (e, compute_contiguous_block_count) (run-Follows v l n words pos (mapped e))
    ]

compute-direct :
    (v : Pointers) (n : ℕ)
    → Words v
    → n < 16
    → blk_of v (direct_levels n) ≡ block_at v n
    → Follows v n (compute_contiguous_block_count v (direct_levels n))
compute-direct v n words h here =
    compute-Follows v (new_level direct 0 16 n true) [] n words (omega arith) here
      (λ z. sparse-direct v n words h z)
      (λ e k q.
        let a : 0 + (n - 0 + k) ≡ n + k = omega arith in
        (omega arith, rw a (block_at-direct v (n + k) (omega arith))))

mapped-indirect :
    (v : Pointers) (r k : ℕ)
    → r < 63488
    → k < 2048 - r % 2048
    → (blk_of v (indirect_levels v r) == 0) ≡ false
    → block_at v (16 + (r + k)) ≡ v.indirect_file (r + k)
mapped-indirect v r k h q e =
    let a : (r + k) / 2048 ≡ r / 2048 = omega arith in
    elim (Bool-cases (read v indirect (r / 2048) == 0)) [
      | inl x ↦ absurd (
          let b =
            blk_of-in_file v r (not (read v indirect (r / 2048) == 0))
              (new_level indirect 0 31 (r / 2048) true ∷ []) in
          ground (arith, rw x at b))
      | inr x ↦ block_at-indirect v (r + k) (omega arith) ∙ rw (a, x)
    ]

compute-indirect :
    (v : Pointers) (r : ℕ)
    → Words v
    → r < 63488
    → blk_of v (indirect_levels v r) ≡ block_at v (16 + r)
    → Follows v (16 + r) (compute_contiguous_block_count v (indirect_levels v r))
compute-indirect v r words h here =
    let valid = not (read v indirect (r / 2048) == 0) in
    compute-Follows v (in_file_level r valid) (new_level indirect 0 31 (r / 2048) true ∷ [])
      (16 + r) words (omega arith) here (λ z. sparse-indirect v r words h z)
      (λ e k q.
        let a : 16 + r + k ≡ 16 + (r + k) = omega arith in
        (omega arith, rw (a, view-in_file v r k valid) (mapped-indirect v r k h (omega arith) e)))

mapped-double :
    (v : Pointers) (r k : ℕ)
    → r < 2048 * 2048
    → k < 2048 - r % 2048
    → (blk_of v (double_levels v r) == 0) ≡ false
    → block_at v (63504 + (r + k)) ≡ v.indirect_file (65536 + (r + k))
mapped-double v r k h q e =
    let a : (r + k) / 2048 ≡ r / 2048 = omega arith in
    let z : r / 2048 / 2048 ≡ 0 = omega arith in
    let b = blk_of-in_file v (r + 65536) (low_valid v r) (
      in_file_level (r / 2048 + 63488) (middle_valid v r)
      ∷ new_level doubly_indirect 0 1 (r / 2048 / 2048) true
      ∷ []) in
    elim (Bool-cases (low_valid v r)) [
      | inl x ↦ let x' = rw z at x in block_at-double v (r + k) (omega arith) ∙ rw a (ground arith)
      | inr x ↦ absurd (ground (arith, rw x at b))
    ]

compute-double :
    (v : Pointers) (r : ℕ)
    → Words v
    → r < 2048 * 2048
    → blk_of v (double_levels v r) ≡ block_at v (63504 + r)
    → Follows v (63504 + r) (compute_contiguous_block_count v (double_levels v r))
compute-double v r words h here =
    compute-Follows v (in_file_level (r + 65536) (low_valid v r))
      (in_file_level (r / 2048 + 63488) (middle_valid v r)
        ∷ new_level doubly_indirect 0 1 (r / 2048 / 2048) true
        ∷ [])
      (63504 + r) words (omega arith) here (λ z. sparse-double v r words h z)
      (λ e k q.
        let a : 63504 + r + k ≡ 63504 + (r + k) = omega arith in
        let c : r + 65536 + k ≡ 65536 + (r + k) = omega arith in
        (
          omega arith,
          rw (a, view-in_file v (r + 65536) k (low_valid v r), c)
              (mapped-double v r k h (omega arith) e),
        ))

compute-levels_at :
    (v : Pointers) (n : ℕ)
    → Words v
    → n < max_blocks
    → Follows v n (compute_contiguous_block_count v (levels_at v n))
unfolding levels_at
compute-levels_at v n words h =
    let here = blk_of-levels_at v n in
    elim (Bool-cases (ltb n 16)) [
      | inl a ↦ rw a (compute-direct v n words (ground arith) (rw a at here))
      | inr a ↦ elim (Bool-cases (ltb n 63504)) [
        | inl c ↦
            let e : n ≡ 16 + (n - 16) = ground arith in
            rw (a, c)
              (subst
                (λ m. Follows v m (compute_contiguous_block_count v (indirect_levels v (n - 16))))
                (sym e)
                (compute-indirect v (n - 16) words (ground arith)
                  (rw (a, c) at here ∙ ap (block_at v) e)))
        | inr c ↦
            let e : n ≡ 63504 + (n - 63504) = ground arith in
            rw (a, c)
              (subst
                (λ m. Follows v m (compute_contiguous_block_count v (double_levels v (n - 63504))))
                (sym e)
                (compute-double v (n - 63504) words (omega arith)
                  (rw (a, c) at here ∙ ap (block_at v) e)))
      ]
    ]

count_at :
    (v : Pointers) (n : ℕ) (levels : List Level) (max : ℕ)
    → (get_contiguous_block_count v (at_block n levels) max).0
      ≡ min (compute_contiguous_block_count v levels) max
unfolding get_contiguous_block_count compute_contiguous_block_count
count_at v n [] max = omega arith
count_at v n (l ∷ above) max = refl

map_to_blk_lem :
    (v : Pointers) (n length : ℕ)
    → Loads v
    → n < max_blocks
    → map_to_blk v n length
      ≡ returned (block_at v n, min (compute_contiguous_block_count v (levels_at v n)) length)
unfolding map_to_blk blk
map_to_blk_lem v n length loads h =
    rw (init-levels_at v n loads h, blk_of-levels_at v n, count_at v n (levels_at v n) length)

-- With an indirect file that can be read and pointers that are words, MapToBlk of a range of at least
-- one block that starts where a pointer can reach returns the block of the volume behind its first
-- block, in the tree of pointers, and a count of at least one block and of no more than the range.
pub map_to_blk-returns :
    (v : Pointers) (start length : ℕ)
    → Loads v
    → Words v
    → start < max_blocks
    → 0 < length
    → (count : ℕ) × (map_to_blk v start length ≡ returned (block_at v start, count))
      × (0 < count)
      × (count ≤ length)
map_to_blk-returns v start length loads words h pos =
    let f = compute-levels_at v start words h in
    (
      min (compute_contiguous_block_count v (levels_at v start)) length,
      map_to_blk_lem v start length loads h,
      omega (arith, f.0),
      omega arith,
    )

-- Each block of the range that MapToBlk returns lies behind a file block that a pointer can reach: the
-- file block `k` after the start is unmapped if the start is, and else is mapped to the block `k` after
-- that of the start.
pub map_to_blk-along :
    (v : Pointers) (start length k : ℕ) {block count : ℕ}
    → Loads v
    → Words v
    → start < max_blocks
    → map_to_blk v start length ≡ returned (block, count)
    → k < count
    → (start + k < max_blocks) × (block_at v (start + k) ≡ along block k)
map_to_blk-along v start length k {block = block} {count = count} loads words h e q =
    let f = compute-levels_at v start words h in
    let e' = sym (map_to_blk_lem v start length loads h) ∙ e in
    let b : block_at v start ≡ block = cc in
    let c : min (compute_contiguous_block_count v (levels_at v start)) length ≡ count = cc in
    let at = f.1 k (omega (arith, c)) in (at.0, at.1 ∙ ap (λ x. along x k) b)
