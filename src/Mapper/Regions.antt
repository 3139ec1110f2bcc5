-- ===== src/Mapper/Regions.antt =====
-- Unmapped blocks of the indirect and of the doubly indirect range.
use fuchsia_minfs.Prelude.{
  ℕ, ◌+◌, ◌-◌, ◌*◌, ◌/◌, ◌%◌, ◌≤◌, ◌<◌, ◌≡◌, Bool, true, false, not, ◌==◌, ltb, [], ◌∷◌, u64,
  round_down, arith, Bool-cases, inl, inr, ◌⊎◌,
}
use fuchsia_minfs.Mapper.Pointers.{Pointers, indirect, doubly_indirect, read}
use fuchsia_minfs.Mapper.Iterator.{view, new_level, blk_of}
use fuchsia_minfs.Mapper.Mapping.{
  block_at, in_file_level, indirect_levels, double_levels, middle_valid, low_valid,
}
use fuchsia_minfs.Mapper.Sparse.{
  Words, count_sparse-Step, Unmapped, block_at-indirect, block_at-double, top_count, here-sparse,
  sparse_count,
}

-- The pointer of a level of the indirect file, `k` after that of `block`.
pub view-in_file :
    (v : Pointers) (block k : ℕ) (valid : Bool)
    → view v (in_file_level block valid) ((in_file_level block valid).index + k)
      ≡ v.indirect_file (block + k)
unfolding read
view-in_file v block k valid =
    let e : round_down block 2048 + (block - round_down block 2048 + k) ≡ block + k = omega arith in
    rw e

-- A file block whose indirect block is unmapped, or whose own pointer is.
low-zero :
    (v : Pointers) (r k : ℕ)
    → r < 63488
    → k < 2048 - r % 2048
    → (not (read v indirect (r / 2048) == 0) ≡ false) ⊎ (v.indirect_file (r + k) ≡ 0)
    → block_at v (16 + (r + k)) ≡ 0
low-zero v r k h l s =
    let e : (r + k) / 2048 ≡ r / 2048 = omega arith in
    rw (block_at-indirect v (r + k) (omega arith), e)
      (elim s [ inl x ↦ ground arith | inr x ↦ ground arith ])

top-zero :
    (v : Pointers) (r : ℕ) → r < 63488 → read v indirect (r / 2048) ≡ 0 → block_at v (16 + r) ≡ 0
top-zero v r h e = rw (block_at-indirect v r h, e)

pub sparse-indirect :
    (v : Pointers) (r : ℕ)
    → Words v
    → r < 63488
    → blk_of v (indirect_levels v r) ≡ 0
    → Unmapped v (16 + r) (
        sparse_count v
          (in_file_level r (not (read v indirect (r / 2048) == 0)))
          (new_level indirect 0 31 (r / 2048) true ∷ []))
sparse-indirect v r words h z =
    let top = new_level indirect 0 31 (r / 2048) true in
    let valid = not (read v indirect (r / 2048) == 0) in
    let low = in_file_level r valid in
    let s = count_sparse-Step v low (top ∷ []) low.index 1 0 words (omega arith) in
    let w = s.within in
    let some = s.some_found (omega arith) (here-sparse v low (top ∷ []) z (omega arith)) in
    let zero_low : (k : ℕ) → k < s.found → block_at v (16 + (r + k)) ≡ 0 =
      λ k q. low-zero v r k h (omega arith) (rw (view-in_file v r k valid) at (s.sparse k q)) in
    elim s.result [
      | inl e ↦
          let total : sparse_count v low (top ∷ []) ≡ s.found = omega (arith, e) in
          rw total (
            some,
            λ k q.
                let a : 16 + r + k ≡ 16 + (r + k) = omega arith in
                (omega arith, rw a (zero_low k q)),
          )
      | inr e ↦
          let s' =
            count_sparse-Step v top [] (top.index + 1) (u64 (1 * 2048)) (u64 (0 + s.found * 1))
              words (omega arith) in
          let w' = s'.within in
          let total : sparse_count v low (top ∷ []) ≡ s.found + s'.found * 2048 = omega (
            arith,
            e.1,
            top_count v top (top.index + 1) (u64 (1 * 2048)) (u64 (0 + s.found * 1)) s',
          ) in
          let full = e.0 in
          rw total (
            omega arith,
            λ k q.
                let a : 16 + r + k ≡ 16 + (r + k) = omega arith in
                (
                  omega arith,
                  rw a (elim (Bool-cases (ltb k s.found)) [
                    | inl x ↦ zero_low k (ground arith)
                    | inr x ↦
                        let y : s.found ≤ k = ground arith in
                        let j = (k - s.found) / 2048 in
                        top-zero v (r + k) (omega arith) (elim (s'.sparse j (omega arith)) [
                          | inl bad ↦ absurd (ground arith)
                          | inr at ↦
                              let i : 0 + (r / 2048 - 0 + 1 + j) ≡ (r + k) / 2048 = omega arith in
                              rw i at at
                        ])
                  ]),
                ),
          )
    ]

-- A file block of the doubly indirect range of which some pointer on the way is unmapped.
double-zero :
    (v : Pointers) (r : ℕ)
    → r < 2048 * 2048
    → (read v doubly_indirect 0 ≡ 0)
      ⊎ ((v.indirect_file (63488 + r / 2048) ≡ 0) ⊎ (v.indirect_file (65536 + r) ≡ 0))
    → block_at v (63504 + r) ≡ 0
double-zero v r h s =
    rw (block_at-double v r h)
      (elim s [ inl x ↦ ground arith | inr (inl x) ↦ ground arith | inr (inr x) ↦ ground arith ])

double-low :
    (v : Pointers) (r k : ℕ)
    → r < 2048 * 2048
    → k < 2048 - r % 2048
    → (low_valid v r ≡ false) ⊎ (v.indirect_file (r + 65536 + k) ≡ 0)
    → block_at v (63504 + (r + k)) ≡ 0
double-low v r k h l s =
    let e : (r + k) / 2048 ≡ r / 2048 = omega arith in
    let z : r / 2048 / 2048 ≡ 0 = omega arith in
    let a : r + 65536 + k ≡ 65536 + (r + k) = omega arith in
    double-zero v (r + k) (omega arith) (elim s [
      | inl x ↦ elim (Bool-cases (read v doubly_indirect 0 == 0)) [
        | inl y ↦ inl (ground arith)
        | inr y ↦ inr (inl (rw e (let x' = rw (z, y) at x in ground arith)))
      ]
      | inr x ↦ inr (inr (rw a at x))
    ])

double-middle :
    (v : Pointers) (r x j : ℕ)
    → r < 2048 * 2048
    → x < 2048 * 2048
    → x / 2048 ≡ r / 2048 + 1 + j
    → (middle_valid v r ≡ false) ⊎ (v.indirect_file (r / 2048 + 63488 + (1 + j)) ≡ 0)
    → block_at v (63504 + x) ≡ 0
double-middle v r x j h l q s =
    let z : r / 2048 / 2048 ≡ 0 = omega arith in
    let a : r / 2048 + 63488 + (1 + j) ≡ 63488 + x / 2048 = omega arith in
    double-zero v x l
      (elim s [ inl y ↦ inl (let y' = rw z at y in ground arith) | inr y ↦ inr (inl (rw a at y)) ])

pub sparse-double :
    (v : Pointers) (r : ℕ)
    → Words v
    → r < 2048 * 2048
    → blk_of v (double_levels v r) ≡ 0
    → Unmapped v (63504 + r) (
        sparse_count v (in_file_level (r + 65536) (low_valid v r)) (
          in_file_level (r / 2048 + 63488) (middle_valid v r)
          ∷ new_level doubly_indirect 0 1 (r / 2048 / 2048) true
          ∷ []))
sparse-double v r words h z =
    let top = new_level doubly_indirect 0 1 (r / 2048 / 2048) true in
    let middle = in_file_level (r / 2048 + 63488) (middle_valid v r) in
    let low = in_file_level (r + 65536) (low_valid v r) in
    let above = middle ∷ top ∷ [] in
    let s = count_sparse-Step v low above low.index 1 0 words (omega arith) in
    let w = s.within in
    let some = s.some_found (omega arith) (here-sparse v low above z (omega arith)) in
    let zero_low : (k : ℕ) → k < s.found → block_at v (63504 + (r + k)) ≡ 0 = λ k q.
      double-low v r k h (omega arith)
        (rw (view-in_file v (r + 65536) k (low_valid v r)) at (s.sparse k q)) in
    elim s.result [
      | inl e ↦
          let total : sparse_count v low above ≡ s.found = omega (arith, e) in
          rw total (
            some,
            λ k q.
                let a : 63504 + r + k ≡ 63504 + (r + k) = omega arith in
                (omega arith, rw a (zero_low k q)),
          )
      | inr e ↦
          let full = e.0 in
          let count = u64 (0 + s.found * 1) in
          let multiplier = u64 (1 * 2048) in
          let s' =
            count_sparse-Step v middle (top ∷ []) (middle.index + 1) multiplier count words
              (omega arith) in
          let w' = s'.within in
          let total : sparse_count v low above ≡ s.found + s'.found * 2048 = elim s'.result [
            | inl e' ↦ omega (arith, e.1, e')
            | inr e' ↦
                let count' = u64 (count + s'.found * multiplier) in
                let multiplier' = u64 (multiplier * 2048) in
                let s'' =
                  count_sparse-Step v top [] (top.index + 1) multiplier' count' words
                    (omega arith) in
                let w'' : s''.found ≡ 0 = let x = s''.within in omega arith in
                omega
                  (arith, e.1, e'.1, top_count v top (top.index + 1) multiplier' count' s'', w'')
          ] in
          rw total (
            omega arith,
            λ k q.
                let a : 63504 + r + k ≡ 63504 + (r + k) = omega arith in
                (
                  omega arith,
                  rw a (elim (Bool-cases (ltb k s.found)) [
                    | inl x ↦ zero_low k (ground arith)
                    | inr x ↦
                        let y : s.found ≤ k = ground arith in
                        let j = (k - s.found) / 2048 in
                        let i : middle.index + 1 + j ≡ middle.index + (1 + j) = omega arith in
                        double-middle v r (r + k) j h (omega arith) (omega arith) (
                          rw (i, view-in_file v (r / 2048 + 63488) (1 + j) (middle_valid v r)) at
                            (s'.sparse j (omega arith)))
                  ]),
                ),
          )
    ]
