-- ===== src/Mapper/Moves.antt =====
-- VnodeIterator::Advance.
use fuchsia_minfs.Prelude.{
  ℕ, ◌+◌, ◌-◌, ◌/◌, ◌%◌, ◌≤◌, ◌<◌, ◌≡◌, ◌≢◌, ◌⊎◌, refl, Bool, true, false, not, ◌&&◌, ◌==◌, ltb,
  List, [], ◌∷◌, sub64, u64, round_down, arith, Bool-cases, inl, inr, sym, ap, ◌∙◌,
}
use fuchsia_minfs.Prelude.Outcome.{returned}
use fuchsia_minfs.Mapper.Pointers.{
  Pointers, Bank, direct, indirect, doubly_indirect, in_file, read, max_blocks,
}
use fuchsia_minfs.Mapper.Iterator.{
  Level, Iterator, remaining, new_level, at_block, blk, advance_within, advance,
}
use fuchsia_minfs.Mapper.Mapping.{
  block_at, Loads, in_file_level, direct_levels, indirect_levels, double_levels, middle_valid,
  low_valid, levels_at, init-levels_at, blk_of-levels_at,
}

-- The iterator is at the file block, with the levels of the tree for it.
pub record IsAt (v : Pointers) (n : ℕ) (it : Iterator) : Type 0 where
  pub here : it.file_block ≡ n
  pub levels : it.levels ≡ levels_at v n

-- The first level, moved on within its view.
abbrev moved : Level → ℕ → Level
moved l count = record l { index = l.index + count }

new_level-moved :
    (bank : Bank) (start end block count : ℕ) (valid : Bool)
    → start ≤ block
    → new_level bank start end (block + count) valid
      ≡ moved (new_level bank start end block valid) count
new_level-moved bank start end block count valid h =
    let e : block + count - start ≡ block - start + count = omega arith in rw e

in_file_level-moved :
    (block count : ℕ) (valid : Bool)
    → count < 2048 - block % 2048
    → in_file_level (block + count) valid ≡ moved (in_file_level block valid) count
in_file_level-moved block count valid h =
    let e : round_down (block + count) 2048 ≡ round_down block 2048 = omega arith in
    rw e (
      new_level-moved in_file (round_down block 2048) (round_down block 2048 + 2048) block count
        valid (omega arith))

direct_levels-moved :
    (n count : ℕ) → direct_levels (n + count) ≡ moved (new_level direct 0 16 n true) count ∷ []
direct_levels-moved n count = rw (new_level-moved direct 0 16 n count true (omega arith))

indirect_levels-moved :
    (v : Pointers) (r count : ℕ)
    → count < 2048 - r % 2048
    → indirect_levels v (r + count)
      ≡ moved (in_file_level r (not (read v indirect (r / 2048) == 0))) count
        ∷ new_level indirect 0 31 (r / 2048) true
        ∷ []
indirect_levels-moved v r count h =
    let e : (r + count) / 2048 ≡ r / 2048 = omega arith in
    ap
      (λ x.
        in_file_level (r + count) (not (read v indirect x == 0))
        ∷ new_level indirect 0 31 x true
        ∷ [])
      e
    ∙ ap (λ l. l ∷ new_level indirect 0 31 (r / 2048) true ∷ [])
        (in_file_level-moved r count (not (read v indirect (r / 2048) == 0)) h)

double_levels-moved :
    (v : Pointers) (r count : ℕ)
    → count < 2048 - r % 2048
    → double_levels v (r + count)
      ≡ moved (in_file_level (r + 65536) (low_valid v r)) count
        ∷ in_file_level (r / 2048 + 63488) (middle_valid v r)
        ∷ new_level doubly_indirect 0 1 (r / 2048 / 2048) true
        ∷ []
double_levels-moved v r count h =
    let e : (r + count) / 2048 ≡ r / 2048 = omega arith in
    let a : r + count + 65536 ≡ r + 65536 + count = omega arith in
    let valid : ℕ → Bool =
      λ x. not (read v doubly_indirect (x / 2048) == 0) && not (v.indirect_file (63488 + x) == 0) in
    let above : ℕ → List Level = λ x.
      in_file_level (x + 63488) (not (read v doubly_indirect (x / 2048) == 0))
      ∷ new_level doubly_indirect 0 1 (x / 2048) true
      ∷ [] in
    ap (λ x. in_file_level (r + count + 65536) (valid x) ∷ above x) e
    ∙ ap (λ y. in_file_level y (valid (r / 2048)) ∷ above (r / 2048)) a
    ∙ ap (λ l. l ∷ above (r / 2048))
        (in_file_level-moved (r + 65536) count (valid (r / 2048)) (omega arith))

-- Advance within the first level of an iterator that is at a block.
levels_at-moved :
    (v : Pointers) (n count : ℕ) (l : Level) (above : List Level)
    → n < max_blocks
    → levels_at v n ≡ l ∷ above
    → count < sub64 l.count l.index
    → levels_at v (n + count) ≡ moved l count ∷ above
unfolding levels_at
levels_at-moved v n count l above h e q = elim (Bool-cases (ltb n 16)) [
  | inl a ↦
      let e' = rw a at e in
      let first : new_level direct 0 16 n true ≡ l = cc in
      let rest : [] ≡ above = cc in
      let q' = rw (← first) at q in
      let a' : ltb (n + count) 16 ≡ true = ground arith in
      rw (a', ← first, ← rest) (direct_levels-moved n count)
  | inr a ↦ elim (Bool-cases (ltb n 63504)) [
    | inl c ↦
        let e' = rw (a, c) at e in
        let r = n - 16 in
        let first : in_file_level r (not (read v indirect (r / 2048) == 0)) ≡ l = cc in
        let rest : new_level indirect 0 31 (r / 2048) true ∷ [] ≡ above = cc in
        let q' = rw (← first) at q in
        let a' : ltb (n + count) 16 ≡ false = ground arith in
        let c' : ltb (n + count) 63504 ≡ true = ground arith in
        let m : n + count - 16 ≡ r + count = ground arith in
        rw (a', c', m, ← first, ← rest) (indirect_levels-moved v r count (omega arith))
    | inr c ↦
        let e' = rw (a, c) at e in
        let r = n - 63504 in
        let first : in_file_level (r + 65536) (low_valid v r) ≡ l = cc in
        let rest : in_file_level (r / 2048 + 63488) (middle_valid v r)
              ∷ new_level doubly_indirect 0 1 (r / 2048 / 2048) true
              ∷ []
            ≡ above =
          cc in
        let q' = rw (← first) at q in
        let a' : ltb (n + count) 16 ≡ false = ground arith in
        let c' : ltb (n + count) 63504 ≡ false = ground arith in
        let m : n + count - 63504 ≡ r + count = ground arith in
        rw (a', c', m, ← first, ← rest) (double_levels-moved v r count (omega arith))
  ]
]

advance_within-IsAt :
    (v : Pointers) (n count : ℕ) (it : Iterator) (l : Level) (above : List Level)
    → n + count < max_blocks
    → it.file_block ≡ n
    → levels_at v n ≡ l ∷ above
    → count < sub64 l.count l.index
    → IsAt v (n + count) (advance_within it l above count)
unfolding advance_within
advance_within-IsAt v n count it l above h here e q = record {
  here = rw here (omega arith);
  levels = sym (levels_at-moved v n count l above (omega arith) e q);
}

levels_at-some : (v : Pointers) (n : ℕ) → levels_at v n ≢ []
unfolding levels_at
levels_at-some v n e = elim (Bool-cases (ltb n 16)) [
  | inl a ↦ let e' = rw a at e in cc
  | inr a ↦ elim (Bool-cases (ltb n 63504)) [
    | inl c ↦ let e' = rw (a, c) at e in cc
    | inr c ↦ let e' = rw (a, c) at e in cc
  ]
]

List-cases : {A : Type 0} (xs : List A) → (xs ≡ []) ⊎ ((x : A) × (rest : List A) × (xs ≡ x ∷ rest))
List-cases [] = inl refl
List-cases (x ∷ rest) = inr (x, rest, refl)

-- Advance of a read-only iterator that is at a block, with an indirect file that can be read, by a
-- count that ends where a pointer can reach, returns an iterator at the block `count` after it, with
-- Blk the block of the volume behind that one.
pub advance-IsAt :
    (v : Pointers) (n count : ℕ) (it : Iterator)
    → Loads v
    → IsAt v n it
    → n + count < max_blocks
    → (it' : Iterator) × (advance v it count ≡ returned it')
      × IsAt v (n + count) it'
      × (blk v it' ≡ block_at v (n + count))
unfolding advance blk remaining
advance-IsAt v n count it loads at h = elim (List-cases it.levels) [
  | inl e ↦ absurd (levels_at-some v n (sym at.levels ∙ e))
  | inr (l, above, e) ↦ elim (Bool-cases (ltb count (sub64 l.count l.index))) [
    | inl q ↦
        let m =
          advance_within-IsAt v n count it l above h at.here (sym at.levels ∙ e) (ground arith) in
        (
          advance_within it l above count,
          rw (e, q),
          m,
          rw m.levels (blk_of-levels_at v (n + count)),
        )
    | inr q ↦
        let wrap : u64 (it.file_block + count) ≡ n + count = rw at.here (omega arith) in
        (
          at_block (n + count) (levels_at v (n + count)),
          rw (e, q, wrap) (init-levels_at v (n + count) loads h),
          record { here = refl; levels = refl },
          blk_of-levels_at v (n + count),
        )
  ]
]
