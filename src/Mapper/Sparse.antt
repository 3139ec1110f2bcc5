-- ===== src/Mapper/Sparse.antt =====
-- The loop of ComputeContiguousBlockCount on unmapped blocks, one level at a time.
use fuchsia_minfs.Prelude.{
  ℕ, ◌+◌, ◌-◌, ◌*◌, ◌/◌, ◌^◌, ◌≤◌, ◌<◌, ◌≡◌, refl, true, false, not, ◌||◌, ◌==◌, ltb, if◌then◌else◌,
  List, [], ◌∷◌, sub64, u64, arith, Bool-cases, inl, inr, ==_iff, ◌∙◌, ◌⊎◌,
}
use fuchsia_minfs.Mapper.Pointers.{
  Pointers, Bank, direct, indirect, doubly_indirect, read, max_blocks, coalesce,
}
use fuchsia_minfs.Mapper.Coalesce.{along, coalesce-longest, coalesce-within}
use fuchsia_minfs.Mapper.Iterator.{
  Level, remaining, view, level_blk, new_level, next_index, blk_of, count_sparse,
}
use fuchsia_minfs.Mapper.Mapping.{block_at, indirect_block_at, double_block_at, direct_levels}

-- Every pointer is a word.
abbrev pub Words : Pointers → Type 0
Words v = (bank : Bank) (i : ℕ) → read v bank i < 2 ^ 32

-- A coalesced range of a view.
pub coalesce-view :
    (v : Pointers) (l : Level) (index left k : ℕ)
    → Words v
    → 0 < left
    → k < coalesce (λ j. view v l (index + j)) left
    → (0 < coalesce (λ j. view v l (index + j)) left)
      × (coalesce (λ j. view v l (index + j)) left ≤ left)
      × (view v l (index + k) ≡ along (view v l index) k)
coalesce-view v l index left k words pos h =
    let e : index + 0 ≡ index = omega arith in
    let c =
      coalesce-longest (λ j. view v l (index + j)) left pos
        (words l.bank (l.start + (index + 0))) in
    (c.0, c.1, rw e at (c.2 k h))

pub coalesce-view-pos :
    (v : Pointers) (l : Level) (index left : ℕ)
    → Words v
    → 0 < left
    → (0 < coalesce (λ j. view v l (index + j)) left)
      × (coalesce (λ j. view v l (index + j)) left ≤ left)
coalesce-view-pos v l index left words pos = coalesce-within (λ j. view v l (index + j)) left pos

-- What a level adds to a sparse count: its next `found` pointers, and then the count ends or all of the
-- level is sparse and the level above goes on.
pub record Step (v : Pointers) (l : Level) (above : List Level) (index multiplier count : ℕ)
    : Type 0 where
  pub found : ℕ
  pub within : found ≤ sub64 l.count index
  pub some_found : 0 < sub64 l.count index → (l.valid ≡ false) ⊎ (view v l index ≡ 0) → 0 < found
  pub sparse : (k : ℕ) → k < found → (l.valid ≡ false) ⊎ (view v l (index + k) ≡ 0)
  pub result :
      (count_sparse v (l ∷ above) index multiplier count ≡ u64 (count + found * multiplier))
      ⊎ ((found ≡ sub64 l.count index)
          × (count_sparse v (l ∷ above) index multiplier count
              ≡ count_sparse v above
                  (next_index above)
                  (u64 (multiplier * 2048))
                  (u64 (count + found * multiplier))))

pub count_sparse-Step :
    (v : Pointers) (l : Level) (above : List Level) (index multiplier count : ℕ)
    → Words v
    → count < 2 ^ 64
    → Step v l above index multiplier count
unfolding count_sparse
count_sparse-Step v l above index multiplier count words small =
    let left = sub64 l.count index in
    let z : u64 (count + 0 * multiplier) ≡ count = omega arith in
    elim (Bool-cases (left == 0 || not l.valid)) [
      | inl a ↦ record {
        found = left;
        within = omega arith;
        some_found = λ h s. h;
        sparse = λ k h. elim (Bool-cases l.valid) [ inl q ↦ absurd (ground arith) | inr q ↦ inl q ];
        result = inr (refl, rw (a, count_sparse));
      }
      | inr a ↦ elim (Bool-cases (view v l index == 0)) [
        | inr e ↦ record {
          found = 0;
          within = omega arith;
          some_found = λ h s. ground arith;
          sparse = λ k h. absurd (omega arith);
          result = inl (rw (a, e, z, count_sparse));
        }
        | inl e ↦
            let pos : 0 < left = ground arith in
            let zero_here : view v l index ≡ 0 = (==_iff (view v l index) 0).0 e in
            let some_here = coalesce-view-pos v l index left words pos in
            let zeros : (k : ℕ)
                → k < coalesce (λ j. view v l (index + j)) left
                → view v l (index + k) ≡ 0 =
              λ k h. (coalesce-view v l index left k words pos h).2 ∙ rw (zero_here, along) in
            elim (Bool-cases (ltb (coalesce (λ j. view v l (index + j)) left) left)) [
              | inl q ↦ record {
                found = coalesce (λ j. view v l (index + j)) left;
                within = some_here.1;
                some_found = λ h s. some_here.0;
                sparse = λ k h. inr (zeros k h);
                result = inl (rw (a, e, q, count_sparse));
              }
              | inr q ↦ record {
                found = coalesce (λ j. view v l (index + j)) left;
                within = some_here.1;
                some_found = λ h s. some_here.0;
                sparse = λ k h. inr (zeros k h);
                result = inr (let m = some_here.1 in ground arith, rw (a, e, q, count_sparse));
              }
            ]
      ]
    ]

-- A count of blocks from `n` on, all of them behind unmapped pointers.
abbrev pub Unmapped : Pointers → ℕ → ℕ → Type 0
Unmapped v n count =
    (0 < count) × ((k : ℕ) → k < count → (n + k < max_blocks) × (block_at v (n + k) ≡ 0))

pub block_at-direct : (v : Pointers) (n : ℕ) → n < 16 → block_at v n ≡ read v direct n
unfolding block_at
block_at-direct v n h = ground arith

pub block_at-indirect :
    (v : Pointers) (r : ℕ)
    → r < 63488
    → block_at v (16 + r) ≡ (if read v indirect (r / 2048) == 0 then 0 else v.indirect_file r)
unfolding block_at indirect_block_at
block_at-indirect v r h =
    let e : 16 + r - 16 ≡ r = omega arith in
    let a : ltb (16 + r) 16 ≡ false = ground arith in
    let c : ltb (16 + r) 63504 ≡ true = ground arith in rw (a, c, e)

pub block_at-double :
    (v : Pointers) (r : ℕ)
    → r < 2048 * 2048
    → block_at v (63504 + r) ≡ (
        if read v doubly_indirect 0 == 0
        then 0
        else if v.indirect_file (63488 + r / 2048) == 0
        then 0
        else v.indirect_file (65536 + r))
unfolding block_at double_block_at
block_at-double v r h =
    let e : 63504 + r - 63504 ≡ r = omega arith in
    let a : ltb (63504 + r) 16 ≡ false = ground arith in
    let c : ltb (63504 + r) 63504 ≡ false = ground arith in
    let z : r / 2048 / 2048 ≡ 0 = omega arith in rw (a, c, e, z)

pub count_sparse-end :
    (v : Pointers) (index multiplier count : ℕ) → count_sparse v [] index multiplier count ≡ count
unfolding count_sparse
count_sparse-end v index multiplier count = refl

-- The last step of a count, at the top level.
pub top_count :
    (v : Pointers) (l : Level) (index multiplier count : ℕ)
    → (s : Step v l [] index multiplier count)
    → count_sparse v (l ∷ []) index multiplier count ≡ u64 (count + s.found * multiplier)
top_count v l index multiplier count s = elim s.result [
  | inl e ↦ e
  | inr e ↦
      e.1 ∙ count_sparse-end v 0 (u64 (multiplier * 2048)) (u64 (count + s.found * multiplier))
]

pub here-sparse :
    (v : Pointers) (l : Level) (above : List Level)
    → blk_of v (l ∷ above) ≡ 0
    → 0 < sub64 l.count l.index
    → (l.valid ≡ false) ⊎ (view v l l.index ≡ 0)
unfolding remaining level_blk
here-sparse v l above z pos = elim (Bool-cases l.valid) [
  | inl e ↦ inr (ground arith)
  | inr e ↦ inl e
]

-- What ComputeContiguousBlockCount returns where the first block is unmapped.
abbrev pub sparse_count : Pointers → Level → List Level → ℕ
sparse_count v l above = count_sparse v (l ∷ above) l.index 1 0

pub sparse-direct :
    (v : Pointers) (n : ℕ)
    → Words v
    → n < 16
    → blk_of v (direct_levels n) ≡ 0
    → Unmapped v n (sparse_count v (new_level direct 0 16 n true) [])
sparse-direct v n words h z =
    let l = new_level direct 0 16 n true in
    let s = count_sparse-Step v l [] l.index 1 0 words (omega arith) in
    let w = s.within in
    let total : sparse_count v l [] ≡ s.found = omega (arith, top_count v l l.index 1 0 s) in
    rw total (
      s.some_found (omega arith) (here-sparse v l [] z (omega arith)),
      λ k q.
          let e : 0 + (n - 0 + k) ≡ n + k = omega arith in
          (
            omega arith,
            rw (block_at-direct v (n + k) (omega arith))
                (elim (s.sparse k q) [ inl x ↦ absurd (ground arith) | inr x ↦ rw e at x ]),
          ),
    )
