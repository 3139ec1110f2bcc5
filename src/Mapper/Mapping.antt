-- ===== src/Mapper/Mapping.antt =====
-- VnodeIterator::Init and Blk against the tree of block pointers.
use fuchsia_minfs.Prelude.{
  ℕ, ◌+◌, ◌-◌, ◌*◌, ◌/◌, ◌≤◌, ◌<◌, ◌≡◌, refl, Bool, true, false, not, ◌&&◌, ◌==◌, ltb,
  if◌then◌else◌, List, [], ◌∷◌, sub64, round_down, ok, arith, Bool-cases, inl, inr,
}
use fuchsia_minfs.Prelude.Outcome.{returned}
use fuchsia_minfs.Mapper.Pointers.{
  Pointers, Bank, direct, indirect, doubly_indirect, in_file, read, get_view, max_blocks,
}
use fuchsia_minfs.Mapper.Iterator.{
  Level, Iterator, remaining, level_blk, parent_sparse, parent_in_view, new_level, initialize_level,
  initialize_indirect_level, at_block, init_direct, init_indirect, init_doubly_indirect, init, blk,
  blk_of,
}

-- The block of the volume behind a file block, from the root of the tree down; 0 for none.
unfoldable pub indirect_block_at : Pointers → ℕ → ℕ
indirect_block_at v r = if read v indirect (r / 2048) == 0 then 0 else v.indirect_file r

unfoldable pub double_block_at : Pointers → ℕ → ℕ
double_block_at v r =
    if read v doubly_indirect (r / 2048 / 2048) == 0
    then 0
    else if v.indirect_file (63488 + r / 2048) == 0
    then 0
    else v.indirect_file (65536 + r)

unfoldable pub block_at : Pointers → ℕ → ℕ
block_at v n =
    if ltb n 16
    then read v direct n
    else if ltb n 63504
    then indirect_block_at v (n - 16)
    else double_block_at v (n - 63504)

-- The lazy buffer can read every range of the indirect file.
abbrev pub Loads : Pointers → Type 0
Loads v = (start end : ℕ) → v.load start end ≡ ok tt

-- The levels that Init sets up.
abbrev pub in_file_level : ℕ → Bool → Level
in_file_level block valid =
    new_level in_file (round_down block 2048) (round_down block 2048 + 2048) block valid

abbrev pub direct_levels : ℕ → List Level
direct_levels n = new_level direct 0 16 n true ∷ []

abbrev pub indirect_levels : Pointers → ℕ → List Level
indirect_levels v r =
    in_file_level r (not (read v indirect (r / 2048) == 0))
    ∷ new_level indirect 0 31 (r / 2048) true
    ∷ []

abbrev pub middle_valid : Pointers → ℕ → Bool
middle_valid v r = not (read v doubly_indirect (r / 2048 / 2048) == 0)

abbrev pub low_valid : Pointers → ℕ → Bool
low_valid v r = middle_valid v r && not (v.indirect_file (63488 + r / 2048) == 0)

abbrev pub double_levels : Pointers → ℕ → List Level
double_levels v r =
    in_file_level (r + 65536) (low_valid v r)
    ∷ in_file_level (r / 2048 + 63488) (middle_valid v r)
    ∷ new_level doubly_indirect 0 1 (r / 2048 / 2048) true
    ∷ []

unfoldable pub levels_at : Pointers → ℕ → List Level
levels_at v n =
    if ltb n 16
    then direct_levels n
    else if ltb n 63504
    then indirect_levels v (n - 16)
    else double_levels v (n - 63504)

-- A level that Init sets up has its index in its view.
pub new_level-parent_in_view :
    (bank : Bank) (start end block : ℕ) (valid : Bool) (above : List Level)
    → start ≤ block
    → block < end
    → parent_in_view (new_level bank start end block valid ∷ above) ≡ true
unfolding parent_in_view
new_level-parent_in_view bank start end block true above h l = ground (arith, h, l)
new_level-parent_in_view bank start end block false above h l = refl

pub in_file_level-parent_in_view :
    (block : ℕ) (valid : Bool) (above : List Level)
    → parent_in_view (in_file_level block valid ∷ above) ≡ true
in_file_level-parent_in_view block valid above =
    new_level-parent_in_view in_file (round_down block 2048) (round_down block 2048 + 2048) block
      valid above (omega arith) (omega arith)

initialize_level-returned :
    (v : Pointers) (above : List Level) (bank : Bank) (start end block : ℕ)
    → start ≤ block
    → block < end
    → get_view v bank start end ≡ returned tt
    → parent_in_view above ≡ true
    → initialize_level v above bank start end block
      ≡ returned (new_level bank start end block (not (parent_sparse v above)) ∷ above)
unfolding initialize_level
initialize_level-returned v above bank start end block h l g i = ground (arith, i)

get_view-in_file :
    (v : Pointers) (start end : ℕ) → Loads v → get_view v in_file start end ≡ returned tt
unfolding get_view
get_view-in_file v start end loads = rw (loads start end)

initialize_indirect_level-returned :
    (v : Pointers) (above : List Level) (block : ℕ)
    → Loads v
    → parent_in_view above ≡ true
    → initialize_indirect_level v above block
      ≡ returned (in_file_level block (not (parent_sparse v above)) ∷ above)
unfolding initialize_indirect_level
initialize_indirect_level-returned v above block loads i =
    initialize_level-returned v above in_file (round_down block 2048) (round_down block 2048 + 2048)
      block (omega arith) (omega arith)
      (get_view-in_file v (round_down block 2048) (round_down block 2048 + 2048) loads) i

pub initialize_level-top :
    (v : Pointers) (bank : Bank) (start end block : ℕ)
    → start ≤ block
    → block < end
    → get_view v bank start end ≡ returned tt
    → initialize_level v [] bank start end block
      ≡ returned (new_level bank start end block true ∷ [])
unfolding parent_sparse parent_in_view
initialize_level-top v bank start end block h l g =
    initialize_level-returned v [] bank start end block h l g refl

init_direct-levels :
    (v : Pointers) (n : ℕ) → n < 16 → init_direct v n ≡ returned (at_block n (direct_levels n))
unfolding init_direct get_view
init_direct-levels v n h = rw (initialize_level-top v direct 0 16 n (omega arith) h refl) refl

parent_sparse-indirect :
    (v : Pointers) (r : ℕ)
    → parent_sparse v (new_level indirect 0 31 (r / 2048) true ∷ [])
      ≡ (read v indirect (r / 2048) == 0)
unfolding parent_sparse level_blk
parent_sparse-indirect v r = let e : 0 + (r / 2048 - 0) ≡ r / 2048 = omega arith in rw e

init_indirect-levels :
    (v : Pointers) (n r : ℕ)
    → Loads v
    → r < 63488
    → init_indirect v n r ≡ returned (at_block n (indirect_levels v r))
unfolding init_indirect get_view
init_indirect-levels v n r loads h = rw (
  initialize_level-top v indirect 0 31 (r / 2048) (omega arith) (omega arith) refl,
  initialize_indirect_level-returned v (new_level indirect 0 31 (r / 2048) true ∷ []) r loads
      (new_level-parent_in_view indirect 0 31 (r / 2048) true [] (omega arith) (omega arith)),
  parent_sparse-indirect v r,
)

parent_sparse-top :
    (v : Pointers) (r : ℕ)
    → parent_sparse v (new_level doubly_indirect 0 1 (r / 2048 / 2048) true ∷ [])
      ≡ (read v doubly_indirect (r / 2048 / 2048) == 0)
unfolding parent_sparse level_blk
parent_sparse-top v r = let e : 0 + (r / 2048 / 2048 - 0) ≡ r / 2048 / 2048 = omega arith in rw e

parent_sparse-middle :
    (v : Pointers) (m : ℕ) (valid : Bool) (above : List Level)
    → not (parent_sparse v (in_file_level m valid ∷ above))
      ≡ (valid && not (v.indirect_file m == 0))
unfolding parent_sparse level_blk read
parent_sparse-middle v m true above =
    let e : round_down m 2048 + (m - round_down m 2048) ≡ m = omega arith in rw e
parent_sparse-middle v m false above = refl

init_doubly_indirect-levels :
    (v : Pointers) (n r : ℕ)
    → Loads v
    → r < 2048 * 2048
    → init_doubly_indirect v n r ≡ returned (at_block n (double_levels v r))
unfolding init_doubly_indirect get_view
init_doubly_indirect-levels v n r loads h =
    let e : r / 2048 + 63488 ≡ 63488 + r / 2048 = omega arith in
    let top = new_level doubly_indirect 0 1 (r / 2048 / 2048) true in
    let middle = in_file_level (r / 2048 + 63488) (middle_valid v r) in
    rw (
      initialize_level-top v doubly_indirect 0 1 (r / 2048 / 2048) (omega arith) (omega arith) refl,
      initialize_indirect_level-returned v (top ∷ []) (r / 2048 + 63488) loads (
          new_level-parent_in_view doubly_indirect 0 1 (r / 2048 / 2048) true [] (omega arith)
            (omega arith)),
      parent_sparse-top v r,
      initialize_indirect_level-returned v (middle ∷ top ∷ []) (r + 65536) loads
          (in_file_level-parent_in_view (r / 2048 + 63488) (middle_valid v r) (top ∷ [])),
      parent_sparse-middle v (r / 2048 + 63488) (middle_valid v r) (top ∷ []),
      e,
    )

-- With an indirect file that can be read, Init at a block that a pointer can reach returns an
-- iterator at this block, whose levels are those of the tree.
pub init-levels_at :
    (v : Pointers) (n : ℕ)
    → Loads v
    → n < max_blocks
    → init v n ≡ returned (at_block n (levels_at v n))
unfolding init levels_at
init-levels_at v n loads h = elim (Bool-cases (ltb n 16)) [
  | inl a ↦ rw a (init_direct-levels v n (ground arith))
  | inr a ↦ elim (Bool-cases (ltb n 63504)) [
    | inl c ↦ rw (a, c) (init_indirect-levels v n (n - 16) loads (ground arith))
    | inr c ↦
        let d : ltb n max_blocks ≡ true = ground arith in
        rw (a, c, d) (init_doubly_indirect-levels v n (n - 63504) loads (omega arith))
  ]
]

blk_of-direct : (v : Pointers) (n : ℕ) → n < 16 → blk_of v (direct_levels n) ≡ read v direct n
unfolding remaining level_blk
blk_of-direct v n h =
    let e : ltb 0 (sub64 (16 - 0) (n - 0)) ≡ true = ground arith in
    let e' : 0 + (n - 0) ≡ n = omega arith in rw (e, e')

pub blk_of-in_file :
    (v : Pointers) (m : ℕ) (valid : Bool) (above : List Level)
    → blk_of v (in_file_level m valid ∷ above) ≡ (if valid then v.indirect_file m else 0)
unfolding remaining level_blk read
blk_of-in_file v m valid above =
    let e : ltb 0 (sub64 (round_down m 2048 + 2048 - round_down m 2048) (m - round_down m 2048))
        ≡ true =
      ground arith in
    let e' : round_down m 2048 + (m - round_down m 2048) ≡ m = omega arith in rw (e, e')

if_not : (b : Bool) (x : ℕ) → (if not b then x else 0) ≡ (if b then 0 else x)
if_not true x = refl
if_not false x = refl

if_both :
    (b c : Bool) (x : ℕ) → (if not b && not c then x else 0) ≡ (if b then 0 else if c then 0 else x)
if_both true c x = refl
if_both false true x = refl
if_both false false x = refl

-- The block of the iterator's levels is that of the tree.
pub blk_of-levels_at : (v : Pointers) (n : ℕ) → blk_of v (levels_at v n) ≡ block_at v n
unfolding levels_at block_at indirect_block_at double_block_at
blk_of-levels_at v n = elim (Bool-cases (ltb n 16)) [
  | inl a ↦ rw a (blk_of-direct v n (ground arith))
  | inr a ↦ elim (Bool-cases (ltb n 63504)) [
    | inl c ↦
        rw
          (
            a,
            c,
            blk_of-in_file v (n - 16) (not (read v indirect ((n - 16) / 2048) == 0))
                (new_level indirect 0 31 ((n - 16) / 2048) true ∷ []),
          )
          (if_not (read v indirect ((n - 16) / 2048) == 0) (v.indirect_file (n - 16)))
    | inr c ↦
        let r = n - 63504 in
        let e : r + 65536 ≡ 65536 + r = omega arith in
        rw
          (
            a,
            c,
            blk_of-in_file v (r + 65536) (low_valid v r) (
                in_file_level (r / 2048 + 63488) (middle_valid v r)
                ∷ new_level doubly_indirect 0 1 (r / 2048 / 2048) true
                ∷ []),
            e,
          )
          (if_both (read v doubly_indirect (r / 2048 / 2048) == 0)
            (v.indirect_file (63488 + r / 2048) == 0) (v.indirect_file (65536 + r)))
  ]
]

-- With an indirect file that can be read, Init at a block that a pointer can reach returns an
-- iterator at this block, with Blk the block of the volume behind it in the tree of pointers.
pub init-blk :
    (v : Pointers) (n : ℕ)
    → Loads v
    → n < max_blocks
    → (it : Iterator) × (init v n ≡ returned it) × (it.file_block ≡ n) × (blk v it ≡ block_at v n)
unfolding blk
init-blk v n loads h =
    (at_block n (levels_at v n), init-levels_at v n loads h, refl, blk_of-levels_at v n)
