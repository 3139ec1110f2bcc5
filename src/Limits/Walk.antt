-- ===== src/Limits/Walk.antt =====
-- GetRequiredBlockCount against a walk over the blocks of the write.
use fuchsia_minfs.Prelude.{
  ℕ, zero, suc, ◌+◌, ◌-◌, ◌*◌, ◌/◌, ◌%◌, ◌≤◌, ◌<◌, ◌≡◌, arith, ltb, ◌==◌, ◌||◌, if◌then◌else◌, ok,
  max, ap, sym, ◌∙◌, ◌^◌, u32, u64, sub64, Bool-cases, inl, inr,
}
use fuchsia_minfs.Limits.{get_required_block_count, required_direct}

-- The first file block behind a doubly indirect block, and the first that no pointer reaches.
abbrev pub double_start : ℕ
double_start = 16 + 31 * 2048

abbrev pub end_block : ℕ
end_block = 16 + 31 * 2048 + 2048 * 2048

-- What the block `n` of a walk from `first` adds: itself, its indirect block if the walk enters that
-- one with `n`, and its doubly indirect block likewise.
abbrev pub entered : ℕ → ℕ → ℕ
entered first n =
    1
    + (if ltb n 16 then 0 else if n == first || (n - 16) % 2048 == 0 then 1 else 0)
    + (if ltb n double_start
        then 0
        else if n == first || (n - double_start) % (2048 * 2048) == 0
        then 1
        else 0)

-- The blocks that a walk over `k + 1` file blocks from `first` on meets.
pub walk : ℕ → ℕ → ℕ
walk first zero = entered first first
walk first (suc k) = walk first k + entered first (first + suc k)

-- The code's sum, with no wrap-around.
abbrev closed : ℕ → ℕ → ℕ
closed first last =
    (last - first + 1)
    + (if ltb last 16 then 0 else (last - 16) / 2048 - (max first 16 - 16) / 2048 + 1)
    + (if ltb last double_start then 0 else 1)

closed-walk : (first k : ℕ) → first + k < end_block → walk first k ≡ closed first (first + k)
unfolding walk
closed-walk first zero h = ground arith
closed-walk first (suc k) h = ground (arith, closed-walk first k)

required_direct-closed :
    (first last : ℕ)
    → first ≤ last
    → last < end_block
    → required_direct first last ≡ ok (closed first last)
unfolding required_direct
required_direct-closed first last h l = ground arith

walk-between :
    (first last : ℕ)
    → first ≤ last
    → last < end_block
    → closed first last ≡ walk first (last - first)
walk-between first last h l =
    let e : first + (last - first) ≡ last = omega arith in
    sym (closed-walk first (last - first) (rw e l) ∙ ap (λ (n : ℕ). closed first n) e)

get_required_block_count_lem :
    (offset length : ℕ)
    → 0 < length
    → offset + length ≤ 2 ^ 45
    → get_required_block_count offset length 8192
      ≡ required_direct (offset / 8192) ((offset + length - 1) / 8192)
unfolding get_required_block_count
get_required_block_count_lem offset length pos fits =
    let e : u32 (offset / 8192) ≡ offset / 8192 = omega arith in
    let e' : u32 (sub64 (u64 (offset + length)) 1 / 8192) ≡ (offset + length - 1) / 8192 =
      omega arith in
    elim (Bool-cases (length == 0)) [ inl z ↦ absurd (ground arith) | inr z ↦ rw (z, e, e') ]

-- For a write of at least one byte whose last block a pointer of the inode can reach,
-- GetRequiredBlockCount returns the number of blocks that a walk over the file blocks of the write
-- meets: each file block, each indirect block when the walk enters it, and the doubly indirect one.
pub get_required_block_count-walk :
    (offset length : ℕ)
    → 0 < length
    → (offset + length - 1) / 8192 < end_block
    → get_required_block_count offset length 8192
      ≡ ok (walk (offset / 8192) ((offset + length - 1) / 8192 - offset / 8192))
get_required_block_count-walk offset length pos reach =
    get_required_block_count_lem offset length pos (omega arith)
    ∙ required_direct-closed (offset / 8192) ((offset + length - 1) / 8192) (omega arith) reach
    ∙ ap ok (walk-between (offset / 8192) ((offset + length - 1) / 8192) (omega arith) reach)
