-- ===== src/Allocator/Bitmap.antt =====
-- The bitmaps of Zircon's `bitmap` library, which is not part of this repository: the allocator takes
-- them as a parameter, RawBitmapGeneric for the map and RleBitmap for the pending changes. The laws
-- are those that the library documents.
use fuchsia_minfs.Prelude.{
  ℕ, ◌+◌, ◌≤◌, ◌<◌, ◌≡◌, Bool, true, false, ◌&&◌, ◌||◌, ◌==◌, leb, ltb, if◌then◌else◌, Option, none,
  some, List, [], ◌∷◌,
}

-- Whether a bit lies in one of the ranges, each with its offset and its length.
abbrev pub in_ranges : List (ℕ × ℕ) → ℕ → Bool
in_ranges [] i = false
in_ranges ((off, len) ∷ r) i = (leb off i && ltb i (off + len)) || in_ranges r i

abbrev pub total_length : List (ℕ × ℕ) → ℕ
total_length [] = 0
total_length ((off, len) ∷ r) = len + total_length r

pub record Bitmaps : Type 1 where
  -- RawBitmapGeneric.
  pub Raw : Type 0
  pub size : Raw → ℕ
  pub get_one : Raw → ℕ → Bool
  -- Set(off, end) and Clear(off, end).
  pub set_range : Raw → ℕ → ℕ → Raw
  pub clear_range : Raw → ℕ → ℕ → Raw
  -- Find(false, start, size(), 1).
  pub find_clear : Raw → ℕ → Option ℕ
  -- Grow(size), which may lack memory, and Shrink(size).
  pub grow : Raw → ℕ → Option Raw
  pub shrink : Raw → ℕ → Raw
  -- RleBitmap.
  pub Rle : Type 0
  pub empty : Rle
  pub num_bits : Rle → ℕ
  pub get_bit : Rle → ℕ → Bool
  pub set_bit : Rle → ℕ → Rle
  pub clear_bit : Rle → ℕ → Rle
  -- Find(false, start, SIZE_MAX, 1).
  pub next_clear : Rle → ℕ → ℕ
  -- begin() to end().
  pub ranges : Rle → List (ℕ × ℕ)
  -- The laws.
  pub size-set_range : (m : Raw) (i j : ℕ) → size (set_range m i j) ≡ size m
  pub size-clear_range : (m : Raw) (i j : ℕ) → size (clear_range m i j) ≡ size m
  pub get_one-set_range :
      (m : Raw) (i j k : ℕ)
      → k < size m
      → get_one (set_range m i j) k ≡ (if leb i k && ltb k j then true else get_one m k)
  pub get_one-clear_range :
      (m : Raw) (i j k : ℕ)
      → k < size m
      → get_one (clear_range m i j) k ≡ (if leb i k && ltb k j then false else get_one m k)
  pub find_clear_some :
      (m : Raw) (start i : ℕ)
      → find_clear m start ≡ some i
      → (start ≤ i) × (i < size m) × (get_one m i ≡ false)
  pub find_clear_first :
      (m : Raw) (start i k : ℕ)
      → find_clear m start ≡ some i
      → start ≤ k
      → k < i
      → get_one m k ≡ true
  pub find_clear_none :
      (m : Raw) (start k : ℕ)
      → find_clear m start ≡ none
      → start ≤ k
      → k < size m
      → get_one m k ≡ true
  pub size-grow : (m : Raw) (n : ℕ) (m' : Raw) → grow m n ≡ some m' → size m' ≡ n
  pub get_one-grow :
      (m : Raw) (n : ℕ) (m' : Raw) (k : ℕ)
      → grow m n ≡ some m'
      → k < n
      → get_one m' k ≡ (if ltb k (size m) then get_one m k else false)
  pub size-shrink : (m : Raw) (n : ℕ) → n ≤ size m → size (shrink m n) ≡ n
  pub get_one-shrink :
      (m : Raw) (n k : ℕ) → n ≤ size m → k < n → get_one (shrink m n) k ≡ get_one m k
  pub num_bits-empty : num_bits empty ≡ 0
  pub get_bit-empty : (i : ℕ) → get_bit empty i ≡ false
  pub get_bit-set_bit :
      (b : Rle) (i k : ℕ) → get_bit (set_bit b i) k ≡ (if i == k then true else get_bit b k)
  pub get_bit-clear_bit :
      (b : Rle) (i k : ℕ) → get_bit (clear_bit b i) k ≡ (if i == k then false else get_bit b k)
  pub num_bits-set_bit :
      (b : Rle) (i : ℕ)
      → num_bits (set_bit b i) ≡ (if get_bit b i then num_bits b else num_bits b + 1)
  pub num_bits-clear_bit :
      (b : Rle) (i : ℕ)
      → num_bits b
        ≡ (if get_bit b i then num_bits (clear_bit b i) + 1 else num_bits (clear_bit b i))
  pub next_clear-le : (b : Rle) (start : ℕ) → start ≤ next_clear b start
  pub next_clear_clear : (b : Rle) (start : ℕ) → get_bit b (next_clear b start) ≡ false
  pub next_clear_first :
      (b : Rle) (start k : ℕ) → start ≤ k → k < next_clear b start → get_bit b k ≡ true
  pub get_bit-ranges : (b : Rle) (i : ℕ) → get_bit b i ≡ in_ranges (ranges b) i
  pub num_bits-ranges : (b : Rle) → num_bits b ≡ total_length (ranges b)
