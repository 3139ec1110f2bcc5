-- ===== src/Tests/Bits.antt =====
-- Bitmaps as lists of bits, to run the allocator on.
use native.Mathlib.Nat.{zero-add}
use native.Mathlib.Numerals.{unary_clauses}
use fuchsia_minfs.Prelude.{
  ℕ, zero, suc, ◌+◌, ◌-◌, ◌≤◌, ◌<◌, ◌≡◌, refl, ap, ◌∙◌, Bool, true, false, not, ◌&&◌, ◌==◌, leb,
  ltb, if◌then◌else◌, Option, none, some, List, [], ◌∷◌, length, get_or, arith, Bool-cases, inl,
  inr,
}
use fuchsia_minfs.Allocator.Bitmap.{Bitmaps, in_ranges, total_length}

abbrev pub bit_at : List Bool → ℕ → Bool
bit_at m i = get_or m i false

-- The bits from `i` on and before `j`, where the head of the list is bit `k`.
unfoldable pub paint : Bool → ℕ → ℕ → ℕ → List Bool → List Bool
paint v i j k [] = []
paint v i j k (x ∷ m) = (if leb i k && ltb k j then v else x) ∷ paint v i j (suc k) m

pub length-paint : (v : Bool) (i j k : ℕ) (m : List Bool) → length (paint v i j k m) ≡ length m
unfolding paint
length-paint v i j k [] = refl
length-paint v i j k (x ∷ m) = ap suc (length-paint v i j (suc k) m)

pub bit_at-paint :
    (v : Bool) (i j k : ℕ) (m : List Bool) (n : ℕ)
    → n < length m
    → bit_at (paint v i j k m) n ≡ (if leb i (k + n) && ltb (k + n) j then v else bit_at m n)
unfolding paint
bit_at-paint v i j k [] n h = absurd (omega arith)
bit_at-paint v i j k (x ∷ m) zero h = let e : k + 0 ≡ k = omega arith in rw e
bit_at-paint v i j k (x ∷ m) (suc n) h =
    let e : k + suc n ≡ suc k + n = omega arith in
    rw e (bit_at-paint v i j (suc k) m n (omega arith))

unfoldable pub find_from : ℕ → List Bool → ℕ → Option ℕ
find_from k [] start = none
find_from k (x ∷ m) start =
    let rest = find_from (suc k) m start in if leb start k && not x then some k else rest

pub find_from-some :
    (k : ℕ) (m : List Bool) (start i : ℕ)
    → find_from k m start ≡ some i
    → (start ≤ i) × (k ≤ i) × (i < k + length m) × (bit_at m (i - k) ≡ false)
unfolding find_from
find_from-some k [] start i e = cc
find_from-some k (x ∷ m) start i e = elim (Bool-cases (leb start k && not x)) [
  | inl t ↦
      let e' : some k ≡ some i = rw t at e in
      let z : i - k ≡ 0 = ground arith in
      rw z (ground arith, ground arith, ground arith, ground arith)
  | inr t ↦
      let ih = find_from-some (suc k) m start i (rw t at e) in
      let z : i - k ≡ suc (i - suc k) = omega (arith, ih.1) in
      rw z (ih.0, omega (arith, ih.1), omega (arith, ih.2), ih.3)
]

pub find_from_first :
    (k : ℕ) (m : List Bool) (start i j : ℕ)
    → find_from k m start ≡ some i
    → start ≤ j
    → k ≤ j
    → j < i
    → bit_at m (j - k) ≡ true
unfolding find_from
find_from_first k [] start i j e s h l = cc
find_from_first k (x ∷ m) start i j e s h l = elim (Bool-cases (leb start k && not x)) [
  | inl t ↦ let e' : some k ≡ some i = rw t at e in absurd (ground arith)
  | inr t ↦ elim (Bool-cases (j == k)) [
    | inl q ↦ let z : j - k ≡ 0 = ground arith in rw z (ground arith)
    | inr q ↦
        let above : suc k ≤ j = ground arith in
        let z : j - k ≡ suc (j - suc k) = omega arith in
        rw z (find_from_first (suc k) m start i j (rw t at e) s above l)
  ]
]

pub find_from-none :
    (k : ℕ) (m : List Bool) (start j : ℕ)
    → find_from k m start ≡ none
    → start ≤ j
    → k ≤ j
    → j < k + length m
    → bit_at m (j - k) ≡ true
unfolding find_from
find_from-none k [] start j e s h l = absurd (omega arith)
find_from-none k (x ∷ m) start j e s h l = elim (Bool-cases (leb start k && not x)) [
  | inl t ↦ let e' : some k ≡ none = rw t at e in absurd (ground arith)
  | inr t ↦ elim (Bool-cases (j == k)) [
    | inl q ↦ let z : j - k ≡ 0 = ground arith in rw z (ground arith)
    | inr q ↦
        let above : suc k ≤ j = ground arith in
        let z : j - k ≡ suc (j - suc k) = omega arith in
        rw z (find_from-none (suc k) m start j (rw t at e) s above (omega arith))
  ]
]

unfoldable pub pad : ℕ → List Bool → List Bool
pad zero m = []
pad (suc n) [] = false ∷ pad n []
pad (suc n) (x ∷ m) = x ∷ pad n m

pub length-pad : (n : ℕ) (m : List Bool) → length (pad n m) ≡ n
unfolding pad
length-pad zero m = refl
length-pad (suc n) [] = ap suc (length-pad n [])
length-pad (suc n) (x ∷ m) = ap suc (length-pad n m)

pub bit_at-pad : (n : ℕ) (m : List Bool) (k : ℕ) → k < n → bit_at (pad n m) k ≡ bit_at m k
unfolding pad
bit_at-pad zero m k h = absurd (omega arith)
bit_at-pad (suc n) [] zero h = refl
bit_at-pad (suc n) [] (suc k) h = bit_at-pad n [] k (omega arith)
bit_at-pad (suc n) (x ∷ m) zero h = refl
bit_at-pad (suc n) (x ∷ m) (suc k) h = bit_at-pad n m k (omega arith)

bit_at_past : (m : List Bool) (k : ℕ) → length m ≤ k → bit_at m k ≡ false
bit_at_past [] k h = refl
bit_at_past (x ∷ m) zero h = absurd (omega arith)
bit_at_past (x ∷ m) (suc k) h = bit_at_past m k (omega arith)

unfoldable pub put : Bool → ℕ → List Bool → List Bool
put v zero [] = v ∷ []
put v zero (x ∷ m) = v ∷ m
put v (suc i) [] = false ∷ put v i []
put v (suc i) (x ∷ m) = x ∷ put v i m

pub bit_at-put :
    (v : Bool) (m : List Bool) (i k : ℕ) → bit_at (put v i m) k ≡ (if i == k then v else bit_at m k)
unfolding put
bit_at-put v [] zero zero = refl
bit_at-put v [] zero (suc k) = ground arith
bit_at-put v [] (suc i) zero = ground arith
bit_at-put v [] (suc i) (suc k) = let ih = bit_at-put v [] i k in ground (arith, ih)
bit_at-put v (x ∷ m) zero zero = refl
bit_at-put v (x ∷ m) zero (suc k) = ground arith
bit_at-put v (x ∷ m) (suc i) zero = ground arith
bit_at-put v (x ∷ m) (suc i) (suc k) = let ih = bit_at-put v m i k in ground (arith, ih)

unfoldable pub popcount : List Bool → ℕ
popcount [] = 0
popcount (true ∷ m) = suc (popcount m)
popcount (false ∷ m) = popcount m

pub popcount-put-true :
    (m : List Bool) (i : ℕ)
    → popcount (put true i m) ≡ (if bit_at m i then popcount m else popcount m + 1)
unfolding popcount put
popcount-put-true [] zero = refl
popcount-put-true [] (suc i) = popcount-put-true [] i
popcount-put-true (true ∷ m) zero = refl
popcount-put-true (false ∷ m) zero = omega arith
popcount-put-true (true ∷ m) (suc i) = let ih = popcount-put-true m i in ground (arith, ih)
popcount-put-true (false ∷ m) (suc i) = popcount-put-true m i

pub popcount-put-false :
    (m : List Bool) (i : ℕ)
    → popcount m ≡ (if bit_at m i then popcount (put false i m) + 1 else popcount (put false i m))
unfolding popcount put
popcount-put-false [] zero = refl
popcount-put-false [] (suc i) = popcount-put-false [] i
popcount-put-false (true ∷ m) zero = omega arith
popcount-put-false (false ∷ m) zero = refl
popcount-put-false (true ∷ m) (suc i) = let ih = popcount-put-false m i in ground (arith, ih)
popcount-put-false (false ∷ m) (suc i) = popcount-put-false m i

unfoldable pub next : List Bool → ℕ → ℕ
next [] start = start
next (true ∷ m) zero = suc (next m zero)
next (false ∷ m) zero = zero
next (x ∷ m) (suc start) = suc (next m start)

pub next-le : (m : List Bool) (start : ℕ) → start ≤ next m start
unfolding next
next-le [] start = omega arith
next-le (true ∷ m) zero = omega arith
next-le (false ∷ m) zero = omega arith
next-le (true ∷ m) (suc start) = omega (arith, next-le m start)
next-le (false ∷ m) (suc start) = omega (arith, next-le m start)

pub next_clear : (m : List Bool) (start : ℕ) → bit_at m (next m start) ≡ false
unfolding next
next_clear [] start = refl
next_clear (true ∷ m) zero = next_clear m zero
next_clear (false ∷ m) zero = refl
next_clear (true ∷ m) (suc start) = next_clear m start
next_clear (false ∷ m) (suc start) = next_clear m start

pub next_first : (m : List Bool) (start k : ℕ) → start ≤ k → k < next m start → bit_at m k ≡ true
unfolding next
next_first [] start k h l = absurd (omega arith)
next_first (true ∷ m) zero zero h l = refl
next_first (true ∷ m) zero (suc k) h l = next_first m zero k (omega arith) (omega arith)
next_first (false ∷ m) zero k h l = absurd (omega arith)
next_first (true ∷ m) (suc start) zero h l = absurd (omega arith)
next_first (false ∷ m) (suc start) zero h l = absurd (omega arith)
next_first (true ∷ m) (suc start) (suc k) h l = next_first m start k (omega arith) (omega arith)
next_first (false ∷ m) (suc start) (suc k) h l = next_first m start k (omega arith) (omega arith)

unfoldable pub runs : ℕ → List Bool → List (ℕ × ℕ)
runs k [] = []
runs k (true ∷ m) = (k, 1) ∷ runs (suc k) m
runs k (false ∷ m) = runs (suc k) m

pub total-runs : (k : ℕ) (m : List Bool) → popcount m ≡ total_length (runs k m)
unfolding runs popcount
total-runs k [] = refl
total-runs k (true ∷ m) = omega (arith, total-runs (suc k) m)
total-runs k (false ∷ m) = total-runs (suc k) m

runs_below : (k i : ℕ) (m : List Bool) → i < k → in_ranges (runs k m) i ≡ false
unfolding runs
runs_below k i [] h = refl
runs_below k i (true ∷ m) h = let ih = runs_below (suc k) i m in ground (arith, ih)
runs_below k i (false ∷ m) h = runs_below (suc k) i m (omega arith)

pub bit_at-runs : (k : ℕ) (m : List Bool) (i : ℕ) → bit_at m i ≡ in_ranges (runs k m) (k + i)
unfolding runs
bit_at-runs k [] i = refl
bit_at-runs k (true ∷ m) zero = ground arith
bit_at-runs k (false ∷ m) zero =
    let e : k + 0 ≡ k = omega arith in
    let f = runs_below (suc k) k m (omega arith) in ground (arith, f)
bit_at-runs k (true ∷ m) (suc i) =
    let e : k + suc i ≡ suc k + i = omega arith in
    let ih = bit_at-runs (suc k) m i in rw e (ground (arith, ih))
bit_at-runs k (false ∷ m) (suc i) =
    let e : k + suc i ≡ suc k + i = omega arith in rw e (bit_at-runs (suc k) m i)

pub bit_at-grow :
    (m : List Bool) (n k : ℕ)
    → k < n
    → bit_at (pad n m) k ≡ (if ltb k (length m) then bit_at m k else false)
bit_at-grow m n k h = elim (Bool-cases (ltb k (length m))) [
  | inl t ↦ rw t (bit_at-pad n m k h)
  | inr t ↦ rw t (bit_at-pad n m k h ∙ bit_at_past m k (ground arith))
]

pub popcount_none : popcount [] ≡ 0
unfolding popcount
popcount_none = refl

-- The laws of the search, from the head of the list on.
pub find_some :
    (m : List Bool) (start i : ℕ)
    → find_from 0 m start ≡ some i
    → (start ≤ i) × (i < length m) × (bit_at m i ≡ false)
find_some m start i e =
    let x = find_from-some 0 m start i e in (x.0, omega (arith, x.2), simp unary_clauses at x.3)

pub find_first :
    (m : List Bool) (start i k : ℕ)
    → find_from 0 m start ≡ some i
    → start ≤ k
    → k < i
    → bit_at m k ≡ true
find_first m start i k e s l =
    simp unary_clauses at (find_from_first 0 m start i k e s (omega arith) l)

pub find_none :
    (m : List Bool) (start k : ℕ)
    → find_from 0 m start ≡ none
    → start ≤ k
    → k < length m
    → bit_at m k ≡ true
find_none m start k e s l =
    simp unary_clauses at (find_from-none 0 m start k e s (omega arith) (omega arith))

pub length-grow :
    (m : List Bool) (n : ℕ) (m' : List Bool) → some (pad n m) ≡ some m' → length m' ≡ n
length-grow m n m' e = cc (length-pad n m)

pub bit_at-grown :
    (m : List Bool) (n : ℕ) (m' : List Bool) (k : ℕ)
    → some (pad n m) ≡ some m'
    → k < n
    → bit_at m' k ≡ (if ltb k (length m) then bit_at m k else false)
bit_at-grown m n m' k e h = let x = bit_at-grow m n k h in ground (arith, x)

-- Growing never lacks memory here.
instance abbrev pub list_bitmaps : Bitmaps
list_bitmaps = record {
  Raw = List Bool;
  size = length;
  get_one = bit_at;
  set_range = λ m i j. paint true i j 0 m;
  clear_range = λ m i j. paint false i j 0 m;
  find_clear = λ m start. find_from 0 m start;
  grow = λ m n. some (pad n m);
  shrink = λ m n. pad n m;
  Rle = List Bool;
  empty = [];
  num_bits = popcount;
  get_bit = bit_at;
  set_bit = λ b i. put true i b;
  clear_bit = λ b i. put false i b;
  next_clear = next;
  ranges = runs 0;
  size-set_range = λ m i j. length-paint true i j 0 m;
  size-clear_range = λ m i j. length-paint false i j 0 m;
  get_one-set_range = λ m i j k h. simp zero-add at (bit_at-paint true i j 0 m k h);
  get_one-clear_range = λ m i j k h. simp zero-add at (bit_at-paint false i j 0 m k h);
  find_clear_some = find_some;
  find_clear_first = find_first;
  find_clear_none = find_none;
  size-grow = length-grow;
  get_one-grow = bit_at-grown;
  size-shrink = λ m n h. length-pad n m;
  get_one-shrink = λ m n k h l. bit_at-pad n m k l;
  num_bits-empty = popcount_none;
  get_bit-empty = λ i. refl;
  get_bit-set_bit = λ b i k. bit_at-put true b i k;
  get_bit-clear_bit = λ b i k. bit_at-put false b i k;
  num_bits-set_bit = popcount-put-true;
  num_bits-clear_bit = popcount-put-false;
  next_clear-le = next-le;
  next_clear_clear = next_clear;
  next_clear_first = next_first;
  get_bit-ranges = λ b i. simp zero-add at (bit_at-runs 0 b i);
  num_bits-ranges = total-runs 0;
}
