-- ===== src/Allocator/Locked.antt =====
-- FindLocked: what it returns, and that it returns.
use fuchsia_minfs.Prelude.{
  ℕ, zero, suc, ◌+◌, ◌-◌, ◌≤◌, ◌<◌, ◌≡◌, ◌≢◌, refl, true, false, not, ◌&&◌, ◌==◌, some, arith, inl,
  inr, All, ◌⊎◌,
}
use fuchsia_minfs.Allocator.Bitmap.{Bitmaps}
use fuchsia_minfs.Allocator.State.{
  Run, done, aborted, unfinished, Allocator, find_next_unreserved, find_loop, find_locked,
  search_map, ◌>>=◌,
}
use fuchsia_minfs.Allocator.Unreserved.{
  IsUnreserved, find_next_unreserved-Lands, find_next_unreserved-ends,
}

pub Run-cases : (r : Run ℕ) → ((n : ℕ) × (r ≡ done n)) ⊎ (r ≡ aborted) ⊎ (r ≡ unfinished)
Run-cases (done n) = inl (n, refl)
Run-cases aborted = inr (inl refl)
Run-cases unfinished = inr (inr refl)

module _ ⦃b : Bitmaps⦄ where
  open b use {size, get_one}

  -- One round that does not abort: it returns `index`, or goes on from a clear element of the map.
  abbrev Round : ℕ → Allocator → ℕ → ℕ → Run ℕ → Type 0
  Round fuel a start index r =
      (next : ℕ) × (find_next_unreserved a start ≡ done next)
      × (((index ≢ size a.map_bits) × (next ≡ index) × (r ≡ done index))
          ⊎ ((found : ℕ) × (b.find_clear a.map_bits next ≡ some found)
              × ((index ≡ size a.map_bits) ⊎ (next ≢ index))
              × (find_loop fuel a found found ≡ r)))

  after_next :
      (fuel : ℕ) (a : Allocator) (index next : ℕ) (r : Run ℕ)
      → (elim (not (index == size a.map_bits) && (next == index)) as (λ _. Run ℕ) [
        | true ↦ done index
        | false ↦ search_map a next >>= λ found. find_loop fuel a found found
      ])
        ≡ r
      → r ≢ aborted
      → ((index ≢ size a.map_bits) × (next ≡ index) × (r ≡ done index))
        ⊎ ((found : ℕ) × (b.find_clear a.map_bits next ≡ some found)
            × ((index ≡ size a.map_bits) ⊎ (next ≢ index))
            × (find_loop fuel a found found ≡ r))
  after_next fuel a index next r e k = ground arith

  find_loop-Round :
      (fuel : ℕ) (a : Allocator) (start index : ℕ) (r : Run ℕ)
      → find_loop (suc fuel) a start index ≡ r
      → r ≢ aborted
      → Round fuel a start index r
  unfolding find_loop
  find_loop-Round fuel a start index r e k = elim (Run-cases (find_next_unreserved a start)) [
    | inl (next, n) ↦ (next, n, after_next fuel a index next r (rw (n, find_loop) at e) k)
    | inr (inl n) ↦ absurd (ground arith)
    | inr (inr n) ↦ absurd (find_next_unreserved-ends a start n)
  ]

  abbrev pub IsFound : Allocator → ℕ → ℕ → Type 0
  IsFound a start i =
      (start ≤ i)
      × (i < size a.map_bits)
      × (get_one a.map_bits i ≡ false)
      × All (IsUnreserved i) a.pending_changes

  find_loop-IsFound :
      (fuel : ℕ) (a : Allocator) (start index i : ℕ)
      → (index ≡ size a.map_bits) ⊎ ((index < size a.map_bits) × (get_one a.map_bits index ≡ false))
      → find_loop fuel a start index ≡ done i
      → IsFound a start i
  unfolding find_loop
  find_loop-IsFound zero a start index i h e = cc
  find_loop-IsFound (suc fuel) a start index i h e =
      let (next, n, after) = find_loop-Round fuel a start index (done i) e (λ k. cc) in
      let lands = find_next_unreserved-Lands a start next n in
      elim after [
        | inl (ne, same, r) ↦
            let p : next ≡ i = cc in
            let all : All (IsUnreserved i) a.pending_changes = rw p at lands.0 in
            (ground (arith, lands.1), ground arith, ground arith, all)
        | inr (found, f, other, rest) ↦
            let c = b.find_clear_some a.map_bits next found f in
            let ih = find_loop-IsFound fuel a found found i (inr (c.1, c.2)) rest in
            (omega (arith, c.0, lands.1, ih.0), ih.1, ih.2, ih.3)
      ]

  find_loop-ends :
      (fuel : ℕ) (a : Allocator) (start index : ℕ)
      → ((index ≡ size a.map_bits) × (size a.map_bits - start + 1 < fuel))
        ⊎ ((index ≡ start) × (size a.map_bits - start < fuel))
      → find_loop fuel a start index ≢ unfinished
  unfolding find_loop
  find_loop-ends zero a start index h e = absurd (ground arith)
  find_loop-ends (suc fuel) a start index h e =
      let (next, n, after) = find_loop-Round fuel a start index unfinished e (λ k. cc) in
      let lands = find_next_unreserved-Lands a start next n in
      elim after [
        | inl (ne, same, r) ↦ cc
        | inr (found, f, other, rest) ↦
            let c = b.find_clear_some a.map_bits next found f in
            find_loop-ends fuel a found found (inr (refl, ground (arith, c, lands.1))) rest
      ]

  -- FindLocked ends within its fuel.
  pub find_locked-ends : (a : Allocator) → find_locked a ≢ unfinished
  unfolding find_locked
  find_locked-ends a =
      find_loop-ends (size a.map_bits + 2) a a.first_free (size a.map_bits)
        (inl (refl, omega arith))

  pub find_locked-IsFound :
      (a : Allocator) (i : ℕ) → find_locked a ≡ done i → IsFound a a.first_free i
  unfolding find_locked
  find_locked-IsFound a i e =
      find_loop-IsFound (size a.map_bits + 2) a a.first_free (size a.map_bits) i (inl refl) e
