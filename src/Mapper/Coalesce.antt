-- ===== src/Mapper/Coalesce.antt =====
-- What Coalesce finds.
use fuchsia_minfs.Prelude.{
  ℕ, zero, suc, ◌+◌, ◌-◌, ◌≤◌, ◌<◌, ◌≡◌, ◌≢◌, ◌^◌, refl, false, ◌==◌, u32, arith, Bool-cases, inl,
  inr, ◌⊎◌, ==_iff, ltb,
}
use fuchsia_minfs.Mapper.Pointers.{coalesce, coalesce_sparse, coalesce_run}

coalesce_sparse-zero :
    (f : ℕ → ℕ) (left count k : ℕ)
    → (count ≤ coalesce_sparse f left count)
      × (coalesce_sparse f left count ≤ count + left)
      × (count ≤ k → k < coalesce_sparse f left count → f k ≡ 0)
      × (coalesce_sparse f left count < count + left → f (coalesce_sparse f left count) ≢ 0)
unfolding coalesce_sparse
coalesce_sparse-zero f zero count k =
    (omega arith, omega arith, λ h l. absurd (omega arith), λ l. absurd (omega arith))
coalesce_sparse-zero f (suc left) count k = elim (Bool-cases (f count == 0)) [
  | inl e ↦
      let ih = coalesce_sparse-zero f left (count + 1) k in
      rw (e, coalesce_sparse)
        (
          omega (arith, ih.0),
          omega (arith, ih.1),
          (λ h l. elim (Bool-cases (count == k)) [
            | inl q ↦ rw (← (==_iff count k).0 q) ((==_iff (f count) 0).0 e)
            | inr q ↦ ih.2 (ground arith) l
          ]),
          λ l. ih.3 (omega arith),
        )
  | inr e ↦
      rw (e, coalesce_sparse)
        (omega arith, omega arith, (λ h l. absurd (omega arith)), λ l z. ground arith)
]

-- Each block from the first on follows the one before it.
coalesce_run-next :
    (f : ℕ → ℕ) (left count k : ℕ)
    → 0 < count
    → (count ≤ coalesce_run f left count)
      × (coalesce_run f left count ≤ count + left)
      × (count ≤ k → k < coalesce_run f left count → f k ≡ u32 (f (k - 1) + 1))
      × (coalesce_run f left count < count + left
          → f (coalesce_run f left count) ≢ u32 (f (coalesce_run f left count - 1) + 1))
unfolding coalesce_run
coalesce_run-next f zero count k pos =
    (omega arith, omega arith, λ h l. absurd (omega arith), λ l. absurd (omega arith))
coalesce_run-next f (suc left) count k pos =
    elim (Bool-cases (f count == u32 (f (count - 1) + 1))) [
      | inl e ↦
          let ih = coalesce_run-next f left (count + 1) k (omega arith) in
          rw (e, coalesce_run)
            (
              omega (arith, ih.0),
              omega (arith, ih.1),
              (λ h l. elim (Bool-cases (count == k)) [
                | inl q ↦
                    rw (← (==_iff count k).0 q) ((==_iff (f count) (u32 (f (count - 1) + 1))).0 e)
                | inr q ↦ ih.2 (ground arith) l
              ]),
              λ l. ih.3 (omega arith),
            )
      | inr e ↦
          rw (e, coalesce_run)
            (omega arith, omega arith, (λ h l. absurd (omega arith)), λ l z. ground arith)
    ]

-- The block `k` of a run from block `first` on, or of a sparse range.
abbrev pub along : ℕ → ℕ → ℕ
along zero k = 0
along (suc first) k = u32 (suc first + k)

along-mapped : (first k : ℕ) → (first == 0) ≡ false → along first k ≡ u32 (first + k)
along-mapped zero k e = ground arith
along-mapped (suc first) k e = refl

coalesce_run-along :
    (f : ℕ → ℕ) (max k : ℕ) → f 0 < 2 ^ 32 → k < coalesce_run f max 1 → f k ≡ u32 (f 0 + k)
coalesce_run-along f max zero b l = let e : f 0 + 0 ≡ f 0 = omega arith in rw e (omega arith)
coalesce_run-along f max (suc k) b l =
    let ih = coalesce_run-along f max k b (omega arith) in
    let n = coalesce_run-next f max 1 (suc k) (omega arith) in
    let e : suc k - 1 ≡ k = omega arith in
    let step : f (suc k) ≡ u32 (f k + 1) = rw e at (n.2 (omega arith) l) in omega (arith, ih, step)

sparse-longest :
    (f : ℕ → ℕ) (max k : ℕ)
    → 0 < max
    → f 0 ≡ 0
    → k < coalesce_sparse f (max - 1) 1
    → (0 < coalesce_sparse f (max - 1) 1)
      × (coalesce_sparse f (max - 1) 1 ≤ max)
      × (f k ≡ 0)
      × ((coalesce_sparse f (max - 1) 1 ≡ max) ⊎ (f (coalesce_sparse f (max - 1) 1) ≢ 0))
sparse-longest f max k pos z l =
    let s = coalesce_sparse-zero f (max - 1) 1 k in
    (
      omega (arith, s.0),
      omega (arith, s.1),
      (elim (Bool-cases (k == 0)) [
        | inl q ↦ rw ((==_iff k 0).0 q) z
        | inr q ↦ s.2 (ground arith) l
      ]),
      elim (Bool-cases (ltb (coalesce_sparse f (max - 1) 1) max)) [
        | inl q ↦ inr (s.3 (ground arith))
        | inr q ↦ let m = s.1 in inl (ground arith)
      ],
    )

run-longest :
    (f : ℕ → ℕ) (max k : ℕ)
    → 0 < max
    → f 0 < 2 ^ 32
    → k < coalesce_run f (max - 1) 1
    → (0 < coalesce_run f (max - 1) 1)
      × (coalesce_run f (max - 1) 1 ≤ max)
      × (f k ≡ u32 (f 0 + k))
      × ((coalesce_run f (max - 1) 1 ≡ max)
          ⊎ (f (coalesce_run f (max - 1) 1) ≢ u32 (f 0 + coalesce_run f (max - 1) 1)))
run-longest f max k pos b l =
    let s = coalesce_run-next f (max - 1) 1 k (omega arith) in
    (
      omega (arith, s.0),
      omega (arith, s.1),
      coalesce_run-along f (max - 1) k b l,
      elim (Bool-cases (ltb (coalesce_run f (max - 1) 1) max)) [
        | inl q ↦
            let before =
              coalesce_run-along f (max - 1) (coalesce_run f (max - 1) 1 - 1) b
                (omega (arith, s.0)) in
            let z = s.0 in
            let next = s.3 (ground arith) in inr (λ e. next (omega (arith, e, before)))
        | inr q ↦ let m = s.1 in inl (ground arith)
      ],
    )

longest-at :
    (f : ℕ → ℕ) (max k : ℕ)
    → 0 < max
    → f 0 < 2 ^ 32
    → k < coalesce f max
    → (0 < coalesce f max)
      × (coalesce f max ≤ max)
      × (f k ≡ along (f 0) k)
      × ((coalesce f max ≡ max) ⊎ (f (coalesce f max) ≢ along (f 0) (coalesce f max)))
unfolding coalesce
longest-at f max k pos b l = elim (Bool-cases (f 0 == 0)) [
  | inl e ↦
      let z = (==_iff (f 0) 0).0 e in
      rw (e, coalesce, z, along) (sparse-longest f max k pos z (rw (e, coalesce) at l))
  | inr e ↦
      let s = run-longest f max k pos b (rw (e, coalesce) at l) in
      let a : (n : ℕ) → along (f 0) n ≡ u32 (f 0 + n) = λ n. along-mapped (f 0) n e in
      rw (e, coalesce, a k, a (coalesce_run f (max - 1) 1)) s
]

pub coalesce-within :
    (f : ℕ → ℕ) (max : ℕ) → 0 < max → (0 < coalesce f max) × (coalesce f max ≤ max)
unfolding coalesce
coalesce-within f max pos =
    let s = coalesce_sparse-zero f (max - 1) 1 0 in
    let r = coalesce_run-next f (max - 1) 1 0 (omega arith) in
    elim (Bool-cases (f 0 == 0)) [
      | inl e ↦ rw (e, coalesce) (omega (arith, s.0), omega (arith, s.1))
      | inr e ↦ rw (e, coalesce) (omega (arith, r.0), omega (arith, r.1))
    ]

-- Coalesce of an array of pointers below 2^32 and of at least one block returns at least one and at
-- most `max`. Each block within that count continues from the first one, or is unmapped like it, and
-- the block at the count, if it is not past the limit, does not.
pub coalesce-longest :
    (f : ℕ → ℕ) (max : ℕ)
    → 0 < max
    → f 0 < 2 ^ 32
    → (0 < coalesce f max)
      × (coalesce f max ≤ max)
      × ((k : ℕ) → k < coalesce f max → f k ≡ along (f 0) k)
      × ((coalesce f max ≡ max) ⊎ (f (coalesce f max) ≢ along (f 0) (coalesce f max)))
coalesce-longest f max pos b =
    let (some_blocks, within) = coalesce-within f max pos in
    (
      some_blocks,
      within,
      (λ k l. (longest-at f max k pos b l).2),
      (longest-at f max 0 pos b some_blocks).3,
    )
