-- ===== src/Fsck/Nth.antt =====
-- GetInodeNthBno against the tree of block pointers.
use fuchsia_minfs.Prelude.{
  ℕ, ◌+◌, ◌-◌, ◌*◌, ◌/◌, ◌%◌, ◌<◌, ◌≤◌, ◌≡◌, ◌≢◌, refl, sym, ◌∙◌, ap, true, false, ◌==◌, ltb,
  lt→ltb, ◌⊎◌, get_or, Result, ok, err, out_of_range, arith, Bool-cases, ==_iff, inl, inr,
}
use fuchsia_minfs.Format.{Inode}
use fuchsia_minfs.Mapper.Pointers.{Pointers, read, max_blocks}
use fuchsia_minfs.Mapper.Mapping.{block_at}
use fuchsia_minfs.Fsck.State.{Image}
use fuchsia_minfs.Fsck.Tree.{
  pointers_of, Reads, block_at-indirect, block_at-double, indirect-mapped, inner-mapped,
  skip-indirect, skip-double, skip-inner,
}
use fuchsia_minfs.Fsck.Files.{
  Cached, Cache, NthBno, read_cached, nth_of_indirect, nth_indirect, nth_of_double, nth_double,
  get_inode_nth_bno,
}

-- A cached block holds what the volume holds.
abbrev pub Coherent : (ℕ → ℕ → ℕ) → Cached → Type 0
Coherent d cached = (cached.number ≡ 0) ⊎ (cached.contents ≡ d cached.number)

pub record IsCoherent (d : ℕ → ℕ → ℕ) (cache : Cache) : Type 0 where
  pub of_indirect : Coherent d cache.indirect_cache
  pub of_doubly : Coherent d cache.doubly_cache

-- The entry that is found, and that no block between it and the next one is mapped.
pub record Found (v : Pointers) (n : ℕ) (nth : NthBno) : Type 0 where
  pub block : nth.bno ≡ block_at v n
  pub later : n < nth.next_n
  pub bounded : nth.next_n ≤ max_blocks
  pub skipped : (k : ℕ) → n < k → k < nth.next_n → block_at v k ≡ 0

-- The result is the entry of the tree.
abbrev pub Finds : (ℕ → ℕ → ℕ) → Pointers → ℕ → Result (NthBno × Cache) → Type 0
Finds d v n r =
    (nth : NthBno) × (cache : Cache) × (r ≡ ok (nth, cache)) × Found v n nth × IsCoherent d cache

module _ (im : Image) (d : ℕ → ℕ → ℕ) (reads : Reads im d) where
  same :
      (cached : Cached) (bno : ℕ)
      → cached.number ≡ bno
      → Coherent d cached
      → bno ≢ 0
      → cached.contents ≡ d bno
  same cached bno q (inl z) n = absurd (n (sym q ∙ z))
  same cached bno q (inr e) n = e ∙ ap d q

  read_cached-Coherent :
      (cached : Cached) (bno : ℕ)
      → Coherent d cached
      → bno ≢ 0
      → (c : Cached) × (read_cached im cached bno ≡ ok c) × (c.contents ≡ d bno) × Coherent d c
  unfolding read_cached
  read_cached-Coherent cached bno h n = elim (Bool-cases (cached.number == bno)) [
    | inl e ↦
        let q : cached.number ≡ bno = (==_iff cached.number bno).0 e in
        (cached, rw e refl, same cached bno q h n, h)
    | inr e ↦ (record { number = bno; contents = d bno }, rw (e, reads bno) refl, refl, inr refl)
  ]

  nth_of_indirect-Finds :
      (v : Pointers) (n : ℕ) (cache : Cache) (ibno j next_n : ℕ)
      → IsCoherent d cache
      → ibno ≢ 0
      → d ibno j ≡ block_at v n
      → next_n ≡ n + 1
      → n < max_blocks
      → Finds d v n (nth_of_indirect im cache ibno j next_n)
  unfolding nth_of_indirect
  nth_of_indirect-Finds v n cache ibno j next_n h nz e q b =
      let (c, r, same, coherent) =
        read_cached-Coherent cache.indirect_cache ibno h.of_indirect nz in
      (
        record { bno = c.contents j; next_n = next_n },
        record cache { indirect_cache = c },
        rw r refl,
        record {
          block = ap (λ f. f j) same ∙ e;
          later = omega (arith, q);
          bounded = omega (arith, q);
          skipped = λ k lo hi. absurd (omega (arith, q, lo, hi));
        },
        record { of_indirect = coherent; of_doubly = h.of_doubly },
      )

-- An entry that is not mapped, with those up to the next one.
skipped-Found :
    (v : Pointers) (n next_n : ℕ)
    → n < next_n
    → next_n ≤ max_blocks
    → ((k : ℕ) → n ≤ k → k < next_n → block_at v k ≡ 0)
    → Found v n (record { bno = 0; next_n = next_n })
skipped-Found v n next_n lo hi skip = record {
  block = sym (skip n (omega arith) lo);
  later = lo;
  bounded = hi;
  skipped = λ k a b. skip k (omega (arith, a)) b;
}

module _ (im : Image) (d : ℕ → ℕ → ℕ) (reads : Reads im d) (inode : Inode) where
  abbrev v : Pointers
  v = pointers_of d inode

  nth_indirect-Finds :
      (cache : Cache) (n : ℕ)
      → IsCoherent d cache
      → 16 ≤ n
      → n < 63504
      → Finds d v n (nth_indirect im inode cache (n - 16))
  unfolding nth_indirect
  nth_indirect-Finds cache n h lo hi =
      let at : ℕ = get_or inode.inum ((n - 16) / 2048) 0 in
      elim (Bool-cases (at == 0)) [
        | inl e ↦ (
          record { bno = 0; next_n = 16 + ((n - 16) / 2048 + 1) * 2048 },
          cache,
          rw e refl,
          skipped-Found v n (16 + ((n - 16) / 2048 + 1) * 2048) (omega arith) (omega arith)
              (λ k. skip-indirect d inode n k lo hi ((==_iff at 0).0 e)),
          h,
        )
        | inr e ↦
            let nz : at ≢ 0 = ground arith in
            rw e (
              nth_of_indirect-Finds im d reads v n cache at ((n - 16) % 2048) (16 + (n - 16) + 1) h
                nz
                (sym
                  (block_at-indirect v n lo hi ∙ indirect-mapped d inode (n - 16) (omega arith) nz))
                (omega arith) (omega arith))
      ]

  nth_of_double-Finds :
      (cache : Cache) (n : ℕ)
      → IsCoherent d cache
      → 63504 ≤ n
      → n < max_blocks
      → get_or inode.dinum 0 0 ≢ 0
      → Finds d v n (nth_of_double im cache 0 (get_or inode.dinum 0 0) (n - 63504))
  unfolding nth_of_double
  nth_of_double-Finds cache n h lo hi nz =
      let dib : ℕ = get_or inode.dinum 0 0 in
      let (c, r, same, coherent) =
        read_cached-Coherent im d reads cache.doubly_cache dib h.of_doubly nz in
      let at : ℕ = c.contents ((n - 63504) / 2048) in
      let q : at ≡ d dib ((n - 63504) / 2048) = ap (λ f. f ((n - 63504) / 2048)) same in
      let cache' : Cache = record cache { doubly_cache = c } in
      let h' : IsCoherent d cache' = record { of_indirect = h.of_indirect; of_doubly = coherent } in
      elim (Bool-cases (at == 0)) [
        | inl e ↦ (
          record { bno = 0; next_n = 63504 + 0 * 4194304 + ((n - 63504) / 2048 + 1) * 2048 },
          cache',
          rw (r, e) refl,
          skipped-Found v n (63504 + 0 * 4194304 + ((n - 63504) / 2048 + 1) * 2048) (omega arith)
              (omega arith)
              (λ k a b.
                skip-inner d inode n k lo hi (sym q ∙ (==_iff at 0).0 e) a (omega (arith, b))),
          h',
        )
        | inr e ↦
            let nz' : at ≢ 0 = ground arith in
            rw (r, e)
              (nth_of_indirect-Finds im d reads v n cache' at ((n - 63504) % 2048)
                (63504 + 0 * 4194304 + (n - 63504) + 1) h' nz'
                (ap (λ b. d b ((n - 63504) % 2048)) q
                  ∙ sym (
                      block_at-double v n lo
                      ∙ inner-mapped d inode (n - 63504) (omega arith) nz (λ z. nz' (q ∙ z))))
                (omega arith) (omega arith))
      ]

  nth_double-Finds :
      (cache : Cache) (n : ℕ)
      → IsCoherent d cache
      → 63504 ≤ n
      → n < max_blocks
      → Finds d v n (nth_double im inode cache (n - 63504))
  unfolding nth_double
  nth_double-Finds cache n h lo hi =
      let q : (n - 63504) / 4194304 ≡ 0 = omega arith in
      let one : ltb 0 1 ≡ true = refl in
      let r : n - 63504 - 0 * 4194304 ≡ n - 63504 = omega arith in
      elim (Bool-cases (get_or inode.dinum 0 0 == 0)) [
        | inl e ↦ (
          record { bno = 0; next_n = max_blocks },
          cache,
          rw (q, e) refl,
          skipped-Found v n max_blocks hi (omega arith)
              (λ k a b. skip-double d inode k (omega arith) b ((==_iff _ 0).0 e)),
          h,
        )
        | inr e ↦ rw (q, e, r) (nth_of_double-Finds cache n h lo hi (ground arith))
      ]

  nth_direct-Finds :
      (cache : Cache) (n : ℕ)
      → IsCoherent d cache
      → n < 16
      → Finds d v n (get_inode_nth_bno im inode cache n)
  unfolding get_inode_nth_bno block_at read pointers_of
  nth_direct-Finds cache n h hi = (
    record { bno = get_or inode.dnum n 0; next_n = n + 1 },
    cache,
    rw (lt→ltb n 16 hi) refl,
    record {
      block = rw (lt→ltb n 16 hi) refl;
      later = omega arith;
      bounded = omega arith;
      skipped = λ k a b. absurd (omega (arith, a, b));
    },
    h,
  )

  -- GetInodeNthBno of a file block, where every block can be read and the cached blocks hold what
  -- the volume holds, returns the block behind it in the tree of block pointers, and a later file
  -- block up to which none is mapped; the cached blocks hold what the volume holds again.
  pub get_inode_nth_bno-Finds :
      (cache : Cache) (n : ℕ)
      → IsCoherent d cache
      → n < max_blocks
      → Finds d v n (get_inode_nth_bno im inode cache n)
  unfolding get_inode_nth_bno
  get_inode_nth_bno-Finds cache n h hi = elim (Bool-cases (ltb n 16)) [
    | inl e ↦ nth_direct-Finds cache n h (ground arith)
    | inr e ↦ elim (Bool-cases (ltb ((n - 16) / 2048) 31)) [
      | inl f ↦ rw (e, f) (nth_indirect-Finds cache n h (ground arith) (ground arith))
      | inr f ↦ rw (e, f) (nth_double-Finds cache n h (ground arith) hi)
    ]
  ]

  pub get_inode_nth_bno-ends :
      (cache : Cache) (n : ℕ)
      → max_blocks ≤ n
      → get_inode_nth_bno im inode cache n ≡ err out_of_range
  unfolding get_inode_nth_bno nth_double
  get_inode_nth_bno-ends cache n hi =
      let a : ltb n 16 ≡ false = ground arith in
      let b : ltb ((n - 16) / 2048) 31 ≡ false = ground arith in
      let c : ltb ((n - 63504) / 4194304) 1 ≡ false = ground arith in rw (a, b, c) refl
