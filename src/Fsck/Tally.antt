-- ===== src/Fsck/Tally.antt =====
-- The loops of CheckFile: the blocks that each of them meets, and their number.
use fuchsia_minfs.Prelude.{
  ℕ, zero, suc, ◌+◌, ◌<◌, ◌≤◌, ◌≡◌, ◌≢◌, refl, ◌∙◌, true, ◌==◌, leb, if◌then◌else◌, inl, inr, List,
  [], ◌∷◌, ◌++◌, length, length-append, get_or, u32, some, ok, arith, Bool-cases, ==_iff,
}
use fuchsia_minfs.Format.{Inode}
use fuchsia_minfs.Mapper.Pointers.{max_blocks}
use fuchsia_minfs.Mapper.Mapping.{block_at}
use fuchsia_minfs.Fsck.State.{Image, BlockInfo}
use fuchsia_minfs.Fsck.Files.{
  Count, count_block, check_pointers, check_double, check_doubles, double_info, inner_info,
  direct_info, Walk, Cache, NthBno, visit_block, check_blocks,
}
use fuchsia_minfs.Fsck.Tree.{Reads, pointers_of}
use fuchsia_minfs.Fsck.Nth.{IsCoherent, Found, get_inode_nth_bno-Finds, get_inode_nth_bno-ends}
use fuchsia_minfs.Fsck.Accounts.{
  Entry, Member, Accounts, Accounts-nil, Accounts-append, check_block-Accounts, check_block-inodes,
}

pub record Tally (im : Image) (s : Count) (es : List Entry) (s' : Count) : Type 0 where
  pub accounts : Accounts im s.0 es s'.0
  pub count : u32 s'.1 ≡ u32 (s.1 + length es)
  pub inodes : s'.0.checked_inodes ≡ s.0.checked_inodes

Tally-nil : (im : Image) (s : Count) → s.0.conforming ≡ true → Tally im s [] s
Tally-nil im s h = record { accounts = Accounts-nil im s.0 h; count = omega arith; inodes = refl }

Tally-one :
    (im : Image) (b : ℕ) (info : BlockInfo) (s : Count)
    → (count_block im b info s).0.conforming ≡ true
    → Tally im s ((b, info) ∷ []) (count_block im b info s)
Tally-one im b info (c, count) h = record {
  accounts = check_block-Accounts im c b info h;
  count = omega arith;
  inodes = check_block-inodes im c b info;
}

pub Tally-append :
    (im : Image) (s s' s'' : Count) (es fs : List Entry)
    → Tally im s es s'
    → Tally im s' fs s''
    → Tally im s (es ++ fs) s''
Tally-append im s s' s'' es fs a b = record {
  accounts = Accounts-append im s.0 s'.0 s''.0 es fs a.accounts b.accounts;
  count = rw (length-append es fs) (omega (arith, a.count, b.count));
  inodes = b.inodes ∙ a.inodes;
}

pub Member-fst : (e : Entry) (es fs : List Entry) → Member e es → Member e (es ++ fs)
Member-fst e [] fs m = absurd m
Member-fst e (x ∷ es) fs (inl q) = inl q
Member-fst e (x ∷ es) fs (inr m) = inr (Member-fst e es fs m)

pub Member-snd : (e : Entry) (es fs : List Entry) → Member e fs → Member e (es ++ fs)
Member-snd e [] fs m = m
Member-snd e (x ∷ es) fs m = inr (Member-snd e es fs m)

-- A run of which the image still conforms has met every pointer of the array that is not 0.
abbrev pub Covers : (ℕ → BlockInfo) → (ℕ → ℕ) → ℕ → ℕ → List Entry → Type 0
Covers info entry n end es = (k : ℕ) → n ≤ k → k < end → entry k ≢ 0 → Member (entry k, info k) es

abbrev point : Image → (ℕ → BlockInfo) → (ℕ → ℕ) → ℕ → Count → Count
point im info entry n s = if entry n == 0 then s else count_block im (entry n) (info n) s

point-Tally :
    (im : Image) (info : ℕ → BlockInfo) (entry : ℕ → ℕ) (n : ℕ) (s : Count)
    → (point im info entry n s).0.conforming ≡ true
    → (es : List Entry) × Tally im s es (point im info entry n s)
      × (entry n ≢ 0 → Member (entry n, info n) es)
point-Tally im info entry n s h = elim (Bool-cases (entry n == 0)) [
  | inl e ↦ ([], rw e (Tally-nil im s (rw e at h)), λ z. absurd (z ((==_iff (entry n) 0).0 e)))
  | inr e ↦
      ((entry n, info n) ∷ [], rw e (Tally-one im (entry n) (info n) s (rw e at h)), λ z. inl refl)
]

pub check_pointers-Tally :
    (im : Image) (info : ℕ → BlockInfo) (entry : ℕ → ℕ) (left n : ℕ) (s : Count)
    → (check_pointers im info entry left n s).0.conforming ≡ true
    → (es : List Entry) × Tally im s es (check_pointers im info entry left n s)
      × Covers info entry n (n + left) es
unfolding check_pointers
check_pointers-Tally im info entry zero n s h =
    ([], Tally-nil im s h, λ k lo hi z. absurd (omega (arith, lo, hi)))
check_pointers-Tally im info entry (suc left) n s h =
    let s' : Count = point im info entry n s in
    let (fs, b, cover) = check_pointers-Tally im info entry left (n + 1) s' h in
    let (es, a, first) = point-Tally im info entry n s b.accounts.conformed in
    (
      es ++ fs,
      Tally-append im s s' (check_pointers im info entry left (n + 1) s') es fs a b,
      λ k lo hi z. elim (Bool-cases (k == n)) [
        | inl q ↦
            let same : k ≡ n = (==_iff k n).0 q in
            Member-fst (entry k, info k) es fs (rw same (first (rw same at z)))
        | inr q ↦
            Member-snd (entry k, info k) es fs (cover k (ground (arith, lo)) (omega (arith, hi)) z)
      ],
    )

pub check_pointers-inodes :
    (im : Image) (info : ℕ → BlockInfo) (entry : ℕ → ℕ) (left n : ℕ) (s : Count)
    → (check_pointers im info entry left n s).0.checked_inodes ≡ s.0.checked_inodes
unfolding check_pointers
check_pointers-inodes im info entry zero n s = refl
check_pointers-inodes im info entry (suc left) n s =
    check_pointers-inodes im info entry left (n + 1) (point im info entry n s)
    ∙ elim (Bool-cases (entry n == 0)) [
      | inl e ↦ rw e refl
      | inr e ↦ rw e (check_block-inodes im s.0 (entry n) (info n))
    ]

-- The entries for a doubly indirect block and for the indirect blocks in it.
pub record CoversDouble (d : ℕ → ℕ → ℕ) (ino b : ℕ) (es : List Entry) : Type 0 where
  pub own : b ≢ 0 → Member (b, double_info ino 0) es
  pub inner : b ≢ 0 → (k : ℕ) → k < 2048 → d b k ≢ 0 → Member (d b k, inner_info ino 0 k) es

-- The doubly indirect block of an inode, where it can be read.
module _ (im : Image) (d : ℕ → ℕ → ℕ) (reads : Reads im d) (ino : ℕ) where
  abbrev pub doubled : ℕ → Count → Count
  doubled b s =
      if b == 0
      then s
      else check_pointers im (inner_info ino 0) (d b) 2048 0
          (count_block im b (double_info ino 0) s)

  pub check_doubles-runs :
      (inode : Inode) (s : Count)
      → check_doubles im ino inode 1 0 s ≡ ok (doubled (get_or inode.dinum 0 0) s)
  unfolding check_doubles check_double
  check_doubles-runs inode s = elim (Bool-cases (get_or inode.dinum 0 0 == 0)) [
    | inl e ↦ rw e refl
    | inr e ↦ rw (e, reads (get_or inode.dinum 0 0)) refl
  ]

  pub doubled-inodes : (b : ℕ) (s : Count) → (doubled b s).0.checked_inodes ≡ s.0.checked_inodes
  doubled-inodes b s = elim (Bool-cases (b == 0)) [
    | inl e ↦ rw e refl
    | inr e ↦ rw e (
        check_pointers-inodes im (inner_info ino 0) (d b) 2048 0
          (count_block im b (double_info ino 0) s)
        ∙ check_block-inodes im s.0 b (double_info ino 0))
  ]

  pub doubled-Tally :
      (b : ℕ) (s : Count)
      → (doubled b s).0.conforming ≡ true
      → (es : List Entry) × Tally im s es (doubled b s) × CoversDouble d ino b es
  doubled-Tally b s h = elim (Bool-cases (b == 0)) [
    | inl e ↦
        let z : b ≡ 0 = (==_iff b 0).0 e in
        (
          [],
          rw e (Tally-nil im s (rw e at h)),
          record { own = λ n. absurd (n z); inner = λ n. absurd (n z) },
        )
    | inr e ↦
        let first : Count = count_block im b (double_info ino 0) s in
        let (es, a, cover) =
          check_pointers-Tally im (inner_info ino 0) (d b) 2048 0 first (rw e at h) in
        (
          (b, double_info ino 0) ∷ es,
          rw e (
              Tally-append im s first (check_pointers im (inner_info ino 0) (d b) 2048 0 first)
                ((b, double_info ino 0) ∷ []) es
                (Tally-one im b (double_info ino 0) s a.accounts.conformed) a),
          record { own = λ n. inl refl; inner = λ n k hi z. inr (cover k (omega arith) hi z) },
        )
  ]

-- The walk over the data blocks.
abbrev pub CoversBlocks : (ℕ → ℕ) → ℕ → ℕ → List Entry → ℕ → Type 0
CoversBlocks at ino n es next_blk =
    (k : ℕ)
    → n ≤ k
    → k < max_blocks
    → at k ≢ 0
    → Member (at k, direct_info ino k) es × (k < next_blk)

visit_block-Tally :
    (im : Image) (ino n : ℕ) (nth : NthBno) (w : Walk)
    → (visit_block im ino n nth w).counted.0.conforming ≡ true
    → (es : List Entry) × Tally im w.counted es (visit_block im ino n nth w).counted
      × (nth.bno ≢ 0
          → Member (nth.bno, direct_info ino n) es × (n < (visit_block im ino n nth w).next_blk))
unfolding visit_block
visit_block-Tally im ino n nth w h = elim (Bool-cases (nth.bno == 0)) [
  | inl e ↦
      ([], rw e (Tally-nil im w.counted (rw e at h)), λ z. absurd (z ((==_iff nth.bno 0).0 e)))
  | inr e ↦ (
    (nth.bno, direct_info ino n) ∷ [],
    rw e (Tally-one im nth.bno (direct_info ino n) w.counted (rw e at h)),
    λ z. (inl refl, rw e (omega arith)),
  )
]

visit_block-inodes :
    (im : Image) (ino n : ℕ) (nth : NthBno) (w : Walk)
    → (visit_block im ino n nth w).counted.0.checked_inodes ≡ w.counted.0.checked_inodes
unfolding visit_block
visit_block-inodes im ino n nth w = elim (Bool-cases (nth.bno == 0)) [
  | inl e ↦ rw e refl
  | inr e ↦ rw e (check_block-inodes im w.counted.0 nth.bno (direct_info ino n))
]

visit_block-next_blk :
    (im : Image) (ino n : ℕ) (nth : NthBno) (w : Walk)
    → w.next_blk ≤ n
    → (w.next_blk ≤ (visit_block im ino n nth w).next_blk)
      × ((visit_block im ino n nth w).next_blk ≤ n + 1)
unfolding visit_block
visit_block-next_blk im ino n nth w h = ground arith

module _ (im : Image) (d : ℕ → ℕ → ℕ) (reads : Reads im d) (ino : ℕ) (inode : Inode) where
  abbrev pub at : ℕ → ℕ
  at = block_at (pointers_of d inode)

  -- What the walk leaves from `n` on.
  pub record Walked (n : ℕ) (w w' : Walk) : Type 0 where
    pub grows : w.next_blk ≤ w'.next_blk
    pub inodes : w'.counted.0.checked_inodes ≡ w.counted.0.checked_inodes
    pub tally :
        w'.counted.0.conforming ≡ true
        → (es : List Entry) × Tally im w.counted es w'.counted
          × CoversBlocks at ino n es w'.next_blk

  Walked-end : (w : Walk) (n : ℕ) → max_blocks ≤ n → Walked n w w
  Walked-end w n h = record {
    grows = omega arith;
    inodes = refl;
    tally = λ c. ([], Tally-nil im w.counted c, λ k lo hi. absurd (omega (arith, lo, hi)));
  }

  Walked-step :
      (n : ℕ) (nth : NthBno) (w w' : Walk)
      → w.next_blk ≤ n
      → Found (pointers_of d inode) n nth
      → Walked nth.next_n (visit_block im ino n nth w) w'
      → Walked n w w'
  Walked-step n nth w w' h f r =
      let v : Walk = visit_block im ino n nth w in
      record {
        grows = omega (arith, r.grows, (visit_block-next_blk im ino n nth w h).0);
        inodes = r.inodes ∙ visit_block-inodes im ino n nth w;
        tally = λ c.
            let (fs, b, cover) = r.tally c in
            let (es, a, here) = visit_block-Tally im ino n nth w b.accounts.conformed in
            (
              es ++ fs,
              Tally-append im w.counted v.counted w'.counted es fs a b,
              λ k lo hi z. elim (Bool-cases (k == n)) [
                | inl q ↦
                    let same : k ≡ n = (==_iff k n).0 q in
                    let (m, below) = here (rw (f.block, ← same) z) in
                    (
                      Member-fst (at k, direct_info ino k) es fs (rw (same, ← f.block) m),
                      omega (arith, below, r.grows, same),
                    )
                | inr q ↦
                    let behind : nth.next_n ≤ k = elim (Bool-cases (leb nth.next_n k)) [
                      | inl e ↦ ground arith
                      | inr e ↦ absurd (z (f.skipped k (ground (arith, lo)) (ground arith)))
                    ] in
                    let (m, below) = cover k behind hi z in
                    (Member-snd (at k, direct_info ino k) es fs m, below)
              ],
            );
      }

  pub check_blocks-Walked :
      (fuel n : ℕ) (cache : Cache) (w : Walk)
      → IsCoherent d cache
      → n ≤ max_blocks
      → max_blocks < n + fuel
      → w.next_blk ≤ n
      → (w' : Walk) × (check_blocks fuel im ino inode cache n w ≡ some (ok w')) × Walked n w w'
  unfolding check_blocks
  check_blocks-Walked zero n cache w h le lt b = absurd (omega (arith, le, lt))
  check_blocks-Walked (suc fuel) n cache w h le lt b = elim (Bool-cases (leb max_blocks n)) [
    | inl e ↦
        let ends : max_blocks ≤ n = ground arith in
        (w, rw (get_inode_nth_bno-ends im d reads inode cache n ends) refl, Walked-end w n ends)
    | inr e ↦
        let (nth, cache', q, f, h') =
          get_inode_nth_bno-Finds im d reads inode cache n h (ground arith) in
        let (w', q', r) =
          check_blocks-Walked fuel nth.next_n cache' (visit_block im ino n nth w) h' f.bounded
            (omega (arith, lt, f.later))
            (omega (arith, f.later, (visit_block-next_blk im ino n nth w b).1)) in
        (w', rw q q', Walked-step n nth w w' b f r)
  ]
