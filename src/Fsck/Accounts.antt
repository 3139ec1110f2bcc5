-- ===== src/Fsck/Accounts.antt =====
-- What a run of CheckDataBlock has made sure of, if the image still conforms after it.
use fuchsia_minfs.Prelude.{
  ℕ, ◌+◌, ◌<◌, ◌≡◌, ◌≢◌, refl, sym, ap, Bool, true, false, ◌||◌, ◌==◌, ◌⊎◌, List, [], ◌∷◌, ◌++◌,
  length, length-append, All, All-append, u32, arith,
}
use fuchsia_minfs.Unlinked.List.{Fresh, Distinct}
use fuchsia_minfs.Fsck.State.{Image, BlockInfo, Checker, check_data_block, mark_block, check_block}

-- A block with the place that points to it.
abbrev pub Entry : Type 0
Entry = ℕ × BlockInfo

abbrev pub blocks_of : List Entry → List ℕ
blocks_of [] = []
blocks_of ((b, info) ∷ es) = b ∷ blocks_of es

abbrev pub member : ℕ → List ℕ → Bool
member b [] = false
member b (x ∷ xs) = b == x || member b xs

abbrev pub Member : Entry → List Entry → Type 0
Member e [] = ⊥
Member e (x ∷ xs) = (e ≡ x) ⊎ Member e xs

-- The block may be used: it is in the volume, allocated, and was not met before.
pub record IsFree (im : Image) (c : Checker) (b : ℕ) : Type 0 where
  pub not_reserved : b ≢ 0
  pub in_range : b < im.info.block_count
  pub allocated : im.block_allocated b ≡ true
  pub not_checked : c.checked_blocks b ≡ false

pub record Accounts (im : Image) (c : Checker) (es : List Entry) (c' : Checker) : Type 0 where
  pub conformed : c.conforming ≡ true
  pub conforms : c'.conforming ≡ true
  pub usable : All (IsFree im c) (blocks_of es)
  pub distinct : Distinct (blocks_of es)
  pub checked : (b : ℕ) → c'.checked_blocks b ≡ (c.checked_blocks b || member b (blocks_of es))
  pub allocated : u32 c'.alloc_blocks ≡ u32 (c.alloc_blocks + length es)

pub or-false : (a : Bool) → (a || false) ≡ a
or-false true = refl
or-false false = refl

pub Accounts-nil : (im : Image) (c : Checker) → c.conforming ≡ true → Accounts im c [] c
Accounts-nil im c h = record {
  conformed = h;
  conforms = h;
  usable = tt;
  distinct = tt;
  checked = λ b. sym (or-false (c.checked_blocks b));
  allocated = omega arith;
}

-- A block without a fault is marked.
module _ (im : Image) (c : Checker) (b : ℕ) (info : BlockInfo) where
  pub passes-conformed : (check_block im b info c).conforming ≡ true → c.conforming ≡ true
  unfolding check_block check_data_block
  passes-conformed h = ground arith

  passes-IsFree : (check_block im b info c).conforming ≡ true → IsFree im c b
  unfolding check_block check_data_block
  passes-IsFree h = ground arith

  passes-marked :
      (check_block im b info c).conforming ≡ true → check_block im b info c ≡ mark_block b info c
  unfolding check_block check_data_block
  passes-marked h = ground arith

pub check_block-inodes :
    (im : Image) (c : Checker) (b : ℕ) (info : BlockInfo)
    → (check_block im b info c).checked_inodes ≡ c.checked_inodes
unfolding check_block check_data_block mark_block
check_block-inodes im c b info = ground arith

mark-Accounts :
    (im : Image) (c : Checker) (b : ℕ) (info : BlockInfo)
    → c.conforming ≡ true
    → IsFree im c b
    → Accounts im c ((b, info) ∷ []) (mark_block b info c)
unfolding mark_block
mark-Accounts im c b info h free = record {
  conformed = h;
  conforms = h;
  usable = (free, tt);
  distinct = (tt, tt);
  checked = λ x. ground arith;
  allocated = omega arith;
}

pub check_block-Accounts :
    (im : Image) (c : Checker) (b : ℕ) (info : BlockInfo)
    → (check_block im b info c).conforming ≡ true
    → Accounts im c ((b, info) ∷ []) (check_block im b info c)
check_block-Accounts im c b info h =
    rw (passes-marked im c b info h)
      (mark-Accounts im c b info (passes-conformed im c b info h) (passes-IsFree im c b info h))

blocks_of-append : (es fs : List Entry) → blocks_of (es ++ fs) ≡ blocks_of es ++ blocks_of fs
blocks_of-append [] fs = refl
blocks_of-append ((b, info) ∷ es) fs = ap (λ bs. b ∷ bs) (blocks_of-append es fs)

member-append : (b : ℕ) (xs ys : List ℕ) → member b (xs ++ ys) ≡ (member b xs || member b ys)
member-append b [] ys = refl
member-append b (x ∷ xs) ys = ground (arith, member-append b xs ys)

-- What is not among the members differs from each of them.
not-member-Fresh : (b : ℕ) (xs : List ℕ) → member b xs ≡ false → Fresh b xs
not-member-Fresh b [] h = tt
not-member-Fresh b (x ∷ xs) h = (λ q. ground arith, not-member-Fresh b xs (ground arith))

pub Fresh-member : (b : ℕ) (xs : List ℕ) → Fresh b xs → member b xs ≡ false
Fresh-member b [] h = refl
Fresh-member b (x ∷ xs) (n, f) = ground (arith, Fresh-member b xs f)

-- A block that is free after a run was free before it, and was not met in it.
module _ (im : Image) (c c' : Checker) (es : List Entry) (a : Accounts im c es c') where
  IsFree-before : (b : ℕ) → IsFree im c' b → IsFree im c b
  IsFree-before b f = record {
    not_reserved = f.not_reserved;
    in_range = f.in_range;
    allocated = f.allocated;
    not_checked = ground (arith, a.checked b, f.not_checked);
  }

  IsFree-not_met : (b : ℕ) → IsFree im c' b → member b (blocks_of es) ≡ false
  IsFree-not_met b f = ground (arith, a.checked b, f.not_checked)

  All-before : (bs : List ℕ) → All (IsFree im c') bs → All (IsFree im c) bs
  All-before [] f = tt
  All-before (b ∷ bs) (f, fs) = (IsFree-before b f, All-before bs fs)

  -- No block of the first run is met again.
  not_met :
      (x : ℕ) (bs : List ℕ) → member x (blocks_of es) ≡ true → All (IsFree im c') bs → Fresh x bs
  not_met x [] m f = tt
  not_met x (b ∷ bs) m (f, fs) = (λ q. cc (IsFree-not_met b f, m, q), not_met x bs m fs)

  Distinct-both :
      (xs bs : List ℕ)
      → ((x : ℕ) → member x xs ≡ true → member x (blocks_of es) ≡ true)
      → Distinct xs
      → All (IsFree im c') bs
      → Distinct bs
      → Distinct (xs ++ bs)
  Distinct-both [] bs sub d f g = g
  Distinct-both (x ∷ xs) bs sub (fx, d) f g = (
    All-append (λ y. y ≢ x) xs bs fx (not_met x bs (sub x (ground arith)) f),
    Distinct-both xs bs (λ y m. sub y (ground (arith, m))) d f g,
  )

pub Accounts-append :
    (im : Image) (c c' c'' : Checker) (es fs : List Entry)
    → Accounts im c es c'
    → Accounts im c' fs c''
    → Accounts im c (es ++ fs) c''
Accounts-append im c c' c'' es fs a b =
    let e = blocks_of-append es fs in
    record {
      conformed = a.conformed;
      conforms = b.conforms;
      usable = rw e (
          All-append (IsFree im c) (blocks_of es) (blocks_of fs) a.usable
            (All-before im c c' es a (blocks_of fs) b.usable));
      distinct = rw e (
          Distinct-both im c c' es a (blocks_of es) (blocks_of fs) (λ x m. m) a.distinct b.usable
            b.distinct);
      checked = λ x.
          rw (e, member-append x (blocks_of es) (blocks_of fs))
            (ground (arith, a.checked x, b.checked x));
      allocated = rw (length-append es fs) (omega (arith, a.allocated, b.allocated));
    }
