-- ===== src/Fsck/Quiet.antt =====
-- From one state of the checker to another: what a step accounts for, and runs that do so.
use fuchsia_minfs.Prelude.{
  ℕ, ◌≡◌, refl, sym, ◌∙◌, ap, subst, Bool, true, false, if◌then◌else◌, ◌⊎◌, inl, inr, List, [],
  ◌++◌, Status, arith,
}
use fuchsia_minfs.Prelude.Run.{Run, finished, stopped, out_of_fuel, ◌>>=◌, ◌>>◌, require}
use fuchsia_minfs.Fsck.State.{Image, Checker, conform}
use fuchsia_minfs.Fsck.Accounts.{Entry, Accounts, Accounts-append, or-false}
use fuchsia_minfs.Fsck.Tally.{Member-fst, Member-snd}
use fuchsia_minfs.Fsck.Conforms.{Owns, Owns-widen}

-- From one state of the checker to another: the blocks that are met, and for each inode that is marked
-- that its blocks are among them.
pub record Accounted (im : Image) (d : ℕ → ℕ → ℕ) (c : Checker) (es : List Entry) (c' : Checker)
    : Type 0 where
  pub accounts : Accounts im c es c'
  pub owned :
      (i : ℕ) → c'.checked_inodes i ≡ true → (c.checked_inodes i ≡ true) ⊎ Owns d i (im.inodes i) es

pub Accounted-append :
    (im : Image) (d : ℕ → ℕ → ℕ) (c c' c'' : Checker) (es fs : List Entry)
    → Accounted im d c es c'
    → Accounted im d c' fs c''
    → Accounted im d c (es ++ fs) c''
Accounted-append im d c c' c'' es fs a b = record {
  accounts = Accounts-append im c c' c'' es fs a.accounts b.accounts;
  owned = λ i h. elim (b.owned i h) [
    | inl k ↦ elim (a.owned i k) [
      | inl old ↦ inl old
      | inr o ↦ inr (Owns-widen d i (im.inodes i) es (es ++ fs) (λ e. Member-fst e es fs) o)
    ]
    | inr o ↦ inr (Owns-widen d i (im.inodes i) fs (es ++ fs) (λ e. Member-snd e es fs) o)
  ];
}

-- A step that marks no block and no inode, and finds nothing right that was wrong.
pub record Quiet (c c' : Checker) : Type 0 where
  pub blocks : c'.checked_blocks ≡ c.checked_blocks
  pub counted : c'.alloc_blocks ≡ c.alloc_blocks
  pub conformed : c'.conforming ≡ true → c.conforming ≡ true
  pub inodes : c'.checked_inodes ≡ c.checked_inodes

pub Unmarked-Accounts :
    (im : Image) (c c' : Checker)
    → c'.checked_blocks ≡ c.checked_blocks
    → c'.alloc_blocks ≡ c.alloc_blocks
    → (c'.conforming ≡ true → c.conforming ≡ true)
    → c'.conforming ≡ true
    → Accounts im c [] c'
Unmarked-Accounts im c c' blocks counted conformed h = record {
  conformed = conformed h;
  conforms = h;
  usable = tt;
  distinct = tt;
  checked = λ b. ap (λ f. f b) blocks ∙ sym (or-false (c.checked_blocks b));
  allocated = rw counted (omega arith);
}

Quiet-Accounted :
    (im : Image) (d : ℕ → ℕ → ℕ) (c c' : Checker)
    → Quiet c c'
    → c'.conforming ≡ true
    → Accounted im d c [] c'
Quiet-Accounted im d c c' q h = record {
  accounts = Unmarked-Accounts im c c' q.blocks q.counted q.conformed h;
  owned = λ i k. inl (ap (λ f. f i) (sym q.inodes) ∙ k);
}

pub Quiet-conform : (b : Bool) (c c' : Checker) → Quiet c c' → Quiet c (conform b c')
Quiet-conform true c c' q = q
Quiet-conform false c c' q = record {
  blocks = q.blocks;
  counted = q.counted;
  conformed = λ e. absurd (cc e);
  inodes = q.inodes;
}

-- A run from `c` that finishes, with the image still conforming.
pub record Keeps (im : Image) (d : ℕ → ℕ → ℕ) {X : Type 0} (π : X → Checker) (c : Checker)
    (r : Run X) : Type 0 where
  pub entries :
      (x : X)
      → r ≡ finished x
      → (π x).conforming ≡ true
      → (es : List Entry) × Accounted im d c es (π x)

abbrev pub same : Checker → Checker
same c = c

module _ (im : Image) (d : ℕ → ℕ → ℕ) {Y : Type 0} (π : Y → Checker) (c : Checker) where
  pub finished-Keeps : (y : Y) → Quiet c (π y) → Keeps im d π c (finished y)
  finished-Keeps y q = record {
    entries = λ x e h.
        let p : y ≡ x = cc e in
        ([], Quiet-Accounted im d c (π x) (subst (λ z. Quiet c (π z)) p q) h);
  }

  pub require-Keeps :
      (b : Bool) (status : Status) (m : Run Y)
      → Keeps im d π c m
      → Keeps im d π c (require b status >> m)
  require-Keeps true status m k = k
  require-Keeps false status m k = record { entries = λ x e h. absurd (cc e) }

  pub if-Keeps :
      (b : Bool) (m n : Run Y)
      → Keeps im d π c m
      → Keeps im d π c n
      → Keeps im d π c (if b then m else n)
  if-Keeps true m n k l = k
  if-Keeps false m n k l = l

  -- What comes before does not touch the checker.
  pub after-Keeps :
      {X : Type 0} (m : Run X) (f : X → Run Y)
      → ((x : X) → Keeps im d π c (f x))
      → Keeps im d π c (m >>= f)
  after-Keeps (finished x) f k = k x
  after-Keeps (stopped status) f k = record { entries = λ x e h. absurd (cc e) }
  after-Keeps out_of_fuel f k = record { entries = λ x e h. absurd (cc e) }

  pub after-Keeps_eq :
      {X : Type 0} (m : Run X) (f : X → Run Y)
      → ((x : X) → m ≡ finished x → Keeps im d π c (f x))
      → Keeps im d π c (m >>= f)
  after-Keeps_eq (finished x) f k = k x refl
  after-Keeps_eq (stopped status) f k = record { entries = λ x e h. absurd (cc e) }
  after-Keeps_eq out_of_fuel f k = record { entries = λ x e h. absurd (cc e) }

  pub bind-Keeps :
      {X : Type 0} (ρ : X → Checker) (m : Run X) (f : X → Run Y)
      → Keeps im d ρ c m
      → ((x : X) → Keeps im d π (ρ x) (f x))
      → Keeps im d π c (m >>= f)
  bind-Keeps ρ (finished x) f km k = record {
    entries = λ y e h.
        let (fs, b) = (k x).entries y e h in
        let (es, a) = km.entries x refl b.accounts.conformed in
        (es ++ fs, Accounted-append im d c (ρ x) (π y) es fs a b);
  }
  bind-Keeps ρ (stopped status) f km k = record { entries = λ x e h. absurd (cc e) }
  bind-Keeps ρ out_of_fuel f km k = record { entries = λ x e h. absurd (cc e) }

pub Quiet-refl : (c : Checker) → Quiet c c
Quiet-refl c = record { blocks = refl; counted = refl; conformed = λ e. e; inodes = refl }
