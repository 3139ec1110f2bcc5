-- ===== src/Directory/Join.antt =====
-- Which records UnlinkChild joins.
use fuchsia_minfs.Prelude.{
  ℕ, ◌+◌, ◌≤◌, ◌<◌, ◌≡◌, ◌⊎◌, inl, inr, refl, ap, subst, ◌∙◌, true, false, leb, ◌==◌, ok, ◌>>◌,
  guard, io, arith, Bool-cases, ==_iff,
}
use fuchsia_minfs.Format.{
  Dirent, dirent_reserved_size, is_last, minfs_reclen_last, minfs_max_directory_size,
}
use fuchsia_minfs.Directory.Records.{Directory, DirectoryOffset, validate_dirent, bytes_read}
use fuchsia_minfs.Directory.Chain.{
  reserved_at, Reached, reached_next, Reached-before, validate_dirent-long,
}
use fuchsia_minfs.Prelude.{>>-ok}
use fuchsia_minfs.Directory.Erase.{read_dirent, last_bit, coalesce_next, coalesce_prev}

pub validate_dirent-head :
    (de : Dirent) (bytes off : ℕ)
    → validate_dirent de bytes off ≡ ok tt
    → (validate_dirent de 12 off ≡ ok tt) × (12 ≤ bytes)
unfolding validate_dirent
validate_dirent-head de bytes off e = ground arith

pub read_dirent-ok :
    (d : Directory) (off : ℕ)
    → validate_dirent (d.records off) (bytes_read d off) off ≡ ok tt
    → (read_dirent d off ≡ ok (d.records off)) × (off + 12 ≤ d.size)
unfolding read_dirent
read_dirent-ok d off e =
    let (v, b) = validate_dirent-head (d.records off) (bytes_read d off) off e in
    let h : off + 12 ≤ d.size = ground arith in
    let q : leb (off + 12) d.size ≡ true = ground arith in (rw (q, v) refl, h)

-- A record that could be read is valid.
read_dirent-long :
    (d : Directory) (off : ℕ)
    → read_dirent d off ≡ ok (d.records off)
    → (12 ≤ reserved_at d off) × (off + reserved_at d off ≤ minfs_max_directory_size)
unfolding read_dirent
read_dirent-long d off e =
    validate_dirent-long (d.records off) 12 off
      (>>-ok (validate_dirent (d.records off) 12 off) (ok (d.records off)) (d.records off)
        (>>-ok (guard (leb (off + 12) d.size) io)
          (validate_dirent (d.records off) 12 off >> ok (d.records off)) (d.records off) e).1).0

-- The last record ends where the largest directory does.
pub last-ends :
    (de : Dirent) (off : ℕ)
    → is_last de.reclen ≡ true
    → off + dirent_reserved_size de off ≤ minfs_max_directory_size
    → off + dirent_reserved_size de off ≡ minfs_max_directory_size
unfolding dirent_reserved_size
last-ends de off l h = let h' = rw l at h in rw l (ground arith)

last_bit-last : (r n : ℕ) → is_last r ≡ false → is_last (r + last_bit n) ≡ true → is_last n ≡ true
unfolding is_last
last_bit-last r n f l = elim (Bool-cases (leb minfs_reclen_last n)) [
  | inl q ↦ q
  | inr q ↦ let l' = rw q at l in ground arith
]

-- No record in use begins in a part of the directory.
abbrev pub Free : Directory → ℕ → ℕ → Type 0
Free d from to = (o : ℕ) → Reached d o → from ≤ o → o < to → (d.records o).ino ≡ 0

-- The records behind one that is erased.
pub record Behind (d : Directory) (off size : ℕ) (de : Dirent) : Type 0 where
  pub reached : Reached d (off + size)
  pub more : reserved_at d off ≤ size
  pub free : Free d (off + reserved_at d off) (off + size)
  pub last : is_last de.reclen ≡ true → off + size ≡ minfs_max_directory_size
  pub within : off + size ≤ minfs_max_directory_size

module _ (d : Directory) (off : ℕ) (r : Reached d off) (long : 12 ≤ reserved_at d off)
    (within : off + reserved_at d off ≤ minfs_max_directory_size) where
  Behind-none :
      (is_last (d.records off).reclen ≡ true → off + reserved_at d off ≡ minfs_max_directory_size)
      → Behind d off (reserved_at d off) (d.records off)
  Behind-none l = record {
    reached = reached_next off r long;
    more = omega arith;
    free = λ o ro a b. absurd (omega (arith, a, b));
    last = l;
    within = within;
  }

  Behind-free :
      is_last (d.records off).reclen ≡ false
      → (let n = off + reserved_at d off in
          read_dirent d n ≡ ok (d.records n)
          → (d.records n).ino ≡ 0
          → Behind d off (reserved_at d off + reserved_at d n) (record (d.records off) {
            reclen = (d.records off).reclen + last_bit (d.records n).reclen;
          }))
  Behind-free f e z =
      let n = off + reserved_at d off in
      let rn = reached_next off r long in
      let (ln, wn) = read_dirent-long d n e in
      record {
        reached = subst (Reached d) (omega arith) (reached_next n rn ln);
        more = omega arith;
        free = λ o ro a b. elim (Reached-before d n o rn ro (omega (arith, b))) [
          | inl q ↦ absurd (omega (arith, q, a))
          | inr q ↦ ap (λ x. (d.records x).ino) q ∙ z
        ];
        last = λ l. omega (
          arith,
          last-ends (d.records n) n (last_bit-last (d.records off).reclen (d.records n).reclen f l)
              wn,
        );
        within = omega (arith, wn);
      }

  pub coalesce_next-Behind :
      (is_last (d.records off).reclen ≡ false
        → read_dirent d (off + reserved_at d off) ≡ ok (d.records (off + reserved_at d off)))
      → (size : ℕ) × (de : Dirent) × (coalesce_next d (d.records off) off ≡ ok (size, de))
        × Behind d off size de
  unfolding coalesce_next
  coalesce_next-Behind next = elim (Bool-cases (is_last (d.records off).reclen)) [
    | inl l ↦ (
      reserved_at d off,
      d.records off,
      rw l refl,
      Behind-none (λ q. last-ends (d.records off) off l within),
    )
    | inr f ↦
        let n = off + reserved_at d off in
        elim (Bool-cases ((d.records n).ino == 0)) [
          | inl z ↦ (
            reserved_at d off + reserved_at d n,
            record (d.records off) {
              reclen = (d.records off).reclen + last_bit (d.records n).reclen;
            },
            rw (f, next f, z) refl,
            Behind-free f (next f) ((==_iff (d.records n).ino 0).0 z),
          )
          | inr z ↦ (
            reserved_at d off,
            d.records off,
            rw (f, next f, z) refl,
            Behind-none (λ q. absurd (ground arith)),
          )
        ]
  ]

-- The record before one that is erased, as the walk knows it.
abbrev pub Previous : Directory → DirectoryOffset → Type 0
Previous d offs =
    (offs.off_prev ≡ offs.off)
    ⊎ (Reached d offs.off_prev
        × (offs.off_prev + reserved_at d offs.off_prev ≡ offs.off)
        × (validate_dirent (d.records offs.off_prev) (bytes_read d offs.off_prev) offs.off_prev
            ≡ ok tt))

pub record Ahead (d : Directory) (off size off' size' : ℕ) : Type 0 where
  pub reached : Reached d off'
  pub before : off' ≤ off
  pub same_end : off' + size' ≡ off + size
  pub free : Free d off' off

module _ (d : Directory) (offs : DirectoryOffset) (r : Reached d offs.off) (size : ℕ) where
  Ahead-none : Ahead d offs.off size offs.off size
  Ahead-none = record {
    reached = r;
    before = omega arith;
    same_end = refl;
    free = λ o ro a b. absurd (omega (arith, a, b));
  }

  pub coalesce_prev-Ahead :
      Previous d offs
      → (size' : ℕ) × (off' : ℕ) × (coalesce_prev d offs size ≡ ok (size', off'))
        × Ahead d offs.off size off' size'
  unfolding coalesce_prev
  coalesce_prev-Ahead (inl q) =
      (size, offs.off, rw ((==_iff offs.off_prev offs.off).1 q) refl, Ahead-none)
  coalesce_prev-Ahead (inr (rp, on, v)) =
      let p = offs.off_prev in
      let (e, h) = read_dirent-ok d p v in
      let (long, w) = read_dirent-long d p e in
      let apart : (p == offs.off) ≡ false = ground (arith, on, long) in
      elim (Bool-cases ((d.records p).ino == 0)) [
        | inr z ↦ (size, offs.off, rw (apart, e, z) refl, Ahead-none)
        | inl z ↦ (
          size + reserved_at d p,
          p,
          rw (apart, e, z) refl,
          record {
            reached = rp;
            before = omega (arith, on);
            same_end = omega (arith, on);
            free = λ o ro a b. elim (Reached-before d p o rp ro (omega (arith, on, b))) [
              | inl q ↦ absurd (omega (arith, q, a))
              | inr q ↦ ap (λ x. (d.records x).ino) q ∙ (==_iff (d.records p).ino 0).0 z
            ];
          },
        )
      ]
