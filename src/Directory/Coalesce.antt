-- ===== src/Directory/Coalesce.antt =====
-- The records in use before and after UnlinkChild.
use fuchsia_minfs.Prelude.{
  ℕ, ◌+◌, ◌%◌, ◌^◌, ◌≤◌, ◌<◌, ◌≡◌, ◌≢◌, ◌⊎◌, inl, inr, refl, ap, sym, ◌∙◌, true, false, leb, ◌==◌,
  ok, arith, Bool-cases, ==_iff,
}
use fuchsia_minfs.Format.{
  Dirent, dirent_reserved_size, is_last, minfs_reclen_last, minfs_reclen_mask,
  minfs_max_directory_size,
}
use fuchsia_minfs.Directory.Records.{Directory, DirectoryOffset, in_directory}
use fuchsia_minfs.Directory.Chain.{reserved_at, Reached, Reached-gap}
use fuchsia_minfs.Directory.Erase.{read_dirent, empty_dirent, coalesce, write_head}
use fuchsia_minfs.Directory.Gap.{position, Joins, low, high, outside}
use fuchsia_minfs.Directory.Join.{coalesce_next-Behind, Previous, coalesce_prev-Ahead}

-- The empty record that takes the place of others.
record Replaces (de : Dirent) (size off : ℕ) : Type 0 where
  empty : Dirent
  computes : empty_dirent de size off ≡ ok (empty, off)
  ino : empty.ino ≡ 0
  ends : dirent_reserved_size empty off ≡ size
  last : is_last empty.reclen ≡ is_last de.reclen

empty_dirent-Replaces :
    (de : Dirent) (size off : ℕ)
    → off + size ≤ minfs_max_directory_size
    → (is_last de.reclen ≡ true → off + size ≡ minfs_max_directory_size)
    → Replaces de size off
unfolding empty_dirent dirent_reserved_size is_last
empty_dirent-Replaces de size off h last = elim (Bool-cases (is_last de.reclen)) [
  | inl l ↦
      let s = last l in
      record {
        empty = record de { ino = 0; reclen = size % 2 ^ 28 + minfs_reclen_last };
        computes = rw l refl;
        ino = refl;
        ends = ground (arith, s);
        last = rw l (ground arith);
      }
  | inr l ↦
      let fits : leb minfs_reclen_mask size ≡ false = ground (arith, h) in
      record {
        empty = record de { ino = 0; reclen = size % 2 ^ 28 + 0 };
        computes = rw (l, fits) refl;
        ino = refl;
        ends = ground (arith, h);
        last = rw l (ground (arith, h));
      }
]

pub record Coalesced (d : Directory) (offs : DirectoryOffset) (e : ℕ) : Type 0 where
  pub empty : Dirent
  pub place : ℕ
  pub computes : coalesce d offs ≡ ok (empty, place)
  pub ino : empty.ino ≡ 0
  pub starts : Reached d place
  pub stops : Reached d e
  pub before : place ≤ offs.off
  pub behind : offs.off + reserved_at d offs.off ≤ e
  pub ends : place + dirent_reserved_size empty place ≡ e
  pub free : (o : ℕ) → Reached d o → place ≤ o → o < e → o ≢ offs.off → (d.records o).ino ≡ 0
  pub last : is_last empty.reclen ≡ true → e ≡ minfs_max_directory_size

pub coalesce-Coalesced :
    (d : Directory) (offs : DirectoryOffset)
    → Reached d offs.off
    → Previous d offs
    → 12 ≤ reserved_at d offs.off
    → offs.off + reserved_at d offs.off ≤ minfs_max_directory_size
    → (is_last (d.records offs.off).reclen ≡ false
        → read_dirent d (offs.off + reserved_at d offs.off)
          ≡ ok (d.records (offs.off + reserved_at d offs.off)))
    → (e : ℕ) × Coalesced d offs e
unfolding coalesce
coalesce-Coalesced d offs r prev long within next =
    let off = offs.off in
    let (size, de, cn, b) = coalesce_next-Behind d off r long within next in
    let (size', place, cp, a) = coalesce_prev-Ahead d offs r size prev in
    let m =
      empty_dirent-Replaces de size' place (omega (arith, a.same_end, b.within))
        (λ l. a.same_end ∙ b.last l) in
    (
      off + size,
      record {
        empty = m.empty;
        place = place;
        computes = rw (cn, cp) m.computes;
        ino = m.ino;
        starts = a.reached;
        stops = b.reached;
        before = a.before;
        behind = omega (arith, b.more);
        ends = ap (λ x. place + x) m.ends ∙ a.same_end;
        free = λ o ro from to n. elim (position o off) [
          | inl q ↦ a.free o ro from q
          | inr (inl q) ↦ absurd (n q)
          | inr (inr q) ↦ b.free o ro (Reached-gap d off o r ro q) to
        ];
        last = λ l. b.last (sym m.last ∙ l);
      },
    )

-- The records in use that a walk over the directory can meet.
abbrev pub InUse : Directory → ℕ → Type 0
InUse d o = Reached d o × (in_directory d o ≡ true) × ((d.records o).ino ≢ 0)

-- One record in use is gone, and the others are where they were.
pub record Erased (d : Directory) (off : ℕ) (d' : Directory) : Type 0 where
  pub kept : (o : ℕ) → InUse d o → o ≢ off → InUse d' o × (d'.records o ≡ d.records o)
  pub only : (o : ℕ) → InUse d' o → InUse d o × (o ≢ off) × (d'.records o ≡ d.records o)

module _ (d d' : Directory) (offs : DirectoryOffset) (e : ℕ) (c : Coalesced d offs e)
    (long : 12 ≤ reserved_at d offs.off) (room : offs.off + 12 ≤ d.size)
    (records : (o : ℕ) → d'.records o ≡ (write_head d c.place c.empty).records o)
    (size : (d'.size ≡ d.size) ⊎ ((is_last c.empty.reclen ≡ true) × (d'.size ≡ c.place + 12))) where
  write_head-other : (o : ℕ) → o ≢ c.place → (write_head d c.place c.empty).records o ≡ d.records o
  unfolding write_head
  write_head-other o n = elim (Bool-cases (o == c.place)) [
    | inl q ↦ absurd (n ((==_iff o c.place).0 q))
    | inr q ↦ rw q refl
  ]

  write_head-own :
      (write_head d c.place c.empty).records c.place
      ≡ record (c.empty) { name = (d.records c.place).name }
  unfolding write_head
  write_head-own = rw ((==_iff c.place c.place).1 refl) refl

  own_end : c.place + reserved_at d' c.place ≡ e
  unfolding dirent_reserved_size
  own_end =
      ap (λ de. c.place + dirent_reserved_size de c.place) (records c.place ∙ write_head-own)
      ∙ c.ends

  joins : Joins d d' c.place e
  joins = record {
    starts = c.starts;
    stops = c.stops;
    before = omega (arith, c.before, c.behind, long);
    long = omega (arith, own_end, c.before, c.behind, long);
    ends = own_end;
    alike = λ o n. records o ∙ write_head-other o n;
  }

  sizes-shrink : d'.size ≤ d.size
  sizes-shrink = elim size [
    | inl q ↦ omega (arith, q)
    | inr (l, q) ↦ omega (arith, q, room, c.before)
  ]

  kept_inside :
      (o : ℕ) → in_directory d o ≡ true → (o < c.place) ⊎ (e ≤ o) → in_directory d' o ≡ true
  kept_inside o i side = elim size [
    | inl q ↦ rw q i
    | inr (l, q) ↦
        let top = c.last l in
        elim side [ inl h ↦ rw q (ground (arith, h)) | inr h ↦ absurd (ground (arith, top, h, i)) ]
  ]

  side_of : (o : ℕ) → InUse d o → o ≢ offs.off → (o < c.place) ⊎ (e ≤ o)
  side_of o (r, i, u) n = elim (position o c.place) [
    | inl q ↦ inl q
    | inr q ↦ elim (position o e) [
      | inl p ↦
          absurd
            (u (c.free o r (elim q [ inl z ↦ omega (arith, z) | inr z ↦ omega (arith, z) ]) p n))
      | inr (inl p) ↦ inr (omega (arith, p))
      | inr (inr p) ↦ inr (omega (arith, p))
    ]
  ]

  pub erased : Erased d offs.off d'
  erased = record {
    kept = λ o h n.
        let side = side_of o h n in
        let apart : o ≢ c.place = λ q. elim side [
          | inl z ↦ omega (arith, z, q)
          | inr z ↦ omega (arith, z, q, joins.before)
        ] in
        let same : d'.records o ≡ d.records o = joins.alike o apart in
        (
          (
            elim side [
              | inl z ↦ low d d' c.place e joins o h.0 (omega (arith, z))
              | inr z ↦ high d d' c.place e joins o h.0 z
            ],
            kept_inside o h.1 side,
            (λ q. h.2 (sym (ap (λ de. de.ino) same) ∙ q)),
          ),
          same,
        );
    only = λ o h.
        let (rd, side) = outside d d' c.place e joins o h.0 in
        let apart : o ≢ c.place = λ q. h.2 (
          ap (λ x. (d'.records x).ino) q
          ∙ ap (λ de. de.ino) (records c.place ∙ write_head-own)
          ∙ c.ino) in
        let same : d'.records o ≡ d.records o = joins.alike o apart in
        (
          (rd, ground (arith, h.1, sizes-shrink), (λ q. h.2 (ap (λ de. de.ino) same ∙ q))),
          (λ q. elim side [
            | inl z ↦ apart (omega (arith, z, q, c.before))
            | inr z ↦ omega (arith, z, q, c.behind, long)
          ]),
          same,
        );
  }
