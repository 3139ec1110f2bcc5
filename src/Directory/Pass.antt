-- ===== src/Directory/Pass.antt =====
-- A walk for a name that passes all records before an offset.
use fuchsia_minfs.Prelude.{
  ℕ, zero, suc, ◌+◌, ◌≤◌, ◌<◌, ◌≡◌, inl, inr, refl, ap, ◌∙◌, true, false, ◌==◌, List, some, ok,
  arith, Bool-cases, ==_iff,
}
use fuchsia_minfs.Format.{Dirent, minfs_max_directory_size}
use fuchsia_minfs.Directory.Records.{
  Directory, DirectoryOffset, IteratorCommand, iterator_done, iterator_next, validate_dirent,
  next_dirent, Callback, bytes_read, in_directory, visit, walk_from, matches, callback_find,
  for_each_dirent, at_start,
}
use fuchsia_minfs.Directory.Chain.{
  reserved_at, Reached, reached_start, reached_next, Reached-gap, Reached-before,
  validate_dirent-long, Steps, visit-next, visit-cases, find-Steps,
}
use fuchsia_minfs.Prelude.{>>-ok}
use fuchsia_minfs.Directory.Find.{visit-find-next}

abbrev pub IsValid : Directory → ℕ → Type 0
IsValid d off = validate_dirent (d.records off) (bytes_read d off) off ≡ ok tt

-- The walk for a name has passed what lies before the offset.
abbrev pub Passed : Directory → List ℕ → ℕ → Type 0
Passed d name off =
    (o : ℕ) → Reached d o → o < off → (matches name (d.records o) ≡ false) × IsValid d o

visit-IsValid :
    (d : Directory) (callback : Callback) (offs : DirectoryOffset)
    (r : IteratorCommand × DirectoryOffset)
    → visit d callback offs ≡ ok r
    → IsValid d offs.off
unfolding visit
visit-IsValid d callback offs r e =
    (>>-ok (validate_dirent (d.records offs.off) (bytes_read d offs.off) offs.off)
      (callback (d.records offs.off) offs) r e).0

walk_from-Passed :
    (fuel : ℕ) (d : Directory) (name : List ℕ) (offs last : DirectoryOffset)
    → Reached d offs.off
    → Passed d name offs.off
    → walk_from fuel d (callback_find name) offs ≡ some (ok (false, last))
    → Passed d name last.off × (in_directory d last.off ≡ false)
unfolding walk_from
walk_from-Passed zero d name offs last r p e = absurd cc
walk_from-Passed (suc fuel) d name offs last r p e = elim (Bool-cases (in_directory d offs.off)) [
  | inr q ↦ let x = rw (q, walk_from) at e in let l : offs ≡ last = cc in rw (← l) (p, q)
  | inl q ↦ elim (visit-cases d (callback_find name) offs) [
    | inl (s, v) ↦ absurd (let x = rw (q, walk_from, v) at e in cc)
    | inr (inl (offs', v)) ↦ absurd (let x = rw (q, walk_from, v) at e in ground arith)
    | inr (inr (offs', v)) ↦
        let (long, on, within) = visit-next d (callback_find name) offs offs' (find-Steps name) v in
        let no = visit-find-next d name offs offs' v in
        let valid = visit-IsValid d (callback_find name) offs (iterator_next, offs') v in
        walk_from-Passed fuel d name offs' last (rw on (reached_next offs.off r long))
          (λ o ro h. elim (Reached-before d offs.off o r ro (omega (arith, h, on))) [
            | inl less ↦ p o ro less
            | inr here ↦ rw here (no, valid)
          ])
          (rw (q, walk_from, v) at e)
  ]
]

-- The record where a callback stops the walk.
pub walk_from-stops :
    (fuel : ℕ) (d : Directory) (callback : Callback) (offs last : DirectoryOffset)
    → Steps callback
    → Reached d offs.off
    → walk_from fuel d callback offs ≡ some (ok (true, last))
    → (at : DirectoryOffset) × Reached d at.off
      × (in_directory d at.off ≡ true)
      × (visit d callback at ≡ ok (iterator_done, last))
unfolding walk_from
walk_from-stops zero d callback offs last steps r e = absurd cc
walk_from-stops (suc fuel) d callback offs last steps r e =
    elim (Bool-cases (in_directory d offs.off)) [
      | inr q ↦ absurd (let x = rw (q, walk_from) at e in ground arith)
      | inl q ↦ elim (visit-cases d callback offs) [
        | inl (s, v) ↦ absurd (let x = rw (q, walk_from, v) at e in cc)
        | inr (inl (offs', v)) ↦
            let x = rw (q, walk_from, v) at e in
            let l : offs' ≡ last = cc in (offs, r, q, rw l at v)
        | inr (inr (offs', v)) ↦
            let (long, on, within) = visit-next d callback offs offs' steps v in
            walk_from-stops fuel d callback offs' last steps (rw on (reached_next offs.off r long))
              (rw (q, walk_from, v) at e)
      ]
    ]

pub for_each_dirent-Passed :
    (d : Directory) (name : List ℕ) (last : DirectoryOffset)
    → for_each_dirent d (callback_find name) ≡ some (ok (false, last))
    → Passed d name last.off × (in_directory d last.off ≡ false)
unfolding for_each_dirent
for_each_dirent-Passed d name last e =
    walk_from-Passed minfs_max_directory_size d name at_start last reached_start
      (λ o r h. absurd (omega (arith, h))) e

-- One round of the walk for a name.
module _ (d : Directory) (name : List ℕ) (fuel : ℕ) (offs : DirectoryOffset)
    (q : in_directory d offs.off ≡ true) (valid : IsValid d offs.off) where
  pub walk_from-on :
      matches name (d.records offs.off) ≡ false
      → walk_from (suc fuel) d (callback_find name) offs
        ≡ walk_from fuel d (callback_find name) (next_dirent (d.records offs.off) offs).1
  unfolding walk_from visit callback_find next_dirent
  walk_from-on m = rw (walk_from, q, valid, m) refl

  pub walk_from-found :
      matches name (d.records offs.off) ≡ true
      → walk_from (suc fuel) d (callback_find name) offs ≡ some (ok (true, offs))
  unfolding walk_from visit callback_find next_dirent
  walk_from-found m = rw (walk_from, q, valid, m) refl

pub validate_dirent-more :
    (de : Dirent) (a b off : ℕ)
    → a ≤ b
    → validate_dirent de a off ≡ ok tt
    → validate_dirent de b off ≡ ok tt
unfolding validate_dirent
validate_dirent-more de a b off h e = ground (arith, h)

predecessor : (n : ℕ) → 0 < n → (m : ℕ) × (n ≡ suc m)
predecessor zero h = absurd (omega (arith, h))
predecessor (suc m) h = (m, refl)

-- A directory that is another one up to an offset, and the walk over it.
module _ (d d' : Directory) (name : List ℕ) (off : ℕ) (r : Reached d off)
    (i : in_directory d off ≡ true) (alike : (o : ℕ) → o < off → d'.records o ≡ d.records o)
    (grows : d.size ≤ d'.size) (passed : Passed d name off) where
  kept-IsValid : (o : ℕ) → Reached d o → o < off → IsValid d' o
  kept-IsValid o ro h =
      let (m, v) = passed o ro h in
      rw (alike o h) (
        validate_dirent-more (d.records o) (bytes_read d o) (bytes_read d' o) o
          (omega (arith, grows)) v)

  pub walk_from-reaches :
      (P : DirectoryOffset → Type 0)
      → ((fuel : ℕ) (prev : ℕ)
          → (last : DirectoryOffset) × (walk_from
                (suc (suc fuel))
                d'
                (callback_find name)
                (record { off = off; off_prev = prev })
              ≡ some (ok (true, last)))
            × P last)
      → (fuel : ℕ) (offs : DirectoryOffset) → Reached d offs.off
      → offs.off ≤ off
      → minfs_max_directory_size ≤ fuel + offs.off
      → (last : DirectoryOffset) × (walk_from fuel d' (callback_find name) offs
          ≡ some (ok (true, last)))
        × P last
  unfolding next_dirent
  walk_from-reaches P base zero offs ro h f = absurd (ground (arith, i, h, f))
  walk_from-reaches P base (suc fuel) offs ro h f = elim (Bool-cases (offs.off == off)) [
    | inl q ↦
        let same : offs ≡ record { off = off; off_prev = offs.off_prev } =
          ap (λ o. record { off = o; off_prev = offs.off_prev }) ((==_iff offs.off off).0 q) in
        let (m, e) = predecessor fuel (ground (arith, i, f, h)) in
        rw (same, e) (base m offs.off_prev)
    | inr q ↦
        let less : offs.off < off = ground (arith, q, h) in
        let (m, v) = passed offs.off ro less in
        let (long, w) =
          validate_dirent-long (d.records offs.off) (bytes_read d offs.off) offs.off v in
        let on : walk_from (suc fuel) d' (callback_find name) offs
            ≡ walk_from fuel d' (callback_find name)
                (record { off = offs.off + reserved_at d offs.off; off_prev = offs.off }) =
          walk_from-on d' name fuel offs (ground (arith, i, less, grows))
            (kept-IsValid offs.off ro less) (rw (alike offs.off less) m)
          ∙ ap (λ de. walk_from fuel d' (callback_find name) (next_dirent de offs).1)
              (alike offs.off less) in
        let (last, e, x) =
          walk_from-reaches P base fuel
            (record { off = offs.off + reserved_at d offs.off; off_prev = offs.off })
            (reached_next offs.off ro long) (Reached-gap d offs.off off ro r less)
            (omega (arith, f, long)) in
        (last, on ∙ e, x)
  ]
