-- ===== src/Directory/Gap.antt =====
-- Two directories that differ in one record, which takes the place of several.
use fuchsia_minfs.Prelude.{
  ℕ, ◌+◌, ◌≤◌, ◌<◌, ◌≡◌, ◌≢◌, ◌⊎◌, inl, inr, ap, sym, subst, ◌∙◌, ltb, ◌==◌, arith, Bool-cases,
  ==_iff,
}
use fuchsia_minfs.Format.{dirent_reserved_size}
use fuchsia_minfs.Directory.Records.{Directory}
use fuchsia_minfs.Directory.Chain.{reserved_at, Reached, reached_start, reached_next, Reached-gap}

pub position : (p q : ℕ) → (p < q) ⊎ ((p ≡ q) ⊎ (q < p))
position p q = elim (Bool-cases (ltb p q)) [
  | inl e ↦ inl (ground arith)
  | inr e ↦ elim (Bool-cases (p == q)) [
    | inl f ↦ inr (inl ((==_iff p q).0 f))
    | inr f ↦ inr (inr (ground arith))
  ]
]

-- What a joined record at `off'` covers ends at `e`.
pub record Joins (d d' : Directory) (off' e : ℕ) : Type 0 where
  pub starts : Reached d off'
  pub stops : Reached d e
  pub before : off' < e
  pub long : 12 ≤ reserved_at d' off'
  pub ends : off' + reserved_at d' off' ≡ e
  pub alike : (o : ℕ) → o ≢ off' → d'.records o ≡ d.records o

module _ (d d' : Directory) (off' e : ℕ) (j : Joins d d' off' e) where
  reserved_alike : (o : ℕ) → o ≢ off' → reserved_at d' o ≡ reserved_at d o
  reserved_alike o n = ap (λ de. dirent_reserved_size de o) (j.alike o n)

  next_alike :
      (p : ℕ) → p ≢ off' → Reached d' p → 12 ≤ reserved_at d p → Reached d' (p + reserved_at d p)
  next_alike p n r long =
      subst (λ x. Reached d' (p + x)) (reserved_alike p n)
        (reached_next p r (subst (λ x. 12 ≤ x) (sym (reserved_alike p n)) long))

  pub low : (o : ℕ) → Reached d o → o ≤ off' → Reached d' o
  low o reached_start h = reached_start
  low o (reached_next p r long) h =
      next_alike p (λ q. omega (arith, q, h, long)) (low p r (omega (arith, h))) long

  at_end : Reached d' e
  at_end = subst (Reached d') j.ends (reached_next off' (low off' j.starts (omega arith)) j.long)

  pub high : (o : ℕ) → Reached d o → e ≤ o → Reached d' o
  high o reached_start h = absurd (omega (arith, h, j.before))
  high o (reached_next p r long) h = elim (position p e) [
    | inl q ↦
        let m = Reached-gap d p e r j.stops q in
        let same : e ≡ p + reserved_at d p = omega (arith, m, h) in subst (Reached d') same at_end
    | inr (inl q) ↦
        next_alike p (λ z. omega (arith, z, q, j.before)) (high p r (omega (arith, q))) long
    | inr (inr q) ↦
        next_alike p (λ z. omega (arith, z, q, j.before)) (high p r (omega (arith, q))) long
  ]

  pub outside : (o : ℕ) → Reached d' o → Reached d o × ((o ≤ off') ⊎ (e ≤ o))
  outside o reached_start = (reached_start, inl (omega arith))
  outside o (reached_next p r long) =
      let (rp, side) = outside p r in
      elim (position p off') [
        | inr (inl q) ↦
            let same : e ≡ p + reserved_at d' p =
              sym j.ends ∙ ap (λ x. x + reserved_at d' x) (sym q) in
            (subst (Reached d) same j.stops, inr (omega (arith, same)))
        | inl q ↦
            let n : p ≢ off' = omega (arith, q) in
            let s = reserved_alike p n in
            let m = Reached-gap d p off' rp j.starts q in
            (
              subst (λ x. Reached d (p + x)) (sym s)
                  (reached_next p rp (subst (λ x. 12 ≤ x) s long)),
              inl (omega (arith, s, m)),
            )
        | inr (inr q) ↦
            let n : p ≢ off' = omega (arith, q) in
            let s = reserved_alike p n in
            (
              subst (λ x. Reached d (p + x)) (sym s)
                  (reached_next p rp (subst (λ x. 12 ≤ x) s long)),
              elim side [ inl h ↦ absurd (omega (arith, h, q)) | inr h ↦ inr (omega (arith, h)) ],
            )
      ]
