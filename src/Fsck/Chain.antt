-- ===== src/Fsck/Chain.antt =====
-- CheckUnlinkedInodes: the list that it follows never comes back to an inode, so that it ends, and an
-- image that passes holds the list.
use fuchsia_minfs.Prelude.{
  ℕ, zero, suc, ◌+◌, ◌-◌, ◌≤◌, ◌<◌, ◌≡◌, ◌≢◌, refl, sym, ◌∙◌, ap, subst, false, ◌==◌, inl, inr,
  List, [], ◌∷◌, length, All, bad_state, arith, Bool-cases, ==_iff,
}
use fuchsia_minfs.Prelude.Int.{negsuc}
use fuchsia_minfs.Prelude.Run.{Run, finished, out_of_fuel, ◌>>◌, require}
use fuchsia_minfs.Format.{Inode}
use fuchsia_minfs.Unlinked.List.{Unlinked, first, Linked, Fresh, Distinct}
use fuchsia_minfs.Fsck.State.{Image, Checker, put}
use fuchsia_minfs.Fsck.Walk.{Recurse, get_inode}
use fuchsia_minfs.Fsck.Totals.{check_unlinked_inode, check_unlinked_from}
use fuchsia_minfs.Fsck.Accounts.{member, Fresh-member}
use fuchsia_minfs.Fsck.Rules.{bind-ends, require-ends, require-then, bind-then}
use fuchsia_minfs.Fsck.Ends.{unmarked, unmarked-le, unmarked_lt}

-- The links of an image.
abbrev pub unlinked_of : Image → Unlinked
unlinked_of im = record {
  last_inode = λ i. (im.inodes i).last_inode;
  next_inode = λ i. (im.inodes i).next_inode;
  unlinked_head = im.info.unlinked_head;
  unlinked_tail = im.info.unlinked_tail;
}

-- The inodes that were met, the last one first.
pub record Met (im : Image) (x : ℕ) (xs : List ℕ) : Type 0 where
  pub not_zero : x ≢ 0
  pub below : x < im.info.inode_count
  pub back : (im.inodes x).last_inode ≡ first xs

abbrev pub Chain : Image → List ℕ → Type 0
Chain im [] = Unit {0}
Chain im (x ∷ xs) = Met im x xs × Chain im xs

first_other : (p : ℕ) (xs : List ℕ) → p ≢ 0 → Fresh p xs → first xs ≢ p
first_other p [] n f q = n (sym q)
first_other p (x ∷ xs) n (fx, f) q = fx q

-- An inode that names one that was met last is new.
named_elsewhere :
    (im : Image) (y p : ℕ) (xs : List ℕ)
    → (im.inodes y).last_inode ≡ p
    → p ≢ 0
    → Fresh p xs
    → Chain im xs
    → Fresh y xs
named_elsewhere im y p [] e n f c = tt
named_elsewhere im y p (x ∷ xs) e n (fx, f) (m, c) = (
  λ q. first_other p xs n f (sym m.back ∙ ap (λ i. (im.inodes i).last_inode) q ∙ e),
  named_elsewhere im y p xs e n f c,
)

pub new_inode :
    (im : Image) (y : ℕ) (xs : List ℕ)
    → y ≢ 0
    → (im.inodes y).last_inode ≡ first xs
    → Chain im xs
    → Distinct xs
    → Fresh y xs
new_inode im y [] n e c d = tt
new_inode im y (l ∷ xs) n e (m, c) (f, d) = (
  λ q. first_other l xs m.not_zero f (sym m.back ∙ ap (λ i. (im.inodes i).last_inode) q ∙ e),
  named_elsewhere im y l xs e m.not_zero f c,
)

-- There are no more of them than inodes.
length-Chain :
    (im : Image) (xs : List ℕ)
    → Chain im xs
    → Distinct xs
    → unmarked (λ i. member i xs) im.info.inode_count + length xs ≤ im.info.inode_count
length-Chain im [] c d = omega (arith, unmarked-le (λ i. false) im.info.inode_count)
length-Chain im (x ∷ xs) (m, c) (f, d) = omega (
  arith,
  length-Chain im xs c d,
  unmarked_lt (λ i. member i xs) (λ i. member i (x ∷ xs)) im.info.inode_count x
      (λ i h. ground (arith, h)) m.below (Fresh-member x xs f) (ground arith),
)

-- What is left of the list behind the inodes that were met.
pub record Rest (im : Image) (met : List ℕ) (next : ℕ) (xs : List ℕ) : Type 0 where
  pub starts : next ≡ first xs
  pub linked : Linked (unlinked_of im) (first met) xs
  pub distinct : Distinct xs
  pub apart : All (λ x. Fresh x met) xs
  pub unlinked : All (λ x. (im.inodes x).link_count ≡ 0) xs

tails : (y : ℕ) (met xs : List ℕ) → All (λ x. Fresh x (y ∷ met)) xs → Fresh y xs
tails y met [] h = tt
tails y met (x ∷ xs) ((n, f), h) = (λ q. n (sym q), tails y met xs h)

heads : (y : ℕ) (met xs : List ℕ) → All (λ x. Fresh x (y ∷ met)) xs → All (λ x. Fresh x met) xs
heads y met [] h = tt
heads y met (x ∷ xs) ((n, f), h) = (f, heads y met xs h)

module _ (im : Image) (recurse : Recurse) where
  -- What a round has made sure of.
  round-facts :
      (last next : ℕ) (inode : Inode) (c c' : Checker)
      → get_inode im next ≡ finished inode
      → check_unlinked_inode im recurse last next inode c ≡ finished c'
      → (next < im.info.inode_count)
        × (inode ≡ im.inodes next)
        × ((im.inodes next).link_count ≡ 0)
        × ((im.inodes next).last_inode ≡ last)
  unfolding get_inode check_unlinked_inode
  round-facts last next inode c c' g h =
      let run : Run Checker =
        recurse (record c { links = put c.links (next - 1) (negsuc 0) }) next 0 false in
      let (links, h1) =
        require-then (inode.link_count == 0) bad_state
          (require (inode.last_inode == last) bad_state >> run) h in
      let (back, h2) = require-then (inode.last_inode == last) bad_state run h1 in
      let same : inode ≡ im.inodes next = ground (arith, g) in
      (
        ground (arith, g),
        same,
        subst (λ i. i.link_count ≡ 0) same ((==_iff inode.link_count 0).0 links),
        subst (λ i. i.last_inode ≡ last) same ((==_iff inode.last_inode last).0 back),
      )

  round-Chain :
      (next : ℕ) (met : List ℕ) (inode : Inode) (c c' : Checker)
      → (next == 0) ≡ false
      → Chain im met
      → Distinct met
      → get_inode im next ≡ finished inode
      → check_unlinked_inode im recurse (first met) next inode c ≡ finished c'
      → Chain im (next ∷ met) × Distinct (next ∷ met)
  round-Chain next met inode c c' nz ch d g h =
      let (lt, same, links, back) = round-facts (first met) next inode c c' g h in
      let n : next ≢ 0 = ground arith in
      (
        (record { not_zero = n; below = lt; back = back }, ch),
        (new_inode im next met n back ch d, d),
      )

  module _ (ends : (c : Checker) (ino : ℕ) → recurse c ino 0 false ≢ out_of_fuel) where
    get_inode-ends : (ino : ℕ) → get_inode im ino ≢ out_of_fuel
    unfolding get_inode
    get_inode-ends ino h = ground arith

    check_unlinked_inode-ends :
        (last next : ℕ) (inode : Inode) (c : Checker)
        → check_unlinked_inode im recurse last next inode c ≢ out_of_fuel
    unfolding check_unlinked_inode
    check_unlinked_inode-ends last next inode c =
        require-ends (inode.link_count == 0) bad_state _
          (require-ends (inode.last_inode == last) bad_state _ (ends _ next))

    pub check_unlinked_from-ends :
        (fuel next : ℕ) (met : List ℕ) (c : Checker)
        → Chain im met
        → Distinct met
        → im.info.inode_count < length met + fuel
        → check_unlinked_from fuel im recurse (first met) next c ≢ out_of_fuel
    unfolding check_unlinked_from
    check_unlinked_from-ends zero next met c ch d b =
        absurd (omega (arith, length-Chain im met ch d, b))
    check_unlinked_from-ends (suc fuel) next met c ch d b = elim (Bool-cases (next == 0)) [
      | inl e ↦
          rw e
            (require-ends (im.info.unlinked_tail == first met) bad_state (finished c) (λ q. cc q))
      | inr e ↦ rw e (
          bind-ends (get_inode im next) _ (get_inode-ends next) λ inode g.
            bind-ends (check_unlinked_inode im recurse (first met) next inode c)
              (check_unlinked_from fuel im recurse next inode.next_inode)
              (check_unlinked_inode-ends (first met) next inode c)
              λ c' h.
                let (ch', d') = round-Chain next met inode c c' e ch d g h in
                check_unlinked_from-ends fuel inode.next_inode (next ∷ met) c' ch' d'
                  (omega (arith, b)))
    ]

  pub check_unlinked_from-Rest :
      (fuel next : ℕ) (met : List ℕ) (c c' : Checker)
      → Chain im met
      → Distinct met
      → check_unlinked_from fuel im recurse (first met) next c ≡ finished c'
      → (xs : List ℕ) × Rest im met next xs
  unfolding check_unlinked_from
  check_unlinked_from-Rest zero next met c c' ch d h = absurd (cc h)
  check_unlinked_from-Rest (suc fuel) next met c c' ch d h = elim (Bool-cases (next == 0)) [
    | inl e ↦
        let (tail, h1) =
          require-then (im.info.unlinked_tail == first met) bad_state (finished c) (rw e at h) in
        (
          [],
          record {
            starts = (==_iff next 0).0 e;
            linked = (==_iff im.info.unlinked_tail (first met)).0 tail;
            distinct = tt;
            apart = tt;
            unlinked = tt;
          },
        )
    | inr e ↦
        let (inode, g, h1) = bind-then (get_inode im next) _ (rw e at h) in
        let (c1, h2, h3) =
          bind-then (check_unlinked_inode im recurse (first met) next inode c)
            (check_unlinked_from fuel im recurse next inode.next_inode) h1 in
        let (lt, same, links, back) = round-facts (first met) next inode c c1 g h2 in
        let (ch', d') = round-Chain next met inode c c1 e ch d g h2 in
        let (xs, r) = check_unlinked_from-Rest fuel inode.next_inode (next ∷ met) c1 c' ch' d' h3 in
        (
          next ∷ xs,
          record {
            starts = refl;
            linked = (ch'.0.not_zero, back, ap (λ i. i.next_inode) (sym same) ∙ r.starts, r.linked);
            distinct = (tails next met xs r.apart, r.distinct);
            apart = (d'.0, heads next met xs r.apart);
            unlinked = (links, r.unlinked);
          },
        )
  ]
