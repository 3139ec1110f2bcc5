-- ===== src/Directory/Found.antt =====
-- Where the walk for a name stops, and the vnode there.
use fuchsia_minfs.Prelude.{
  ℕ, zero, suc, ◌≡◌, ◌≢◌, inl, inr, refl, ap, ◌∙◌, Bool, true, not, ◌&&◌, ltb, ◌==◌, if◌then◌else◌,
  List, some, Result, ok, err, ◌>>◌, ◌>>=◌, guard, out_of_range, bad_state, not_dir, arith,
  Bool-cases,
}
use fuchsia_minfs.Format.{minfs_max_directory_size}
use fuchsia_minfs.Directory.Records.{
  Directory, DirectoryOffset, validate_dirent, bytes_read, in_directory,
}
use fuchsia_minfs.Directory.Chain.{Reached, reached_next}
use fuchsia_minfs.Prelude.{>>-ok}
use fuchsia_minfs.Directory.Records.{
  iterator_done, iterator_next, next_dirent, visit, walk_from, matches, callback_find,
  for_each_dirent, at_start,
}
use fuchsia_minfs.Directory.Chain.{visit-next, visit-cases, find-Steps}
use fuchsia_minfs.Directory.Append.{walk_from-done}
use fuchsia_minfs.Directory.Find.{visit-find-done}
use fuchsia_minfs.Directory.Erase.{UnlinkCalls, vnode_get, can_unlink, check_unlink}
use fuchsia_minfs.Vnode.State.{Vnodes, put}
use fuchsia_minfs.Directory.Join.{Previous}

visit-find-on :
    (d : Directory) (name : List ℕ) (offs offs' : DirectoryOffset)
    → visit d (callback_find name) offs ≡ ok (iterator_next, offs')
    → (offs' ≡ (next_dirent (d.records offs.off) offs).1)
      × (validate_dirent (d.records offs.off) (bytes_read d offs.off) offs.off ≡ ok tt)
unfolding visit callback_find next_dirent
visit-find-on d name offs offs' e =
    let (v, c) =
      >>-ok (validate_dirent (d.records offs.off) (bytes_read d offs.off) offs.off)
        (callback_find name (d.records offs.off) offs) (iterator_next, offs') e in
    (
      elim (Bool-cases (matches name (d.records offs.off))) [
        | inl q ↦ absurd (let x = rw q at c in ground arith)
        | inr q ↦ let x = rw q at c in cc
      ],
      v,
    )

-- The walk for a name knows the record before the one where it stops.
pub walk_from-Previous :
    (fuel : ℕ) (d : Directory) (name : List ℕ) (offs last : DirectoryOffset)
    → Reached d offs.off
    → Previous d offs
    → walk_from fuel d (callback_find name) offs ≡ some (ok (true, last))
    → Reached d last.off × Previous d last
unfolding walk_from next_dirent
walk_from-Previous zero d name offs last r p e = absurd cc
walk_from-Previous (suc fuel) d name offs last r p e = elim (Bool-cases (in_directory d offs.off)) [
  | inr q ↦ absurd (let x = rw (q, walk_from) at e in ground arith)
  | inl q ↦ elim (visit-cases d (callback_find name) offs) [
    | inl (s, v) ↦ absurd (let x = rw (q, walk_from, v) at e in cc)
    | inr (inl (offs', v)) ↦
        let x = rw (q, walk_from, v) at e in
        let (m, same) = visit-find-done d name offs offs' v in
        let l : offs ≡ last = cc in rw (← l) (r, p)
    | inr (inr (offs', v)) ↦
        let (long, on, within) = visit-next d (callback_find name) offs offs' (find-Steps name) v in
        let (moved, valid) = visit-find-on d name offs offs' v in
        walk_from-Previous fuel d name offs' last (rw on (reached_next offs.off r long))
          (rw moved (inr (r, refl, valid))) (rw (q, walk_from, v) at e)
  ]
]

pub found-valid :
    (d : Directory) (name : List ℕ) (offs : DirectoryOffset)
    → for_each_dirent d (callback_find name) ≡ some (ok (true, offs))
    → (validate_dirent (d.records offs.off) (bytes_read d offs.off) offs.off ≡ ok tt)
      × (matches name (d.records offs.off) ≡ true)
unfolding for_each_dirent visit
found-valid d name offs e =
    let (at, v) = walk_from-done minfs_max_directory_size d (callback_find name) at_start offs e in
    let (m, same) = visit-find-done d name at offs v in
    let (valid, c) =
      >>-ok (validate_dirent (d.records at.off) (bytes_read d at.off) at.off)
        (callback_find name (d.records at.off) at) (iterator_done, offs) v in
    rw same (valid, m)

>>=-ok :
    {X Y : Type 0} (x : Result X) (f : X → Result Y) (r : Y)
    → (x >>= f) ≡ ok r
    → (a : X) × (x ≡ ok a) × (f a ≡ ok r)
>>=-ok (ok a) f r e = (a, refl, e)
>>=-ok (err s) f r e = absurd (ground arith)

-- VnodeGet gives no vnode without a link.
vnode_get-linked :
    (inode_count : ℕ) (s s' : Vnodes) (ino : ℕ)
    → vnode_get inode_count s ino ≡ ok s'
    → (s'.vnodes ino).link_count ≢ 0
unfolding vnode_get
vnode_get-linked inode_count s s' ino e z =
    let found : Result Vnodes =
      if s.in_hash ino && not ((s.vnodes ino).link_count == 0)
      then ok s
      else guard (not ((s.vnodes ino).link_count == 0)) bad_state
        >> ok (record s { in_hash = put s.in_hash ino true }) in
    let (g, f) = >>-ok (guard (not (ltb ino 1) && ltb ino inode_count) out_of_range) found s' e in
    elim (Bool-cases ((s.vnodes ino).link_count == 0)) [
      | inl y ↦ elim (Bool-cases (s.in_hash ino)) [
        | inl h ↦ let x = rw (y, h) at f in absurd (ground arith)
        | inr h ↦ let x = rw (y, h) at f in absurd (ground arith)
      ]
      | inr y ↦
          let w : (s.vnodes ino).link_count ≢ 0 = ground arith in
          elim (Bool-cases (s.in_hash ino)) [
            | inl h ↦
                let x = rw (y, h) at f in
                let same : s ≡ s' = cc in w (ap (λ t. (t.vnodes ino).link_count) same ∙ z)
            | inr h ↦
                let x = rw (y, h) at f in
                let same : record s { in_hash = put s.in_hash ino true } ≡ s' = cc in
                w (ap (λ t. (t.vnodes ino).link_count) same ∙ z)
          ]
    ]

pub check_unlink-linked :
    (calls : UnlinkCalls) (inode_count : ℕ) (s s' : Vnodes) (must_be_dir : Bool) (child : ℕ)
    → check_unlink calls inode_count s must_be_dir child ≡ ok s'
    → (s'.vnodes child).link_count ≢ 0
unfolding check_unlink
check_unlink-linked calls inode_count s s' must_be_dir child e =
    let (a, g, f) =
      >>=-ok (vnode_get inode_count s child)
        (λ t.
          guard (not (must_be_dir && not (t.vnodes child).is_directory)) not_dir
          >> (can_unlink calls.is_remote (t.vnodes child) >> ok t))
        s' e in
    let (g1, f1) =
      >>-ok (guard (not (must_be_dir && not (a.vnodes child).is_directory)) not_dir)
        (can_unlink calls.is_remote (a.vnodes child) >> ok a) s' f in
    let (g2, f2) = >>-ok (can_unlink calls.is_remote (a.vnodes child)) (ok a) s' f1 in
    let same : a ≡ s' = cc in vnode_get-linked inode_count s s' child (g ∙ ap ok same)
