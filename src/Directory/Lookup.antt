-- ===== src/Directory/Lookup.antt =====
-- Link, and LookupInternal after it.
use fuchsia_minfs.Prelude.{
  ℕ, ◌+◌, ◌^◌, ◌<◌, ◌≡◌, ◌≢◌, refl, ap, inl, inr, true, false, not, ◌&&◌, ltb, ◌==◌, some, List,
  length, Result, ok, arith, Bool-cases,
}
use fuchsia_minfs.Format.{dirent_size}
use fuchsia_minfs.Limits.{get_required_block_count}
use fuchsia_minfs.Directory.Records.{
  Directory, DirectoryOffset, callback_find, callback_find_space, for_each_dirent,
}
use fuchsia_minfs.Directory.Erase.{vnode_get}
use fuchsia_minfs.Directory.Link.{append_dirent-Finds}
use fuchsia_minfs.Directory.Named.{IsNamed}
use fuchsia_minfs.Directory.Names.{
  lookup_internal, link_args, check_link, find_link_space, append_link, directory_link,
}
use fuchsia_minfs.Vnode.State.{Vnodes, put, put_vnode, add_link}
use fuchsia_minfs.Vnode.Frees.{put-same}

link_args-IsNamed :
    (name : List ℕ) (target : ℕ)
    → 0 < length name
    → length name < 2 ^ 8
    → 0 < target
    → IsNamed (link_args name target)
unfolding dirent_size
link_args-IsNamed name target n l t = record {
  named = n;
  short = l;
  reclen = omega (arith, n, l);
  ino = λ q. omega (arith, q, t);
}

-- VnodeGet of a vnode in range with a link.
vnode_get-ok :
    (inode_count : ℕ) (s : Vnodes) (ino : ℕ)
    → 0 < ino
    → ino < inode_count
    → (s.vnodes ino).link_count ≢ 0
    → (s' : Vnodes) × (vnode_get inode_count s ino ≡ ok s')
unfolding vnode_get
vnode_get-ok inode_count s ino p h n =
    let r : (not (ltb ino 1) && ltb ino inode_count) ≡ true = ground (arith, p, h) in
    let z : ((s.vnodes ino).link_count == 0) ≡ false = ground (arith, n) in
    elim (Bool-cases (s.in_hash ino)) [
      | inl q ↦ (s, rw (vnode_get, r, z, q) refl)
      | inr q ↦ (record s { in_hash = put s.in_hash ino true }, rw (vnode_get, r, z, q) refl)
    ]

abbrev linked : Vnodes → ℕ → Vnodes
linked s ino =
    put_vnode s ino (record (s.vnodes ino) { link_count = (s.vnodes ino).link_count + 1 })

add_link-some :
    (s : Vnodes) (ino : ℕ)
    → (s.vnodes ino).link_count + 1 < 2 ^ 32
    → add_link s ino ≡ some (linked s ino)
unfolding add_link
add_link-some s ino h =
    let q : ((s.vnodes ino).link_count + 1 == 2 ^ 32) ≡ false = ground (arith, h) in rw q refl

lookup_internal-found :
    (inode_count : ℕ) (s s' : Vnodes) (d : Directory) (name : List ℕ) (last : DirectoryOffset)
    (ino : ℕ)
    → for_each_dirent d (callback_find name) ≡ some (ok (true, last))
    → (d.records last.off).ino ≡ ino
    → vnode_get inode_count s ino ≡ ok s'
    → lookup_internal inode_count s d name ≡ some (ok (s', ino))
unfolding lookup_internal
lookup_internal-found inode_count s s' d name last ino e q g = rw (lookup_internal, e, q, g) refl

-- Link of a vnode that is no directory, to a name of 1 to 255 bytes that the walk over the directory does
-- not find, where the directory has a link and space for the name, BeginTransaction succeeds and the
-- vnode has fewer than 2^32 - 1 links: it succeeds, the vnode has a link more, and then LookupInternal of
-- the name returns the vnode.
pub directory_link-lookup_internal :
    (begin_transaction : ℕ → Result (Unit {0})) (inode_count block_size blocks : ℕ) (s : Vnodes)
    (d : Directory) (dir : ℕ) (name : List ℕ) (target : ℕ) (missing offs : DirectoryOffset)
    → check_link s dir target ≡ ok tt
    → 0 < length name
    → length name < 2 ^ 8
    → 0 < target
    → target < inode_count
    → (s.vnodes target).link_count + 1 < 2 ^ 32
    → for_each_dirent d (callback_find name) ≡ some (ok (false, missing))
    → for_each_dirent d (callback_find_space (link_args name target).reclen)
      ≡ some (ok (true, offs))
    → get_required_block_count d.size (link_args name target).reclen block_size ≡ ok blocks
    → begin_transaction blocks ≡ ok tt
    → (d' : Directory) × (s' : Vnodes) × (s'' : Vnodes) × (directory_link begin_transaction
          block_size s d dir name target
        ≡ some (d', (s', ok tt)))
      × ((s'.vnodes target).link_count ≡ (s.vnodes target).link_count + 1)
      × (lookup_internal inode_count s' d' name ≡ some (ok (s'', target)))
unfolding directory_link find_link_space append_link
directory_link-lookup_internal begin_transaction inode_count block_size blocks s d dir name target
      missing offs check named short pos range few miss space required begun =
    let (d', appended, (last, found, ino)) =
      append_dirent-Finds d (link_args name target) missing offs
        (link_args-IsNamed name target named short pos) miss space in
    let count : ((linked s target).vnodes target).link_count ≡ (s.vnodes target).link_count + 1 =
      ap (λ v. v.link_count)
        (put-same s.vnodes target
          (record (s.vnodes target) { link_count = (s.vnodes target).link_count + 1 })) in
    let (s'', got) =
      vnode_get-ok inode_count (linked s target) target pos range (λ q. omega (arith, q, count)) in
    (
      d',
      linked s target,
      s'',
      rw
          (
            directory_link,
            check,
            find_link_space,
            miss,
            space,
            append_link,
            required,
            begun,
            appended,
            add_link-some s target few,
          )
          refl,
      count,
      lookup_internal-found inode_count (linked s target) s'' d' name last target found ino got,
    )
