-- ===== src/Directory/Named.antt =====
-- The record that AppendDirent writes, and the round of a walk at it.
use fuchsia_minfs.Prelude.{
  take, ap, ℕ, suc, ◌+◌, ◌%◌, ◌^◌, ◌≤◌, ◌<◌, ◌≡◌, ◌≢◌, refl, true, false, ◌==◌, List, [], ◌∷◌,
  length, some, ok, arith,
}
use fuchsia_minfs.Format.{Dirent, dirent_size, dirent_reserved_size, minfs_max_directory_size}
use fuchsia_minfs.Directory.Records.{
  Directory, DirArgs, validate_dirent, bytes_read, walk_from, matches, same_name, callback_find,
}
use fuchsia_minfs.Directory.Append.{same_offset}
use fuchsia_minfs.Directory.Pass.{walk_from-found}

same_name_refl : (name : List ℕ) → same_name name name ≡ true
unfolding same_name
same_name_refl [] = refl
same_name_refl (x ∷ xs) = rw (same_offset x, same_name_refl xs) refl

pub validate_dirent-aligned :
    (de : Dirent) (bytes off : ℕ)
    → validate_dirent de bytes off ≡ ok tt
    → (dirent_reserved_size de off % 4 ≡ 0) × (12 ≤ bytes)
unfolding validate_dirent
validate_dirent-aligned de bytes off e = ground arith

pub validate_dirent-named :
    (de : Dirent) (bytes off : ℕ)
    → validate_dirent de bytes off ≡ ok tt
    → (de.ino == 0) ≡ false
    → 0 < de.namelen
unfolding validate_dirent
validate_dirent-named de bytes off e z = ground (arith, z)

pub validate_dirent-ok :
    (de : Dirent) (bytes off size : ℕ)
    → dirent_reserved_size de off ≡ size
    → 12 ≤ bytes
    → off + size ≤ minfs_max_directory_size
    → size % 4 ≡ 0
    → 0 < de.namelen
    → de.namelen + 12 ≤ size
    → validate_dirent de bytes off ≡ ok tt
unfolding validate_dirent
validate_dirent-ok de bytes off size e b w a n f = rw e (ground (arith, b, w, a, n, f))

take-length : {A : Type 0} (xs : List A) → take (length xs) xs ≡ xs
take-length [] = refl
take-length (x ∷ xs) = ap (λ ys. x ∷ ys) (take-length xs)

-- The record that AppendDirent writes.
abbrev pub new_dirent : DirArgs → ℕ → Dirent
new_dirent args reclen = record {
  ino = args.ino;
  reclen = reclen;
  namelen = length args.name % 2 ^ 8;
  dtype = args.dtype % 2 ^ 8;
  name = take (length args.name % 2 ^ 8) args.name;
}

-- A name that fits in a record, and an inode.
pub record IsNamed (args : DirArgs) : Type 0 where
  pub named : 0 < length args.name
  pub short : length args.name < 2 ^ 8
  pub reclen : args.reclen ≡ dirent_size (length args.name)
  pub ino : args.ino ≢ 0

pub dirent_size-fits :
    (n : ℕ) → (n + 12 ≤ dirent_size n) × (dirent_size n % 4 ≡ 0) × (dirent_size n ≤ n + 15)
unfolding dirent_size
dirent_size-fits n = omega arith

module _ (d' : Directory) (args : DirArgs) (n : IsNamed args) (new reclen size : ℕ)
    (records : d'.records new ≡ new_dirent args reclen)
    (e : dirent_reserved_size (new_dirent args reclen) new ≡ size) (fits : args.reclen ≤ size)
    (within : new + size ≤ minfs_max_directory_size) (aligned : size % 4 ≡ 0)
    (room : new + args.reclen ≤ d'.size) where
  pub new-found :
      (fuel prev : ℕ)
      → walk_from (suc fuel) d' (callback_find args.name) (record { off = new; off_prev = prev })
        ≡ some (ok (true, record { off = new; off_prev = prev }))
  unfolding matches
  new-found fuel prev =
      let s = dirent_size-fits (length args.name) in
      let l : length args.name % 2 ^ 8 ≡ length args.name = omega (arith, n.short) in
      let long : 13 ≤ args.reclen = omega (arith, n.reclen, s.0, n.named) in
      let z : (args.ino == 0) ≡ false = ground (arith, n.ino) in
      walk_from-found d' args.name fuel (record { off = new; off_prev = prev })
        (ground (arith, long, fits, within, room))
        (rw records (
          validate_dirent-ok (new_dirent args reclen) (bytes_read d' new) new size e
            (ground (arith, room, long)) within aligned (rw l n.named)
            (rw l (omega (arith, n.reclen, s.0, fits)))))
        (rw (records, z, l, take-length args.name, same_name_refl args.name) refl)
