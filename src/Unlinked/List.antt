-- ===== src/Unlinked/List.antt =====
-- AddUnlinked and RemoveUnlinked, where the lookups find their vnodes (Vnode/State asks that first). The
-- two links of each inode, and the ends of the list in the superblock; 0 is no inode.
use fuchsia_minfs.Prelude.{ℕ, ◌≡◌, ◌≢◌, ◌==◌, if◌then◌else◌, List, [], ◌∷◌, All}

pub record Unlinked : Type 0 where
  pub last_inode : ℕ → ℕ
  pub next_inode : ℕ → ℕ
  pub unlinked_head : ℕ
  pub unlinked_tail : ℕ

-- SetNextInode and SetLastInode of the vnode of an inode.
abbrev pub store : (ℕ → ℕ) → ℕ → ℕ → ℕ → ℕ
store field ino value i = if i == ino then value else field i

-- The part of AddUnlinked for a list that is not empty.
unfoldable pub add_last : Unlinked → ℕ → Unlinked
add_last u ino = record u {
  next_inode = store u.next_inode u.unlinked_tail ino;
  last_inode = store u.last_inode ino u.unlinked_tail;
  unlinked_tail = ino;
}

unfoldable pub add_unlinked : Unlinked → ℕ → Unlinked
add_unlinked u ino =
    if u.unlinked_tail == 0
    then record u { unlinked_head = ino; unlinked_tail = ino }
    else add_last u ino

-- The two halves of RemoveUnlinked.
unfoldable pub unlink_before : Unlinked → ℕ → Unlinked
unlink_before u ino =
    if u.last_inode ino == 0
    then record u { unlinked_head = u.next_inode ino }
    else record u { next_inode = store u.next_inode (u.last_inode ino) (u.next_inode ino) }

unfoldable pub unlink_after : Unlinked → ℕ → Unlinked
unlink_after u ino =
    if u.next_inode ino == 0
    then record u { unlinked_tail = u.last_inode ino }
    else record u { last_inode = store u.last_inode (u.next_inode ino) (u.last_inode ino) }

unfoldable pub remove_unlinked : Unlinked → ℕ → Unlinked
remove_unlinked u ino = unlink_after (unlink_before u ino) ino

abbrev pub first : List ℕ → ℕ
first [] = 0
first (x ∷ xs) = x

-- The inodes of a list are linked both ways, behind `before`.
abbrev pub Linked : Unlinked → ℕ → List ℕ → Type 0
Linked u before [] = u.unlinked_tail ≡ before
Linked u before (x ∷ xs) =
    (x ≢ 0) × (u.last_inode x ≡ before) × (u.next_inode x ≡ first xs) × Linked u x xs

abbrev pub Fresh : ℕ → List ℕ → Type 0
Fresh x xs = All (λ y. y ≢ x) xs

abbrev pub Distinct : List ℕ → Type 0
Distinct [] = Unit {0}
Distinct (x ∷ xs) = Fresh x xs × Distinct xs

-- The superblock and the inodes hold the list.
pub record Holds (u : Unlinked) (xs : List ℕ) : Type 0 where
  pub head : u.unlinked_head ≡ first xs
  pub linked : Linked u 0 xs
  pub distinct : Distinct xs
