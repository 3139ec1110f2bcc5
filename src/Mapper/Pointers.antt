-- ===== src/Mapper/Pointers.antt =====
-- The block pointers of a vnode: the three arrays of its inode, and the virtual indirect file, which
-- holds the pointers of its indirect blocks. GetIndirectFile with the lazy buffer behind it is a
-- parameter: what it holds once a range is loaded, and whether loading succeeds.
use fuchsia_minfs.Prelude.{
  ℕ, zero, suc, ◌+◌, ◌-◌, ◌*◌, true, false, ◌==◌, leb, List, get_or, u32, Result,
}
use fuchsia_minfs.Prelude.Outcome.{Outcome, zx_assert, from_result}
use fuchsia_minfs.Format.{
  minfs_direct, minfs_indirect, minfs_doubly_indirect, minfs_direct_per_indirect,
  minfs_direct_per_dindirect,
}

pub record Pointers : Type 0 where
  pub dnum : List ℕ
  pub inum : List ℕ
  pub dinum : List ℕ
  pub indirect_file : ℕ → ℕ
  pub load : (start end : ℕ) → Result (Unit {0})

-- The banks that a view may lie in.
pub data Bank : Type 0 where
  direct indirect doubly_indirect in_file : Bank

-- The pointer at an index of a bank.
unfoldable pub read : Pointers → Bank → ℕ → ℕ
read v direct i = get_or v.dnum i 0
read v indirect i = get_or v.inum i 0
read v doubly_indirect i = get_or v.dinum i 0
read v in_file i = v.indirect_file i

-- GetInodeDirectView, GetInodeIndirectView, GetInodeDoubleIndirectView and GetViewForIndirectFile.
unfoldable pub get_view : Pointers → Bank → ℕ → ℕ → Outcome (Unit {0})
get_view v direct start end = zx_assert (leb end minfs_direct)
get_view v indirect start end = zx_assert (leb end minfs_indirect)
get_view v doubly_indirect start end = zx_assert (leb end minfs_doubly_indirect)
get_view v in_file start end = from_result (v.load start end)

abbrev pub indirect_file_start_block : ℕ
indirect_file_start_block = minfs_direct

abbrev pub double_indirect_file_start_block : ℕ
double_indirect_file_start_block = minfs_direct + minfs_direct_per_indirect * minfs_indirect

abbrev pub max_blocks : ℕ
max_blocks = double_indirect_file_start_block + minfs_direct_per_dindirect * minfs_doubly_indirect

abbrev pub double_indirect_view_start : ℕ
double_indirect_view_start = minfs_indirect * minfs_direct_per_indirect

abbrev pub double_indirect_leaf_view_start : ℕ
double_indirect_leaf_view_start =
    double_indirect_view_start + minfs_doubly_indirect * minfs_direct_per_indirect

-- The two loops of Coalesce on an array `f`: `left` is `max_blocks - count`.
unfoldable pub coalesce_sparse : (ℕ → ℕ) → ℕ → ℕ → ℕ
coalesce_sparse f zero count = count
coalesce_sparse f (suc left) count = elim (f count == 0) [
  | true ↦ coalesce_sparse f left (count + 1)
  | false ↦ count
]

unfoldable pub coalesce_run : (ℕ → ℕ) → ℕ → ℕ → ℕ
coalesce_run f zero count = count
coalesce_run f (suc left) count = elim (f count == u32 (f (count - 1) + 1)) [
  | true ↦ coalesce_run f left (count + 1)
  | false ↦ count
]

unfoldable pub coalesce : (ℕ → ℕ) → ℕ → ℕ
coalesce f max_blocks = elim (f 0 == 0) [
  | true ↦ coalesce_sparse f (max_blocks - 1) 1
  | false ↦ coalesce_run f (max_blocks - 1) 1
]
