-- ===== src/Fsck/Files.antt =====
-- GetInodeNthBno and CheckFile.
use fuchsia_minfs.Prelude.{
  ℕ, zero, suc, ◌+◌, ◌-◌, ◌*◌, ◌/◌, ◌%◌, ◌==◌, ltb, leb, if◌then◌else◌, Option, none, some, get_or,
  u32, round_down, Result, ok, err, ◌>>=◌, Status, out_of_range,
}
use fuchsia_minfs.Format.{
  Inode, minfs_direct, minfs_indirect, minfs_doubly_indirect, minfs_direct_per_indirect,
  minfs_direct_per_dindirect, minfs_block_size,
}
use fuchsia_minfs.Mapper.Pointers.{max_blocks}
use fuchsia_minfs.Fsck.State.{
  Image, direct, indirect, double_indirect, BlockInfo, Checker, check_block, conform,
}

-- A block that was read last, and its number; 0 for none.
pub record Cached : Type 0 where
  pub number : ℕ
  pub contents : ℕ → ℕ

pub record Cache : Type 0 where
  pub indirect_cache : Cached
  pub doubly_cache : Cached

pub record NthBno : Type 0 where
  pub bno : ℕ
  pub next_n : ℕ

unfoldable pub read_cached : Image → Cached → ℕ → Result Cached
read_cached im cached bno =
    if cached.number == bno
    then ok cached
    else im.read_dat bno >>= λ d. ok (record { number = bno; contents = d })

-- The entry of an indirect block that is not 0.
unfoldable pub nth_of_indirect : Image → Cache → ℕ → ℕ → ℕ → Result (NthBno × Cache)
nth_of_indirect im cache ibno j next_n = do
  cached ← read_cached im cache.indirect_cache ibno
  ok (record { bno = cached.contents j; next_n = next_n }, record cache { indirect_cache = cached })

-- `n` counts from the first block behind the indirect blocks.
unfoldable pub nth_indirect : Image → Inode → Cache → ℕ → Result (NthBno × Cache)
nth_indirect im inode cache n =
    let i = n / minfs_direct_per_indirect in
    let ibno = get_or inode.inum i 0 in
    if ibno == 0
    then ok (record { bno = 0; next_n = minfs_direct + (i + 1) * minfs_direct_per_indirect }, cache)
    else nth_of_indirect im cache ibno (n % minfs_direct_per_indirect) (minfs_direct + n + 1)

abbrev pub double_start : ℕ
double_start = minfs_direct + minfs_indirect * minfs_direct_per_indirect

-- `n` counts from the first block behind the doubly indirect block `i`, whose number is `dibno`.
unfoldable pub nth_of_double : Image → Cache → ℕ → ℕ → ℕ → Result (NthBno × Cache)
nth_of_double im cache i dibno n = do
  cached ← read_cached im cache.doubly_cache dibno
  let j = n / minfs_direct_per_indirect
  let ibno = cached.contents j
  let cache' = record cache { doubly_cache = cached }
  if ibno == 0
      then ok (
        record {
          bno = 0;
          next_n =
              double_start + i * minfs_direct_per_dindirect + (j + 1) * minfs_direct_per_indirect;
        },
        cache',
      )
      else nth_of_indirect im cache' ibno (n % minfs_direct_per_indirect)
          (double_start + i * minfs_direct_per_dindirect + n + 1)

-- `n` counts from the first block behind the doubly indirect blocks.
unfoldable pub nth_double : Image → Inode → Cache → ℕ → Result (NthBno × Cache)
nth_double im inode cache n =
    let i = n / minfs_direct_per_dindirect in
    let dibno = get_or inode.dinum i 0 in
    if ltb i minfs_doubly_indirect
    then if dibno == 0
      then ok
          (record { bno = 0; next_n = double_start + (i + 1) * minfs_direct_per_dindirect }, cache)
      else nth_of_double im cache i dibno (n - i * minfs_direct_per_dindirect)
    else err out_of_range

unfoldable pub get_inode_nth_bno : Image → Inode → Cache → ℕ → Result (NthBno × Cache)
get_inode_nth_bno im inode cache n =
    if ltb n minfs_direct
    then ok (record { bno = get_or inode.dnum n 0; next_n = n + 1 }, cache)
    else if ltb ((n - minfs_direct) / minfs_direct_per_indirect) minfs_indirect
    then nth_indirect im inode cache (n - minfs_direct)
    else nth_double im inode cache (n - double_start)

-- LogicalBlockIndirect and LogicalBlockDoublyIndirect, of an indirect block.
abbrev pub logical_block_indirect : ℕ → ℕ
logical_block_indirect i = minfs_direct + i * minfs_direct_per_indirect

abbrev pub logical_block_doubly_indirect : ℕ → ℕ → ℕ
logical_block_doubly_indirect i j =
    double_start + minfs_direct_per_dindirect * i + j * minfs_direct_per_indirect

-- The checker and `block_count`.
abbrev pub Count : Type 0
Count = Checker × ℕ

abbrev pub count_block : Image → ℕ → BlockInfo → Count → Count
count_block im bno info (c, count) = (check_block im bno info c, u32 (count + 1))

-- The loops over an array of pointers to indirect blocks; `left` of them from `n` on.
unfoldable pub check_pointers : Image → (ℕ → BlockInfo) → (ℕ → ℕ) → ℕ → ℕ → Count → Count
check_pointers im info entry zero n s = s
check_pointers im info entry (suc left) n s =
    check_pointers im info entry left (n + 1)
      (if entry n == 0 then s else count_block im (entry n) (info n) s)

abbrev pub indirect_info : ℕ → ℕ → BlockInfo
indirect_info ino n = record { owner = ino; offset = logical_block_indirect n; use_type = indirect }

abbrev pub double_info : ℕ → ℕ → BlockInfo
double_info ino n = record {
  owner = ino;
  offset = logical_block_doubly_indirect n 0;
  use_type = double_indirect;
}

abbrev pub inner_info : ℕ → ℕ → ℕ → BlockInfo
inner_info ino n m = record {
  owner = ino;
  offset = logical_block_doubly_indirect n m;
  use_type = indirect;
}

abbrev pub direct_info : ℕ → ℕ → BlockInfo
direct_info ino n = record { owner = ino; offset = n; use_type = direct }

-- A doubly indirect block with the indirect blocks that it points to.
unfoldable pub check_double : Image → ℕ → ℕ → ℕ → Count → Result Count
check_double im ino n bno s = do
  entry ← im.read_dat bno
  ok (
      check_pointers im (inner_info ino n) entry minfs_direct_per_indirect 0
        (count_block im bno (double_info ino n) s))

unfoldable pub check_doubles : Image → ℕ → Inode → ℕ → ℕ → Count → Result Count
check_doubles im ino inode zero n s = ok s
check_doubles im ino inode (suc left) n s =
    (if get_or inode.dinum n 0 == 0 then ok s else check_double im ino n (get_or inode.dinum n 0) s)
    >>= check_doubles im ino inode left (n + 1)

-- The loop over the data blocks: `next_blk` follows the last block there is.
pub record Walk : Type 0 where
  pub counted : Count
  pub next_blk : ℕ

unfoldable pub visit_block : Image → ℕ → ℕ → NthBno → Walk → Walk
visit_block im ino n nth w =
    if nth.bno == 0
    then w
    else record { counted = count_block im nth.bno (direct_info ino n) w.counted; next_blk = n + 1 }

-- OUT_OF_RANGE ends the loop, whoever returned it.
abbrev pub stop_walk : Status → Walk → Result Walk
stop_walk out_of_range w = ok w
stop_walk e w = err e

-- A round of the loop, with the rounds that come after it.
abbrev pub with_block :
    Walk → (NthBno → Cache → Option (Result Walk)) → Result (NthBno × Cache) → Option (Result Walk)
with_block w next (err e) = some (stop_walk e w)
with_block w next (ok (nth, cache)) = next nth cache

-- `none` without fuel.
unfoldable pub check_blocks : ℕ → Image → ℕ → Inode → Cache → ℕ → Walk → Option (Result Walk)
check_blocks zero im ino inode cache n w = none
check_blocks (suc fuel) im ino inode cache n w =
    with_block w
      (λ nth cache'. check_blocks fuel im ino inode cache' nth.next_n (visit_block im ino n nth w))
      (get_inode_nth_bno im inode cache n)

-- fbl::round_up on 32 bits, of a multiple of a power of two.
abbrev pub size_blocks : ℕ → ℕ
size_blocks size =
    round_down (u32 (size + minfs_block_size - 1)) minfs_block_size / minfs_block_size

-- The two tests behind the loops.
unfoldable pub check_totals : Inode → Walk → Checker
check_totals inode w =
    let (c, count) = w.counted in
    conform (count == inode.block_count)
      (if w.next_blk == 0 then c else conform (leb w.next_blk (size_blocks inode.size)) c)

abbrev pub no_cache : Cache
no_cache = record {
  indirect_cache = record { number = 0; contents = λ j. 0 };
  doubly_cache = record { number = 0; contents = λ j. 0 };
}

unfoldable pub check_indirect : Image → ℕ → Inode → Checker → Count
check_indirect im ino inode c =
    check_pointers im (indirect_info ino) (λ n. get_or inode.inum n 0) minfs_indirect 0 (c, 0)

abbrev pub finish_file : Inode → Option (Result Walk) → Option (Result Checker)
finish_file inode none = none
finish_file inode (some r) = some (r >>= λ w. ok (check_totals inode w))

-- The data blocks come after the indirect blocks.
abbrev pub then_blocks :
    Inode → (Count → Option (Result Walk)) → Result Count → Option (Result Checker)
then_blocks inode blocks (err e) = some (err e)
then_blocks inode blocks (ok s) = finish_file inode (blocks s)

unfoldable pub check_file : Image → ℕ → Inode → Checker → Option (Result Checker)
check_file im ino inode c =
    then_blocks inode
      (λ s.
        check_blocks (max_blocks + 1) im ino inode no_cache 0
          (record { counted = s; next_blk = 0 }))
      (check_doubles im ino inode minfs_doubly_indirect 0 (check_indirect im ino inode c))
