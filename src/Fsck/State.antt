-- ===== src/Fsck/State.antt =====
-- The image that MinfsChecker reads, and what it keeps while it reads.
use fuchsia_minfs.Prelude.{
  ℕ, ◌+◌, Bool, true, false, not, ◌==◌, leb, if◌then◌else◌, Option, none, some, List, [], ◌∷◌, ◌++◌,
  u32, Result,
}
use fuchsia_minfs.Format.{Superblock, Inode, Dirent}
use fuchsia_minfs.Prelude.Int.{ℤ}

-- `inodes` is InodeManager::Load; the two bitmaps are CheckAllocated of the two allocators; `read_dat`
-- is Minfs::ReadDat, and a block is read as an array of block numbers; `dirents`
-- is what a read of a directory's data gives as a record, by inode, offset and length.
pub record Image : Type 0 where
  pub info : Superblock
  pub inodes : ℕ → Inode
  pub inode_allocated : ℕ → Bool
  pub block_allocated : ℕ → Bool
  pub read_dat : ℕ → Result (ℕ → ℕ)
  pub dirents : ℕ → ℕ → ℕ → Result Dirent

pub data BlockType : Type 0 where
  direct indirect double_indirect : BlockType

pub record BlockInfo : Type 0 where
  pub owner : ℕ
  pub offset : ℕ
  pub use_type : BlockType

-- `links` is the number of links met less the number that the inode records.
pub record Checker : Type 0 where
  pub conforming : Bool
  pub checked_inodes : ℕ → Bool
  pub checked_blocks : ℕ → Bool
  pub blk_info : ℕ → List BlockInfo
  pub max_inode : ℕ
  pub alloc_inodes : ℕ
  pub alloc_blocks : ℕ
  pub links : ℕ → ℤ
  pub indirect_blocks : ℕ
  pub directory_blocks : ℕ

-- What CheckDataBlock says of a block that it refuses.
pub data BlockFault : Type 0 where
  reserved_bno out_of_range_bno not_allocated : BlockFault
  double_allocated : List BlockInfo → BlockFault

abbrev pub put {ℓ} : {A : Type ℓ} → (ℕ → A) → ℕ → A → ℕ → A
put f i v j = if j == i then v else f j

-- A bit of RawBitmap that is set.
abbrev pub set_bit : (ℕ → Bool) → ℕ → ℕ → Bool
set_bit f i = put f i true

-- blk_info_.insert, which keeps an entry that is there.
abbrev pub insert_info : List BlockInfo → BlockInfo → List BlockInfo
insert_info [] info = info ∷ []
insert_info (i ∷ is) info = i ∷ is

abbrev pub is_direct : BlockType → Bool
is_direct direct = true
is_direct indirect = false
is_direct double_indirect = false

unfoldable pub mark_block : ℕ → BlockInfo → Checker → Checker
mark_block bno info c = record c {
  checked_blocks = set_bit c.checked_blocks bno;
  blk_info = put c.blk_info bno (insert_info (c.blk_info bno) info);
  alloc_blocks = u32 (c.alloc_blocks + 1);
  indirect_blocks =
      if is_direct info.use_type then c.indirect_blocks else u32 (c.indirect_blocks + 1);
}

unfoldable pub check_data_block : Image → ℕ → BlockInfo → Checker → Checker × Option BlockFault
unfolding mark_block
check_data_block im bno info c =
    if bno == 0
    then (c, some reserved_bno)
    else if leb im.info.block_count bno
    then (c, some out_of_range_bno)
    else if not (im.block_allocated bno)
    then (c, some not_allocated)
    else if c.checked_blocks bno
    then (
      record c { blk_info = put c.blk_info bno (c.blk_info bno ++ info ∷ []) },
      some (double_allocated (c.blk_info bno)),
    )
    else (mark_block bno info c, none)

-- A fault is logged, and the image no longer conforms.
abbrev pub note_fault : Checker × Option BlockFault → Checker
note_fault (c, none) = c
note_fault (c, some fault) = record c { conforming = false }

unfoldable pub check_block : Image → ℕ → BlockInfo → Checker → Checker
check_block im bno info c = note_fault (check_data_block im bno info c)

abbrev pub conform : Bool → Checker → Checker
conform true c = c
conform false c = record c { conforming = false }
