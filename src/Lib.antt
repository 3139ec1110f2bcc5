-- ===== src/Lib.antt =====
-- minfs, the file system under src/storage/minfs.
--
-- Parts. The superblock names the regions of the volume: bitmaps, inode table, journal, data
-- (format.h). An allocator hands out the bits of a bitmap, blocks or inodes, to reservations that
-- transactions hold (allocator/). What one transaction may touch is bounded beforehand
-- (transaction_limits.{h,cc}). An inode points to its blocks directly and through indirect blocks,
-- which vnode_mapper.{h,cc} follows. At mount the superblock is checked against the device, and Mkfs
-- lays a new volume out (minfs.cc). A directory is a file of records that it walks and splits
-- (directory.{h,cc}). Inodes that are unlinked and still open form a list that starts in the
-- superblock (minfs.cc). A vnode is purged when its last link and its last open are gone
-- (vnode.cc). Fsck reads a whole image and says whether it is sound (fsck.cc).
--
-- Files.
--   Prelude      words of 32 and 64 bits with their wrap-around, status codes, lists
--   Format       format.h: constants, Superblock, Inode, Dirent and the layout functions
--   Limits       transaction_limits.{h,cc}: GetRequiredBlockCount, CalculateDataBlocks and
--                CalculateIntegrityBlocks; Limits/Walk and Limits/Bounds hold the proofs
--   Allocator    allocator/: Allocator/State (PendingChange, Allocator, the two searches),
--                Allocator/Storage (AllocatorMetadata, PersistentStorage), Allocator/Ops (the
--                operations of Allocator and AllocatorReservation), Allocator/Bitmap (what they use
--                of the two bitmap classes); the other files of the folder hold the proofs
--   Mapper       vnode_mapper.{h,cc}: Mapper/Pointers (the pointers and Coalesce), Mapper/Iterator
--                (VnodeIterator and VnodeMapper), Mapper/Indirect (VnodeIndirectMapper);
--                Mapper/Mapping has the tree of pointers that the proofs compare with
--   Volume       minfs.cc: Volume/Checks (CheckSuperblock, CheckSlices, VerifySlicesSize,
--                UpdateChecksum), Volume/Mkfs (the superblock of Mkfs, and the writes that it tests)
--   Directory    directory.cc: Directory/Records (ValidateDirent, ForEachDirent, the callbacks for a
--                name and for space, AppendDirent), Directory/Erase (UnlinkChild, CanUnlink,
--                DirentCallbackUnlink, Unlink, and VnodeGet of minfs.cc), Directory/Names (Link and
--                LookupInternal); the other files of the folder hold the proofs
--   Unlinked     minfs.cc: Unlinked/List (AddUnlinked, RemoveUnlinked), Unlinked/Purge (PurgeUnlinked);
--                Unlinked/Add and Unlinked/Remove hold the proofs
--   Vnode        vnode.cc: Vnode/State (Allocate, AddLink, RemoveInodeLink, Purge, RemoveUnlinked,
--                CloseNode, RecycleNode; of minfs.cc VnodeNew, VnodeRelease, InoFree), Vnode/Steps (what may happen,
--                and what is reached so); the other files of the folder hold the proofs
--   Fsck         fsck.cc: Fsck/State (CheckDataBlock), Fsck/Files (GetInodeNthBno, CheckFile),
--                Fsck/Walk (CheckDirectory, CheckInode), Fsck/Totals (the other checks, Fsck);
--                the other files of the folder hold the proofs
--   Tests        concrete states, and the theorems applied to them
--
-- A function bears its source's name, in lower case with underscores. A pending change is an object
-- that the allocator's vector and its reservation both point to: it lives in the vector, under an
-- address, and the reservation holds the address. A lock is held for the whole of each operation of
-- the allocator, so an operation is one step. A ZX_ASSERT that fails stops the run (`aborted`); a
-- ZX_DEBUG_ASSERT is no test, and where it matters it is a hypothesis.
--
-- Fuel. FindLocked has one round for each element of the map and two more, since its start grows;
-- FindNextUnreserved has a round for each change and each element that is left: no call uses up
-- either. ForEachDirent passes at least 12 bytes of the largest directory in a round, and has as many
-- rounds as that has bytes. The loop of Mkfs adds 8 blocks of bitmap in a round: 8193 rounds pass
-- the 65536 blocks that the largest device needs. PurgeUnlinked needs a round for
-- each inode of its list. The other loops are recursions on what they count.
--
-- Parameters. RawBitmap and RleBitmap are the interface Bitmaps, with the laws that the documents of
-- these classes state, and Tests/Bits fulfils it with lists of bits. The block device's VolumeExtend
-- and the growth callback are the fields of Device. kMaxBlockDescriptors of the journal is an argument.
-- The virtual indirect file of a vnode, which a lazy buffer reads, is two fields of Pointers. The
-- volume manager and crc32 are arguments of the checks. What Writeblk returns for a block is an argument
-- of Mkfs. The vnodes of the unlinked list are links by inode number; a lookup that finds no vnode stops
-- RemoveInodeLink and CloseNode (`none`). What BeginTransaction and InoFree return for an inode is an
-- argument of PurgeUnlinked. What BeginTransaction, BlocksShrink, TruncateInternal and
-- FlushCachedWrites return is an argument of the operations of a vnode, and of Unlink. The image that
-- Fsck reads is a record of functions, and the result of CheckSuperblockIntegrity an argument.
--
-- Not modelled: reading the volume at mount, the journal and the block cache, the host tools, the
-- inspector, connections and tracing, which are input and output or glue to the platform.
pub mod Prelude
pub mod Format
pub mod Limits
pub mod Allocator
pub mod Mapper
pub mod Volume
pub mod Directory
pub mod Unlinked
pub mod Fsck
pub mod Vnode
pub mod Tests
