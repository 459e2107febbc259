-- ===== src/Lib.antt =====
-- briefs-utils: the user-space tools of the BrieFS file system (mkfs, fsck and a FUSE bridge),
-- in Go. This library models the parts of the program that decide what is stored where.
--
-- The data pool and the inode pool of a volume are tracked by a bitmap of three levels
-- (briefs/allocator_core.go, briefs/allocator.go): a bit of level 2 is set when its block is
-- free, and a bit of a level above is set when the word below it is not 0. mkfs builds the
-- pools, the FUSE bridge and fsck change them through the same functions. The bridge keeps lists
-- of freed and allocated blocks as runs (fuse/runlist.go), fsck keeps the blocks that it saw in
-- use as intervals (cmd/fsck/blockset.go), and the bridge computes file modes from POSIX ACLs
-- (fuse/posix_acl.go). The mounted allocator (fuse/fs.go) adds a shield of blocks kept for
-- metadata (fuse/meta_shield.go) and marks what Sync has to write. briefs/briefs.go and
-- briefs/superblock.go say where nodes and inodes stand, briefs/journal_replay.go walks the
-- journal's ring, briefs/crc32c.go checks its records, and fuse/fileattr.go translates the
-- chattr flags.
--
-- Files:
-- - Base: shared names; Base/Tests, Lists and Partial hold tests, slices and Option chains,
--   Base/Words, Bytes and Bits the machine words, little-endian codecs and the bits of a word.
-- - Alloc: briefs/allocator_core.go, one function by clauses per Go function, with `none` for a
--   panic on an index out of range. Alloc/Builder: AllocBuilder of briefs/allocator.go. Alloc/Run:
--   AllocMarkFreeRun. Alloc/Bitmap, Level, Summary, Pyramid and Mark carry the proofs about the
--   levels, Alloc/Refine, Fresh, First, Search and Run/* the theorems.
-- - Acl: fuse/posix_acl.go; Acl/Codec and Acl/Mode the theorems.
-- - Pool: the allocator of fuse/fs.go over an Alloc; Pool/Shield: fuse/meta_shield.go;
--   Pool/Scan, Pool/Sync and Pool/Shield/Sum the theorems.
-- - Runs: fuse/runlist.go; Runs/Laws the theorems.
-- - BlockSet: cmd/fsck/blockset.go; BlockSet/Fold, Search, Laws and Each the theorems.
-- - Extents: the extent lists of a file, with the functions on them of fuse/file_ops.go
--   (lookupExtent, insertExtentSorted, splitUnwrittenAt) and fuse/extent_ops.go (freeExtentRange,
--   shiftExtents); Extents/Mapping says what a list maps, Extents/Clip what an edit keeps of one
--   extent, Extents/Lookup, Insert, Split, Free and Shift the theorems.
-- - Files: readFileData, writeFileData and their helpers of fuse/file_ops.go, over extent lists;
--   Files/Inode has the operations on an inode, Files/Content says what bytes a file has,
--   Files/Put, Round, Write and Tail carry the extent-backed write, Files/Promote the move out of
--   the inode, and Files/Read, Whole and Answer the theorems; Files/Range has collapseRangeOp and
--   insertRangeOp of fuse/extent_ops.go, Files/Collapsed and Opened their theorems.
-- - Btree: the bulk build of briefs/btree_build.go, as rebuildExtentIndex of fuse/file_ops.go
--   composes it; Btree/Holds says what a tree holds, Btree/Build, Levels and Tree the theorems;
--   Btree/Rebuild is the localized rebuild of fuse/extent_rebuild.go.
-- - Layout: briefs/briefs.go and briefs/superblock.go; Layout/Refs and Layout/Inodes the
--   theorems.
-- - Journal: Journal/Crc is briefs/crc32c.go, Journal/Ring the ring of briefs/journal_replay.go;
--   Journal/Crc/Laws and Journal/Ring/Walk the theorems. Journal/Block is one block of the
--   journal, its headers and records, as it is written and walked; Journal/Block/Records and
--   Framed the theorems.
-- - Journal/State and Journal/Writer: briefs/journal_write.go and MarkCleanAfterReplay, as steps
--   on the journal's state that may end in an error, over a log of the calls that leave the
--   journal; State has the state and the steps without a call, Writer the methods.
--   Journal/Writer/Frame has the rules of proof, Calm what the steps leave alone, Depth that
--   syncLocked and checkpointLocked stop calling each other, Places, Placed and Moves where the
--   writer stands in the ring, Idle, Intact and Recorded what every method keeps, Uses what holds
--   after any sequence of them; Carried, Delivers and Adds read the journal as a queue of records,
--   Order and Commits say in which order a sync makes its calls, Ends where its log ends.
-- - Journal/Replay: walkJournal of fuse/journal_replay.go with ReadJournalBlock, on a disk that
--   is a function from an offset to a block and whose reads succeed. Journal/Replay/Disk is the
--   disk behind the writer's log, Applied what a replay of one block should do, Ahead and Rounds
--   the rounds of the walk, Recovers the whole walk after a crash, and Synced a Sync before it;
--   Journal/Replay/Mount is replayJournal, Journal/Replay/Mount/Opened the journal that a mount
--   opens over a ring that another has written, and Journal/Replay/Mount/Clean the theorems.
-- - FileAttr: fuse/fileattr.go; FileAttr/Flags and FileAttr/SetGet the theorems.
-- - Tests: concrete inputs.
--
-- Conventions: a 64-bit word is a native number with `% 2 ^ 64` where the source can wrap. A
-- loop over a slice is structural recursion on the slice or on the number of its remaining
-- elements, so that no fuel is chosen; the loop of writeExtentData takes as many rounds as the
-- request has bytes, and each round writes one at least; syncLocked and checkpointLocked of the
-- journal call each other to a depth of one. Slices are lists; a read out of range is `none`
-- where Go panics.
--
-- Parameters: the build of a tree takes its block allocator as a step that can fail; reading and
-- writing a file takes the device as its bytes and the block allocator as a function on a state,
-- of which it is assumed that a block it gives is not in use and is in use from then on; the
-- walk of the journal takes the block reader and the visitor, as the source does; the replay
-- takes applyRecord and the other calls of replayJournal, on a state of the file system, none of
-- which writes to the ring; the mounted allocator takes its reclaim hook; the writer of the
-- journal takes the results of its calls, as functions of the calls before them, and which of
-- its four interfaces are set.
--
-- Not modelled: reading and writing devices, ioctls, the FUSE protocol loop, command lines,
-- printing and generated (de)serialisers, which are input and output or glue; locks, whose
-- critical sections are single steps here. Outside this library so far: the directory trie, the
-- node codec and the walk of the B+tree, the handlers of the replay's records and their
-- payloads, extended attributes, the commit of a file's extents, truncation and the other modes
-- of fallocate, directory operations, the deferred frees of fuse/cache.go, multi-block
-- allocation and Sync of fuse/fs.go, and the phases of fsck.
pub mod Base
pub mod Alloc
pub mod Acl
pub mod Runs
pub mod BlockSet
pub mod Layout
pub mod Journal
pub mod FileAttr
pub mod Extents
pub mod Btree
pub mod Files
pub mod Pool
mod Tests
