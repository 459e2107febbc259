-- ===== src/Journal/State.antt =====
-- The state of the journal of briefs/journal_write.go, the calls that leave it, and the steps that
-- make no call. A method is a step on the state that may end in an error; the state it has reached
-- by then is kept, as the source keeps it.
-- What a method calls outside the journal stands in `log`, the latest call first: the writes, the
-- waits for them, and the calls of the four interfaces that the FUSE bridge fills. `World` says
-- which of these fail, and which interfaces are set. A superblock is logged as its fields, not as
-- the bytes of its generated codec. Error texts are left out, their cause is kept.
use briefs_utils.Base.{ℕ, ◌+◌, ◌-◌, ◌^◌, ◌==◌, ltb, leb, ◌⊎◌, inl, inr}
use briefs_utils.Base.{
  if◌then◌else◌, Bool, true, false, not, ◌&&◌, Option, none, some, List, [], ◌∷◌, length,
}
use briefs_utils.Base.Words.{u32, u64}
use briefs_utils.Journal.Ring.{next_ring_block}
use briefs_utils.Journal.Block.{
  Buffer, zeroes, init_block, append_record, parse_block_header, write_checkpoint_block,
  journal_block_size, journal_block_hdr_size, journal_record_hdr_size,
}

-- The fields of the superblock that the journal reads or writes.
pub record SuperblockLayout : Type 0 where
  pub journal_offset : ℕ
  pub journal_blocks : ℕ
  pub journal_log_start : ℕ
  pub journal_log_end : ℕ
  pub checkpoint_seq : ℕ
  pub trie_root_block : ℕ
  pub free_data_blks : ℕ
  pub free_inodes : ℕ
  pub label : List ℕ

-- What is written: a block of the ring, or the superblock.
pub data Image : Type 0 where
  block_image : Buffer → Image
  superblock_image : SuperblockLayout → Image

-- A call out of the journal; `wrote_at` and `synced_range` have the offset in bytes.
pub data Event : Type 0 where
  wrote_at : ℕ → Image → Event
  synced_range : ℕ → Event
  synced_file drained_data synced_meta synced_allocators flushed_wb kicked_wb : Event

-- `sync_errno` is what sync_file_range answers, and `free_counts` what RefreshFreeCounts stores.
pub record World : Type 0 where
  pub fails : Event → List Event → Bool
  pub sync_errno : List Event → Option ℕ
  pub free_counts : List Event → ℕ × ℕ
  pub has_alloc_syncer : Bool
  pub has_meta_syncer : Bool
  pub has_data_drainer : Bool
  pub has_wb_flusher : Bool

pub data JournalError : Type 0 where
  bad_geometry too_small too_large out_of_range invalid_type empty_record ring_exhausted too_deep :
      JournalError
  call_failed : Event → JournalError

pub record Journal : Type 0 where
  pub sb : SuperblockLayout
  pub block_size : ℕ
  pub cur_block : Buffer
  pub block_seq : ℕ
  pub write_offset : ℕ
  pub write_pos : ℕ
  pub synced_pos : ℕ
  pub journal_start : ℕ
  pub journal_end : ℕ
  pub checkpoint_blk : ℕ
  pub checkpoint_seq : ℕ
  pub records_since_checkpoint : ℕ
  pub blocks_since_checkpoint : ℕ
  pub dirty : Bool
  pub in_checkpoint : Bool
  pub in_replay : Bool
  pub log : List Event

abbrev pub Outcome : Type 0
Outcome = Journal × Option JournalError

abbrev pub Op : Type 0
Op = Journal → Outcome

-- `if err := f(); err != nil { return err }`, then `g`.
unfoldable pub proceed : Outcome → Op → Outcome
proceed (j, none) g = g j
proceed (j, some e) g = (j, some e)

-- Steps in a row, up to the first error.
unfoldable pub run_all : List Op → Op
unfolding proceed
run_all [] j = (j, none)
run_all (f ∷ fs) j = proceed (f j) (run_all fs)

abbrev pub modify : (Journal → Journal) → Op
modify f j = (f j, none)

-- The step only where the test holds.
abbrev pub when : Bool → Op → Op
when b f j = if b then f j else (j, none)

abbrev pub jrn_end : ℕ
jrn_end = 13

abbrev pub journal_min_blocks : ℕ
journal_min_blocks = 4

abbrev pub journal_max_blocks : ℕ
journal_max_blocks = 65536

abbrev pub jrn_checkpoint_interval : ℕ
jrn_checkpoint_interval = 4096

abbrev pub errno_enosys : ℕ
errno_enosys = 38

abbrev pub errno_einval : ℕ
errno_einval = 22

unfoldable pub validate : Journal → Option JournalError
validate j =
    let n = j.journal_end - j.journal_start in
    if leb j.journal_end j.journal_start
    then some bad_geometry
    else if ltb n journal_min_blocks
    then some too_small
    else if ltb journal_max_blocks n
    then some too_large
    else none

unfoldable pub init_cur_block : ℕ → Journal → Journal
init_cur_block seq j = record j {
  cur_block = init_block seq;
  block_seq = seq;
  write_offset = journal_block_hdr_size;
}

-- The value that NewJournal builds.
unfoldable pub fresh_journal : SuperblockLayout → ℕ → Journal
fresh_journal sb block_size =
    let end = u64 (sb.journal_offset + sb.journal_blocks) in
    record {
      sb = sb;
      block_size = if block_size == 0 then journal_block_size else block_size;
      cur_block = zeroes;
      block_seq = 0;
      write_offset = 0;
      write_pos = sb.journal_log_start;
      synced_pos = sb.journal_log_start;
      journal_start = sb.journal_offset;
      journal_end = end;
      checkpoint_blk = u64 (end + (2 ^ 64 - 1));
      checkpoint_seq = sb.checkpoint_seq;
      records_since_checkpoint = 0;
      blocks_since_checkpoint = 0;
      dirty = false;
      in_checkpoint = false;
      in_replay = false;
      log = [];
    }

unfoldable pub new_journal : SuperblockLayout → ℕ → JournalError ⊎ Journal
unfolding fresh_journal validate init_cur_block
new_journal sb block_size =
    let j = fresh_journal sb block_size in
    elim (validate j) [ some e ↦ inl e | none ↦ inr (init_cur_block 0 j) ]

unfoldable pub next_block : Journal → ℕ → ℕ
next_block j cur = next_ring_block cur j.journal_start (j.journal_end - j.journal_start)

-- One block on, over the checkpoint block.
unfoldable pub advance : Journal → Journal
unfolding next_block
advance j =
    let next = next_block j j.write_pos in
    let blocks = u32 (j.blocks_since_checkpoint + 1) in
    if next == j.checkpoint_blk
    then record j { write_pos = next_block j next; blocks_since_checkpoint = u32 (blocks + 1) }
    else record j { write_pos = next; blocks_since_checkpoint = blocks }

-- checkpointLocked behind its flush of what is pending.
unfoldable pub retire : Journal → Journal
retire j = record j {
  checkpoint_seq = u64 (j.checkpoint_seq + 1);
  sb = record (j.sb) {
    checkpoint_seq = u64 (j.checkpoint_seq + 1);
    journal_log_start = j.write_pos;
    journal_log_end = j.write_pos;
  };
  records_since_checkpoint = 0;
  blocks_since_checkpoint = 0;
}

unfoldable pub checkpoint_block : Journal → Buffer
checkpoint_block j = write_checkpoint_block zeroes j.block_seq (record {
  seq = u64 (j.checkpoint_seq + 1);
  record_count = (parse_block_header j.cur_block).record_count;
  log_sequence_end = j.write_pos;
  trie_root_node = j.sb.trie_root_block;
  free_data_count = j.sb.free_data_blks;
  free_inode_count = j.sb.free_inodes;
})

-- A checkpoint with `in_checkpoint` set for its time, whether it fails or not.
unfoldable pub guarded : Op → Op
guarded checkpoint j =
    let out = checkpoint (record j { in_checkpoint = true }) in
    (record (out.0) { in_checkpoint = false }, out.1)

unfoldable pub retire_oldest : (Bool → Op) → Op
unfolding guarded
retire_oldest checkpoint j =
    when
      (not j.in_checkpoint
        && (j.write_pos == j.sb.journal_log_start && ltb 0 j.blocks_since_checkpoint))
      (guarded (checkpoint false)) j

unfoldable pub periodic : (Bool → Op) → Bool → Op
periodic checkpoint requested j =
    when (requested && leb jrn_checkpoint_interval j.records_since_checkpoint) (checkpoint true) j

unfoldable pub relieve : (Bool → Op) → Op
unfolding guarded next_block
relieve checkpoint j =
    when (not j.in_checkpoint && next_block j j.write_pos == j.sb.journal_log_start)
      (guarded (checkpoint true)) j

-- A ring of one usable block stays full.
unfoldable pub refuse_exhausted : Op
unfolding next_block
refuse_exhausted j =
    if next_block j j.write_pos == j.sb.journal_log_start
    then (j, some ring_exhausted)
    else (j, none)

unfoldable pub append : ℕ → List ℕ → Journal → Journal
append record_type bytes j = record j {
  cur_block = append_record j.cur_block j.write_offset record_type bytes;
  write_offset = j.write_offset + u32 (journal_record_hdr_size + u32 (length bytes));
  dirty = true;
  records_since_checkpoint = u32 (j.records_since_checkpoint + 1);
}

unfoldable pub set_log_end : Journal → Journal
set_log_end j = record j { sb = record (j.sb) { journal_log_end = j.write_pos } }

unfoldable pub set_synced : Journal → Journal
set_synced j = record j { synced_pos = j.write_pos }

-- The empty block after a flush.
unfoldable pub start_block : Journal → Journal
unfolding init_cur_block
start_block j =
    let fresh = init_cur_block (u32 (j.block_seq + 1)) j in record fresh { dirty = false }

unfoldable pub set_in_replay : Bool → Journal → Journal
set_in_replay b j = record j { in_replay = b }

-- The live range, and the block beside it.
unfoldable pub replay_log_range : Journal → ℕ × ℕ × ℕ
replay_log_range j = (j.sb.journal_log_start, j.sb.journal_log_end, j.checkpoint_blk)
