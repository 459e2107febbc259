-- ===== src/Journal/Writer.antt =====
-- The methods of the journal, briefs/journal_write.go, with MarkCleanAfterReplay of
-- briefs/journal_replay.go. The mutex makes each exported method one step.
pub mod Frame
pub mod Calm
pub mod Depth
pub mod Places
pub mod Placed
pub mod Moves
pub mod Idle
pub mod Intact
pub mod Recorded
pub mod Uses
pub mod Carried
pub mod Delivers
pub mod Adds
pub mod Order
pub mod Commits
pub mod Ends
use briefs_utils.Base.{ℕ, zero, suc, ◌+◌, ◌-◌, ◌*◌, ◌%◌, ◌^◌, ◌==◌, ltb, leb, ◌⊎◌, inl, inr}
use briefs_utils.Base.{
  if◌then◌else◌, Bool, true, false, not, ◌&&◌, ◌||◌, Option, none, some, List, [], ◌∷◌, length,
}
use briefs_utils.Base.Words.{u32, u64}
use briefs_utils.Journal.Ring.{next_ring_block}
use briefs_utils.Journal.Block.{
  Buffer, zeroes, init_block, append_record, parse_block_header, Checkpoint, write_checkpoint_block,
  journal_block_size, journal_block_hdr_size, journal_record_hdr_size,
}
use briefs_utils.Journal.State.{
  Event, Image, Journal, Op, World, advance, append, block_image, call_failed, checkpoint_block,
  drained_data, empty_record, errno_einval, errno_enosys, flushed_wb, invalid_type, jrn_end,
  kicked_wb, modify, out_of_range, periodic, refuse_exhausted, relieve, retire, retire_oldest,
  run_all, set_log_end, set_synced, start_block, superblock_image, synced_allocators, synced_file,
  synced_meta, synced_range, too_deep, when, wrote_at,
}

module _ (w : World) where
  -- A call that the world may refuse.
  unfoldable pub call : Event → Op
  call e j =
      if w.fails e j.log then (j, some (call_failed e)) else (record j { log = e ∷ j.log }, none)

  -- By the errno of sync_file_range: two of them fall back to a sync of the file.
  unfoldable pub range_synced : Option ℕ → ℕ → Op
  unfolding call
  range_synced none off j = (record j { log = synced_range off ∷ j.log }, none)
  range_synced (some e) off j =
      if not (e == errno_enosys) && not (e == errno_einval)
      then (j, some (call_failed (synced_range off)))
      else call synced_file j

  unfoldable pub sync_range : ℕ → Op
  unfolding range_synced
  sync_range off j = range_synced (w.sync_errno j.log) off j

  unfoldable pub write_through : ℕ → Image → Op
  unfolding call sync_range run_all
  write_through off image = run_all (call (wrote_at off image) ∷ sync_range off ∷ [])

  unfoldable pub kick_wb : Op
  unfolding call
  kick_wb = when w.has_wb_flusher (call kicked_wb)

  unfoldable pub sync_wb : Op
  unfolding call
  sync_wb j = if w.has_wb_flusher then call flushed_wb j else call synced_file j

  unfoldable pub write_ring_block : ℕ → Buffer → Op
  unfolding write_through
  write_ring_block block buf j =
      if ltb block j.journal_start || leb j.journal_end block
      then (j, some out_of_range)
      else write_through (u64 (block * j.block_size)) (block_image buf) j

  unfoldable pub refresh_free_counts : Journal → Journal
  refresh_free_counts j =
      if w.has_alloc_syncer
      then record j {
        sb = record (j.sb) {
          free_data_blks = (w.free_counts j.log).0;
          free_inodes = (w.free_counts j.log).1;
        };
      }
      else j

  unfoldable pub sync_superblock : Op
  unfolding refresh_free_counts write_through
  sync_superblock j = let j' = refresh_free_counts j in write_through 0 (superblock_image j'.sb) j'

  -- What writeRecordLocked and syncLocked both do with the block under construction.
  unfoldable pub flush_block : Op
  unfolding write_ring_block advance start_block run_all
  flush_block j =
      run_all (write_ring_block j.write_pos j.cur_block ∷ modify advance ∷ modify start_block ∷ [])
        j

  unfoldable pub write_checkpoint : Op
  unfolding checkpoint_block write_ring_block
  write_checkpoint j = write_ring_block j.checkpoint_blk (checkpoint_block j) j

  abbrev pub checkpoint_steps : List Op
  checkpoint_steps =
      kick_wb
      ∷ when w.has_alloc_syncer (run_all (call synced_allocators ∷ sync_wb ∷ []))
      ∷ modify refresh_free_counts
      ∷ write_checkpoint
      ∷ modify retire
      ∷ sync_superblock
      ∷ []

  unfoldable pub checkpoint_flushed : Op
  unfolding kick_wb call sync_wb refresh_free_counts write_checkpoint retire sync_superblock run_all
  checkpoint_flushed = run_all checkpoint_steps

  unfoldable pub checkpoint_with : (Bool → Op) → Bool → Op
  unfolding checkpoint_flushed run_all
  checkpoint_with sync flush_pending j =
      run_all (when (flush_pending && j.dirty) (sync true) ∷ checkpoint_flushed ∷ []) j

  -- The data, the superblock that names the new end, and only then what the records describe.
  abbrev pub commit_steps : List Op
  commit_steps =
      when w.has_data_drainer (call drained_data)
      ∷ modify set_log_end
      ∷ sync_superblock
      ∷ when w.has_meta_syncer (call synced_meta)
      ∷ when w.has_alloc_syncer (call synced_allocators)
      ∷ sync_wb
      ∷ modify set_synced
      ∷ []

  unfoldable pub commit : Op
  unfolding call sync_superblock sync_wb set_log_end set_synced run_all
  commit = run_all commit_steps

  unfoldable pub write_pending : (Bool → Op) → Bool → Op
  unfolding flush_block commit periodic relieve run_all
  write_pending checkpoint requested j =
      when j.dirty
        (run_all (flush_block ∷ commit ∷ periodic checkpoint requested ∷ relieve checkpoint ∷ [])) j

  unfoldable pub sync_with : (Bool → Op) → Bool → Op
  unfolding retire_oldest write_pending run_all
  sync_with checkpoint requested j =
      when j.dirty (run_all (retire_oldest checkpoint ∷ write_pending checkpoint requested ∷ [])) j

  -- syncLocked with at most `depth` calls of itself below it, by way of checkpointLocked.
  unfoldable pub sync_depth : ℕ → Bool → Op
  unfolding checkpoint_with sync_with
  sync_depth zero requested j = (j, some too_deep)
  sync_depth (suc depth) requested j = sync_with (checkpoint_with (sync_depth depth)) requested j

  unfoldable pub sync_locked : Bool → Op
  unfolding sync_depth
  sync_locked = sync_depth 1

  unfoldable pub checkpoint_locked : Bool → Op
  unfolding checkpoint_with sync_locked
  checkpoint_locked = checkpoint_with sync_locked

  -- The fit test's other side: a new block, and room in the ring for it.
  unfoldable pub make_room : Op
  unfolding checkpoint_locked refuse_exhausted run_all
  make_room j =
      when (j.write_pos == j.sb.journal_log_start)
        (run_all (checkpoint_locked true ∷ refuse_exhausted ∷ [])) j

  unfoldable pub write_record_locked : ℕ → List ℕ → Op
  unfolding flush_block make_room append run_all
  write_record_locked record_type bytes j =
      let total = u32 (journal_record_hdr_size + u32 (length bytes)) in
      let fits = leb (j.write_offset + total) journal_block_size in
      if record_type == 0 || leb jrn_end record_type
      then (j, some invalid_type)
      else if length bytes == 0
      then (j, some empty_record)
      else run_all
          (when (not fits) (run_all (flush_block ∷ make_room ∷ []))
            ∷ modify (append record_type bytes)
            ∷ [])
          j

  unfoldable pub write_record : ℕ → List ℕ → Op
  unfolding write_record_locked
  write_record record_type bytes j =
      if j.in_replay then (j, none) else write_record_locked record_type bytes j

  unfoldable pub sync : Bool → Op
  unfolding sync_locked
  sync = sync_locked

  unfoldable pub checkpoint : Op
  unfolding checkpoint_locked
  checkpoint = checkpoint_locked true

  unfoldable pub close : Op
  unfolding sync
  close j = when j.dirty (sync false) j

  unfoldable pub update_label : List ℕ → Op
  unfolding sync_superblock
  update_label label j = sync_superblock (record j { sb = record (j.sb) { label = label } })

  unfoldable pub mark_clean_after_replay : Op
  unfolding refresh_free_counts sync_superblock
  mark_clean_after_replay j =
      let seq = u64 (j.checkpoint_seq + 1) in
      let clean : Journal = record j {
        sb = record (j.sb) { journal_log_start = j.sb.journal_log_end; checkpoint_seq = seq };
        write_pos = j.sb.journal_log_end;
        synced_pos = j.sb.journal_log_end;
        dirty = false;
        records_since_checkpoint = 0;
        blocks_since_checkpoint = 0;
        checkpoint_seq = seq;
      } in
      sync_superblock (refresh_free_counts clean)
