-- ===== src/Tests/Writer.antt =====
-- A journal of four blocks whose calls all succeed: a record written, and a sync.
use briefs_utils.Base.{
  ℕ, ◌*◌, ◌≡◌, refl, arith, List, [], ◌∷◌, ◌++◌, Option, some, none, true, false, Bool, replicate,
  inr,
}
use briefs_utils.Base.Words.{u64}
use briefs_utils.Journal.Block.{
  Buffer, RecordHeader, init_block, append_record, iterate_journal_block_records,
  parse_block_header,
}
use briefs_utils.Journal.Block.Records.{LogRecord}
use briefs_utils.Journal.Block.Framed.{
  IsBlock, init_block-IsBlock, append_record-IsBlock, visit_all,
  iterate_journal_block_records-visits,
}
use briefs_utils.Journal.Writer.{
  write_record, write_record_locked, sync, sync_locked, sync_depth, checkpoint_with,
  checkpoint_locked, commit,
}
use briefs_utils.Journal.State.{
  Journal, World, SuperblockLayout, new_journal, fresh_journal, validate, init_cur_block, run_all,
  proceed, append,
}
use briefs_utils.Journal.Ring.{next_ring_block}
use briefs_utils.Journal.Writer.Depth.{sync_depth-ends}
use briefs_utils.Journal.Writer.Places.{AllDistinct}
use briefs_utils.Journal.Writer.Placed.{ring_writes}
use briefs_utils.Journal.Writer.Intact.{IsIntact, is_wrapped}
use briefs_utils.Journal.Writer.Recorded.{write_record-IsIntact}
use briefs_utils.Journal.Writer.Uses.{
  opened, recorded, synced, IsMountable, new_journal-IsSound, new_journal-Carries, nothing,
  Uses-AllDistinct,
}
use briefs_utils.Journal.Writer.Carried.{Contents, Carries, Silent}
use briefs_utils.Journal.Writer.Adds.{add, write_record-Adds}
use briefs_utils.Journal.Writer.Order.{Committed, next_pos}
use briefs_utils.Journal.Writer.Commits.{sync-Commits}
use briefs_utils.Journal.Writer.Delivers.{sync-Delivers}

abbrev pub one_record : List ℕ
one_record = 7 ∷ 9 ∷ []

abbrev pub entry : LogRecord
entry = record { record_type = 5; bytes = one_record }

append_record-IsBlock_example :
    IsBlock (append_record (init_block 3) 16 5 one_record) 3 (entry ∷ [])
append_record-IsBlock_example =
    append_record-IsBlock (init_block 3) 3 5 one_record [] (init_block-IsBlock 3 (omega arith))
      (omega arith) (omega arith) (omega arith)

abbrev collect : ℕ → RecordHeader → List ℕ → List ℕ → Option (List ℕ)
collect i h bytes seen = some (bytes ++ seen)

abbrev block_of_one : Buffer
block_of_one = append_record (init_block 3) 16 5 one_record

iterate_journal_block_records-visits_example :
    iterate_journal_block_records block_of_one 4096 collect
      (parse_block_header block_of_one).record_count
      []
    ≡ visit_all collect 0 (entry ∷ []) []
iterate_journal_block_records-visits_example =
    iterate_journal_block_records-visits block_of_one 4096 3 collect (entry ∷ []) []
      append_record-IsBlock_example (omega arith) (omega arith)

abbrev pub world : World
world = record {
  fails = λ e log. false;
  sync_errno = λ log. none;
  free_counts = λ log. (40, 50);
  has_alloc_syncer = true;
  has_meta_syncer = true;
  has_data_drainer = true;
  has_wb_flusher = true;
}

abbrev layout : SuperblockLayout
layout = record {
  journal_offset = 10;
  journal_blocks = 4;
  journal_log_start = 10;
  journal_log_end = 10;
  checkpoint_seq = 2;
  trie_root_block = 30;
  free_data_blks = 41;
  free_inodes = 50;
  label = [];
}

abbrev mounted : Journal
mounted = init_cur_block 0 (fresh_journal layout 4096)

mounts : new_journal layout 4096 ≡ inr mounted
unfolding new_journal fresh_journal validate
mounts = refl

layout-IsMountable : IsMountable layout 4096
layout-IsMountable = omega arith

mounted-IsIntact : IsIntact mounted
mounted-IsIntact = (new_journal-IsSound layout 4096 mounted layout-IsMountable mounts).1

mounted_unwrapped : is_wrapped mounted ≡ false
unfolding init_cur_block fresh_journal
mounted_unwrapped = refl

abbrev pub written : Journal
written = (write_record world 5 one_record mounted).0

writes_mounted : (write_record world 5 one_record mounted).1 ≡ none
unfolding write_record write_record_locked init_cur_block fresh_journal append run_all proceed
writes_mounted = refl

sync_depth-ends_example :
    ((requested : Bool)
      → sync_depth world 8 requested written ≡ sync_locked world requested written)
    × ((flush : Bool)
        → checkpoint_with world (sync_depth world 8) flush written
          ≡ checkpoint_locked world flush written)
sync_depth-ends_example = sync_depth-ends world 7 written

mounted_live : mounted.in_replay ≡ false
unfolding init_cur_block fresh_journal
mounted_live = refl

mounted_idle : mounted.in_checkpoint ≡ false
unfolding init_cur_block fresh_journal
mounted_idle = refl

write_record-IsIntact_example : IsIntact written × (is_wrapped written ≡ false)
write_record-IsIntact_example =
    write_record-IsIntact world 5 one_record mounted mounted_idle mounted-IsIntact mounted_unwrapped
      writes_mounted

mounted-Carries : Carries nothing mounted
mounted-Carries = new_journal-Carries layout 4096 mounted mounts

write_record-Adds_example : (d : Contents) × Silent nothing d × Carries (add entry d) written
write_record-Adds_example =
    write_record-Adds world nothing 5 one_record mounted (omega arith) (omega arith) mounted_live
      mounted-IsIntact mounted_unwrapped mounted-Carries writes_mounted

abbrev carried : Contents
carried =
    add entry
      (write_record-Adds world nothing 5 one_record mounted (omega arith) (omega arith) mounted_live
        mounted-IsIntact mounted_unwrapped mounted-Carries writes_mounted).0

carried_lem : Carries carried written
carried_lem =
    (write_record-Adds world nothing 5 one_record mounted (omega arith) (omega arith) mounted_live
      mounted-IsIntact mounted_unwrapped mounted-Carries writes_mounted).2

pub written_idle : written.in_checkpoint ≡ false
unfolding write_record write_record_locked init_cur_block fresh_journal append run_all proceed
written_idle = refl

pub written_dirty : written.dirty ≡ true
unfolding write_record write_record_locked init_cur_block fresh_journal append run_all proceed
written_dirty = refl

abbrev pub saved : Journal
saved = (sync world true written).0

pub saves_written : (sync world true written).1 ≡ none
unfolding write_record write_record_locked init_cur_block fresh_journal append run_all proceed sync
    commit next_ring_block
saves_written = refl

pub written-IsIntact : IsIntact written
written-IsIntact =
    (write_record-IsIntact world 5 one_record mounted mounted_idle mounted-IsIntact
      mounted_unwrapped writes_mounted).0

sync-Delivers_example : (d : Contents) × Silent carried d × Carries d saved × (d.pending ≡ [])
sync-Delivers_example =
    sync-Delivers world carried true written written_idle written-IsIntact written_dirty carried_lem
      saves_written

sync-Commits_example :
    Committed
      (u64 (written.write_pos * written.block_size))
      written.cur_block
      (next_pos written)
      (sync world true written).0.log
sync-Commits_example = sync-Commits world true written refl written_dirty saves_written

Uses-AllDistinct_example :
    AllDistinct (ring_writes (u64 (saved.checkpoint_blk * saved.block_size)) saved.log)
Uses-AllDistinct_example =
    Uses-AllDistinct world layout 4096 mounted saved layout-IsMountable mounts (
      synced written saved true
        (recorded mounted written 5 one_record (opened mounted refl) mounted_unwrapped
          writes_mounted refl)
        saves_written refl)

-- One record and a sync.
unfoldable pub save_one : Journal → Journal
unfolding write_record sync
save_one j = (sync world false (write_record world 5 one_record j).0).0

-- Three syncs fill the three usable blocks with no checkpoint.
unfoldable pub full_ring : Journal
unfolding save_one
full_ring = save_one (save_one (save_one mounted))

full_ring_wrapped : is_wrapped full_ring ≡ true
unfolding full_ring write_record_locked init_cur_block fresh_journal append run_all proceed commit
    next_ring_block
full_ring_wrapped = refl

-- Then a record that overflows its block is behind a write on the oldest block, still in the log.
overflowed_ring : Journal
unfolding full_ring write_record
overflowed_ring =
    (write_record world 5 (replicate 4064 1) (write_record world 5 one_record full_ring).0).0

oldest_overwritten :
    ring_writes (13 * 4096) overflowed_ring.log ≡ 10 * 4096 ∷ 12 * 4096 ∷ 11 * 4096 ∷ 10 * 4096 ∷ []
unfolding overflowed_ring write_record_locked init_cur_block fresh_journal append run_all proceed
    commit next_ring_block ring_writes
oldest_overwritten = refl
