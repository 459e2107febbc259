-- ===== src/Tests/Replay.antt =====
-- A mount after a crash: the journal of Tests/Writer behind its sync, on a disk whose ring held
-- empty journal blocks before.
use briefs_utils.Base.{
  ℕ, ◌*◌, ◌≡◌, ◌≢◌, ◌>>=◌, refl, arith, List, [], ◌∷◌, ◌++◌, Option, some, none, true, false, inr,
}
use briefs_utils.Base.Words.{u64}
use briefs_utils.Journal.Ring.{
  is_journal_block, next_ring_block, walk_journal_ring, walk_from, header_magic,
}
use briefs_utils.Journal.Block.{
  Buffer, slice, init_block, append_record, count_record, copy_at, marshal_block_header,
  parse_block_header,
}
use briefs_utils.Journal.Block.Framed.{init_block-IsBlock, append_record-IsBlock}
use briefs_utils.Journal.Writer.{
  write_record, write_record_locked, sync, commit, mark_clean_after_replay,
}
use briefs_utils.Journal.State.{
  init_cur_block, fresh_journal, append, run_all, proceed, set_in_replay, new_journal, validate,
  Journal,
}
use briefs_utils.Journal.Writer.Placed.{ring_images}
use briefs_utils.Journal.Writer.Intact.{IsIntact, is_wrapped, sync-IsIntact}
use briefs_utils.Journal.Writer.Carried.{Contents, Carries, Silent}
use briefs_utils.Journal.Replay.{walk_journal, tolerate}
use briefs_utils.Journal.Replay.Applied.{apply_past, IsBlock-headed}
use briefs_utils.Journal.Replay.Disk.{disk_after}
use briefs_utils.Journal.Replay.Recovers.{walk_journal-Recovers}
use briefs_utils.Journal.Replay.Synced.{sync-Recovers}
use briefs_utils.Journal.Replay.Mount.{Bridge, settle, replay_journal}
use briefs_utils.Journal.Replay.Mount.Opened.{Names}
use briefs_utils.Journal.Replay.Mount.Clean.{recovered, replay_journal-Replays, replay_journal_once}
use briefs_utils.Tests.Writer.{
  world, written, saved, entry, one_record, written_idle, written_dirty, written-IsIntact,
  saves_written, full_ring, save_one,
}

abbrev old_disk : ℕ → Buffer
old_disk off = init_block 0

-- Every record's bytes, the latest first.
abbrev gather : ℕ → List ℕ → List ℕ → List ℕ × Option ℕ
gather record_type bytes seen = (bytes ++ seen, none)

abbrev in_ring : Contents
in_ring = record { past = (entry ∷ []) ∷ []; pending = [] }

saved-Carries : Carries in_ring saved
unfolding write_record write_record_locked init_cur_block fresh_journal append run_all proceed sync
    commit next_ring_block ring_images
saved-Carries = record {
  block = init_block-IsBlock 1 (omega arith);
  narrow = omega arith;
  at_end = refl;
  decodes = (
    (
      0,
      append_record-IsBlock (init_block 0) 0 5 one_record [] (init_block-IsBlock 0 (omega arith))
          (omega arith) (omega arith) (omega arith),
    ),
    tt,
  );
}

saved-IsIntact : IsIntact saved
saved-IsIntact = sync-IsIntact world true written written_idle written-IsIntact saves_written

saved_unwrapped : is_wrapped saved ≡ false
unfolding write_record write_record_locked init_cur_block fresh_journal append run_all proceed sync
    commit next_ring_block
saved_unwrapped = refl

saved_ends : saved.sb.journal_log_end ≡ saved.write_pos
unfolding write_record write_record_locked init_cur_block fresh_journal append run_all proceed sync
    commit next_ring_block
saved_ends = refl

saved_block_size : saved.block_size ≡ 4096
unfolding write_record write_record_locked init_cur_block fresh_journal append run_all proceed sync
    commit next_ring_block
saved_block_size = refl

saved_headed :
    is_journal_block (
      slice
        (disk_after old_disk saved.log (u64 (saved.checkpoint_blk * saved.block_size)))
        0
        saved.block_size)
    ≡ true
unfolding write_record write_record_locked init_cur_block fresh_journal append run_all proceed sync
    commit next_ring_block disk_after
saved_headed =
    IsBlock-headed (init_block 0) 4096 0 [] (omega arith) (init_block-IsBlock 0 (omega arith))

walk_journal-Recovers_example :
    walk_journal gather (disk_after old_disk saved.log) saved [] ≡ apply_past gather in_ring.past []
walk_journal-Recovers_example =
    walk_journal-Recovers gather old_disk in_ring saved [] saved-IsIntact saved_unwrapped
      saved-Carries (((omega arith, omega arith), tt), tt) saved_ends
      (omega (arith, saved_block_size)) (omega (arith, saved_block_size)) saved_headed

gathers_one : apply_past gather in_ring.past [] ≡ some one_record
unfolding tolerate
gathers_one = refl

abbrev waiting : Contents
waiting = record { past = []; pending = entry ∷ [] }

written-Carries : Carries waiting written
unfolding write_record write_record_locked init_cur_block fresh_journal append run_all proceed
    ring_images
written-Carries = record {
  block =
      append_record-IsBlock (init_block 0) 0 5 one_record [] (init_block-IsBlock 0 (omega arith))
        (omega arith) (omega arith) (omega arith);
  narrow = omega arith;
  at_end = refl;
  decodes = tt;
}

sync-Recovers_example :
    (d : Contents) × Silent waiting d
    × Carries d saved
    × (d.pending ≡ [])
    × (walk_journal gather (disk_after old_disk saved.log) saved [] ≡ apply_past gather d.past [])
sync-Recovers_example =
    sync-Recovers gather old_disk world waiting true written [] written_idle written-IsIntact
      written_dirty written-Carries tt ((omega arith, omega arith), tt) saves_written
      saved_unwrapped (omega (arith, saved_block_size)) (omega (arith, saved_block_size))
      saved_headed

abbrev bridge : Bridge (List ℕ)
bridge = record {
  begin_replay = λ seen. seen;
  end_replay = λ seen. seen;
  apply_record = λ reserve_only. gather;
  build_xattr_live_set = λ seen. seen;
  flush_cache_to_device = some;
  replay_reconcile_nlinks = some;
  sync_data_alloc = some;
  sync_inode_alloc = some;
  sync_device = some;
}

-- The journal that the next mount opens.
abbrev remounted : Journal
remounted = init_cur_block 0 (fresh_journal saved.sb saved.block_size)

remounts : new_journal saved.sb saved.block_size ≡ inr remounted
unfolding write_record write_record_locked init_cur_block fresh_journal append run_all proceed sync
    commit next_ring_block new_journal validate
remounts = refl

saved-Names : Names saved.sb saved
unfolding write_record write_record_locked init_cur_block fresh_journal append run_all proceed sync
    commit next_ring_block
saved-Names = record { first = refl; end = refl; log_start = refl; log_end = refl }

saved_live : saved.sb.journal_log_start ≢ saved.sb.journal_log_end
unfolding write_record write_record_locked init_cur_block fresh_journal append run_all proceed sync
    commit next_ring_block
saved_live = omega arith

cleans_remounted : (mark_clean_after_replay world (set_in_replay true remounted)).1 ≡ none
unfolding write_record write_record_locked init_cur_block fresh_journal append run_all proceed sync
    commit next_ring_block mark_clean_after_replay set_in_replay
cleans_remounted = refl

replay_journal-Replays_example :
    (replay_journal bridge world (disk_after old_disk saved.log) remounted []).0
    ≡ (recovered bridge world in_ring.past [] >>= (λ seen. some seen))
replay_journal-Replays_example =
    replay_journal-Replays bridge world old_disk in_ring saved saved-IsIntact saved_unwrapped
      saved-Carries (((omega arith, omega arith), tt), tt) saved_ends
      (omega (arith, saved_block_size)) (omega (arith, saved_block_size)) saved_headed saved.sb
      remounted saved-Names remounts [] saved_live cleans_remounted

-- Both passes gather the record.
remounted_replayed :
    (replay_journal bridge world (disk_after old_disk saved.log) remounted []).0
    ≡ some (one_record ++ one_record)
unfolding settle tolerate
remounted_replayed =
    replay_journal-Replays bridge world old_disk in_ring saved saved-IsIntact saved_unwrapped
      saved-Carries (((omega arith, omega arith), tt), tt) saved_ends
      (omega (arith, saved_block_size)) (omega (arith, saved_block_size)) saved_headed saved.sb
      remounted saved-Names remounts [] saved_live cleans_remounted

replay_journal_once_example :
    replay_journal bridge world old_disk
      (replay_journal bridge world (disk_after old_disk saved.log) remounted []).1
      []
    ≡ (some [], (replay_journal bridge world (disk_after old_disk saved.log) remounted []).1)
replay_journal_once_example =
    replay_journal_once bridge world (disk_after old_disk saved.log) old_disk remounted []
      (one_record ++ one_record) [] remounted_replayed

-- The full ring is one whose log ends where it starts: its three records are not applied.
full_ring_forgotten : walk_journal gather (disk_after old_disk full_ring.log) full_ring [] ≡ some []
unfolding full_ring save_one write_record write_record_locked init_cur_block fresh_journal append
    run_all proceed sync commit next_ring_block disk_after walk_journal walk_journal_ring walk_from
    is_journal_block header_magic slice append_record count_record copy_at marshal_block_header
    parse_block_header init_block
full_ring_forgotten = refl
