-- ===== src/Journal/Replay/Mount.antt =====
-- replayJournal of fuse/journal_replay.go: two walks of the live log, what settles their outcome on
-- the disk, and the log marked clean. The calls on the file system that are not the journal's are
-- parameters, as functions of its state; none of them writes to the ring, and WriteRecord writes
-- nothing while the replay runs.
pub mod Opened
pub mod Clean
use briefs_utils.Base.{ℕ, ◌==◌}
use briefs_utils.Base.{if◌then◌else◌, Bool, true, false, Option, none, some, List, ◌>>=◌}
use briefs_utils.Journal.Block.{Buffer}
use briefs_utils.Journal.State.{Journal, World, JournalError, set_in_replay, replay_log_range}
use briefs_utils.Journal.Writer.{mark_clean_after_replay}
use briefs_utils.Journal.Replay.{walk_journal}

-- `apply_record` has the flag `reserveOnly`; `none` is an error. `begin_replay` makes the maps and the
-- cache of a replay, and `end_replay` is what is deferred to its end.
pub record Bridge (S : Type 0) : Type 0 where
  pub begin_replay : S → S
  pub end_replay : S → S
  pub apply_record : Bool → ℕ → List ℕ → S → S × Option ℕ
  pub build_xattr_live_set : S → S
  pub flush_cache_to_device : S → Option S
  pub replay_reconcile_nlinks : S → Option S
  pub sync_data_alloc : S → Option S
  pub sync_inode_alloc : S → Option S
  pub sync_device : S → Option S

module _ {S : Type 0} (b : Bridge S) where
  unfoldable pub settle : S → Option S
  settle s = b.flush_cache_to_device s >>= (λ s1.
      b.replay_reconcile_nlinks s1
      >>= (λ s2. b.sync_data_alloc s2 >>= (λ s3. b.sync_inode_alloc s3 >>= b.sync_device)))

  unfoldable pub replay_passes : (ℕ → Buffer) → Journal → S → Option S
  unfolding settle
  replay_passes disk j s =
      walk_journal (b.apply_record true) disk j (b.begin_replay s)
      >>= (λ s1. walk_journal (b.apply_record false) disk j (b.build_xattr_live_set s1) >>= settle)

  -- The file system's state and the journal's error, and the journal.
  unfoldable pub marked_clean : S → Journal × Option JournalError → Option S × Journal
  unfolding set_in_replay
  marked_clean s (j, none) = (some (b.end_replay s), set_in_replay false j)
  marked_clean s (j, some e) = (none, set_in_replay false j)

  unfoldable pub replay_outcome : World → Journal → Option S → Option S × Journal
  unfolding marked_clean mark_clean_after_replay set_in_replay
  replay_outcome w j none = (none, set_in_replay false j)
  replay_outcome w j (some s) = marked_clean s (mark_clean_after_replay w j)

  unfoldable pub replay_journal : World → (ℕ → Buffer) → Journal → S → Option S × Journal
  unfolding replay_outcome replay_passes set_in_replay replay_log_range
  replay_journal w disk j s =
      let (start, end, checkpoint_blk) = replay_log_range j in
      let entered = set_in_replay true j in
      if start == end then (some s, j) else replay_outcome w entered (replay_passes disk entered s)
