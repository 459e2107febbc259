-- ===== src/Journal/Replay.antt =====
-- Walking the live log at mount: walkJournal of fuse/journal_replay.go, with ReadJournalBlock of
-- briefs/journal_replay.go. The disk is a function from a byte offset to a block, and its reads
-- succeed. `applyRecord` is a parameter, on a state of the file system, with its errno; a walk that
-- fails gives `none`, and the mount fails.
pub mod Applied
pub mod Disk
pub mod Ahead
pub mod Rounds
pub mod Recovers
pub mod Synced
pub mod Mount
use briefs_utils.Base.{ℕ, zero, suc, ◌+◌, ◌-◌, ◌*◌, ◌==◌, ltb, leb}
use briefs_utils.Base.{if◌then◌else◌, Bool, not, ◌||◌, Option, none, some, List, [], ◌∷◌}
use briefs_utils.Base.Words.{u64}
use briefs_utils.Base.Bytes.{byte_at}
use briefs_utils.Journal.Crc.{verify_journal_record_checksum}
use briefs_utils.Journal.Ring.{
  walk_journal_ring, Walked, walked, read_failed, bad_magic, visit_failed,
}
use briefs_utils.Journal.Block.{
  Buffer, slice, RecordHeader, parse_block_header, Iterated, iterated, overflowed, visit_stopped,
  iterate_journal_block_records, jrn_checkpoint,
}
use briefs_utils.Journal.State.{Journal, replay_log_range, jrn_end}

abbrev pub enoent : ℕ
enoent = 2

abbrev pub replay_einval : ℕ
replay_einval = 22

unfoldable pub read_journal_block : (ℕ → Buffer) → Journal → ℕ → Option (List ℕ)
read_journal_block disk j block =
    if ltb block j.journal_start || leb j.journal_end block
    then none
    else some (slice (disk (u64 (block * j.block_size))) 0 j.block_size)

unfoldable pub journal_ring_geometry : Journal → ℕ × ℕ
journal_ring_geometry j = (j.journal_start, j.journal_end - j.journal_start)

module _ {S : Type 0} where
  -- A freed inode, or one that is not there, is skipped.
  unfoldable pub tolerate : S × Option ℕ → Option S
  tolerate (s, none) = some s
  tolerate (s, some e) = if e == replay_einval || e == enoent then some s else none

  unfoldable pub iterated_state : Iterated S → Option S
  iterated_state (iterated s) = some s
  iterated_state (overflowed i s) = none
  iterated_state (visit_stopped i s) = none

  -- A block with a bad magic is the torn tail of the log.
  unfoldable pub walked_state : Walked S → Option S
  walked_state (walked s) = some s
  walked_state (bad_magic b s) = some s
  walked_state (read_failed b s) = none
  walked_state (visit_failed b s) = none

  module _ (apply_record : ℕ → List ℕ → S → S × Option ℕ) where
    unfoldable pub replay_record : ℕ → RecordHeader → List ℕ → S → Option S
    unfolding tolerate
    replay_record i hdr bytes s =
        if hdr.record_type == 0 || leb jrn_end hdr.record_type
        then none
        else if not (verify_journal_record_checksum hdr.record_type hdr.flags bytes hdr.checksum)
        then none
        else if hdr.record_type == jrn_checkpoint
        then some s
        else tolerate (apply_record hdr.record_type bytes s)

    unfoldable pub replay_block : Journal → ℕ → List ℕ → S → Option S
    unfolding replay_record iterated_state replay_log_range
    replay_block j cur buf s =
        let (start, end, checkpoint_blk) = replay_log_range j in
        let bh = parse_block_header (byte_at buf) in
        if cur == checkpoint_blk || start == end
        then some s
        else iterated_state (
            iterate_journal_block_records (byte_at buf) j.block_size replay_record bh.record_count
              s)

    unfoldable pub walk_journal : (ℕ → Buffer) → Journal → S → Option S
    unfolding replay_block walked_state read_journal_block journal_ring_geometry
    walk_journal disk j s =
        let (start, end, checkpoint_blk) = replay_log_range j in
        let (offset, blocks) = journal_ring_geometry j in
        walked_state
          (walk_journal_ring (read_journal_block disk j) offset blocks start end (replay_block j) s)
