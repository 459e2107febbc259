-- ===== src/Journal/Replay/Synced.antt =====
-- From a record's Sync in briefs/journal_write.go to its replay in fuse/journal_replay.go.
use briefs_utils.Base.{ℕ, ◌*◌, ◌^◌, ◌≤◌, ◌<◌}
use briefs_utils.Base.{Bool, true, false, none, Option, List, [], ◌≡◌}
use briefs_utils.Base.Words.{u64}
use briefs_utils.Base.Bytes.{All}
use briefs_utils.Journal.Ring.{is_journal_block}
use briefs_utils.Journal.Block.{Buffer, slice, journal_block_size}
use briefs_utils.Journal.State.{Journal, World}
use briefs_utils.Journal.Writer.{sync}
use briefs_utils.Journal.Writer.Intact.{IsIntact, is_wrapped, sync-IsIntact}
use briefs_utils.Journal.Writer.Carried.{Contents, Carries, Silent, here, sealed, retired}
use briefs_utils.Journal.Writer.Delivers.{sync-Delivers}
use briefs_utils.Journal.Writer.Ends.{sync-IsEnded}
use briefs_utils.Journal.Replay.{walk_journal}
use briefs_utils.Journal.Replay.Applied.{AreKnown, apply_past}
use briefs_utils.Journal.Replay.Disk.{disk_after}
use briefs_utils.Journal.Replay.Recovers.{walk_journal-Recovers}

Silent-AreKnown :
    (c d : Contents)
    → Silent c d
    → All AreKnown c.past
    → AreKnown c.pending
    → All AreKnown d.past × AreKnown d.pending
Silent-AreKnown c d here past pending = (past, pending)
Silent-AreKnown c d (sealed e s) past pending =
    let (p, q) = Silent-AreKnown c e s past pending in ((q, p), tt)
Silent-AreKnown c d (retired e s) past pending =
    let (p, q) = Silent-AreKnown c e s past pending in (tt, q)

-- Outside a checkpoint and in an intact ring, let a sync of a journal with pending records, all of
-- known types, return no error and not leave the ring wrapped full. Then the journal carries what
-- it carried, nothing of it pending, where only a checkpoint has taken written blocks away; and
-- walking the live log on the disk behind the journal's calls does what applying these records
-- does, in the order in which they were written, and fails where that fails. Blocks are of at least
-- 4096 and fewer than 2 ^ 32 bytes, and the checkpoint block on the disk has a journal magic.
pub sync-Recovers :
    {S : Type 0} (apply_record : ℕ → List ℕ → S → S × Option ℕ) (disk : ℕ → Buffer) (w : World)
    (c : Contents) (requested : Bool) (j : Journal) (s : S)
    → j.in_checkpoint ≡ false
    → IsIntact j
    → j.dirty ≡ true
    → Carries c j
    → All AreKnown c.past
    → AreKnown c.pending
    → (sync w requested j).1 ≡ none
    → is_wrapped (sync w requested j).0 ≡ false
    → journal_block_size ≤ (sync w requested j).0.block_size
    → (sync w requested j).0.block_size < 2 ^ 32
    → is_journal_block (
        slice
          (disk_after disk
            (sync w requested j).0.log
            (u64 ((sync w requested j).0.checkpoint_blk * (sync w requested j).0.block_size)))
          0
          (sync w requested j).0.block_size)
      ≡ true
    → (d : Contents) × Silent c d
      × Carries d (sync w requested j).0
      × (d.pending ≡ [])
      × (walk_journal apply_record
            (disk_after disk (sync w requested j).0.log)
            (sync w requested j).0
            s
          ≡ apply_past apply_record d.past s)
sync-Recovers apply_record disk w c requested j s idle intact dirty k past pending e away large
      small headed =
    let (d, silent, carried, empty) = sync-Delivers w c requested j idle intact dirty k e in
    (
      d,
      silent,
      carried,
      empty,
      walk_journal-Recovers apply_record disk d (sync w requested j).0 s
          (sync-IsIntact w requested j idle intact e) away carried
          (Silent-AreKnown c d silent past pending).0 (sync-IsEnded w c requested j dirty k e) large
          small headed,
    )
