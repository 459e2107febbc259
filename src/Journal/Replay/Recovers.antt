-- ===== src/Journal/Replay/Recovers.antt =====
-- A crash and the mount after it: what the walk of fuse/journal_replay.go makes of the ring that the
-- writer of briefs/journal_write.go has left.
use briefs_utils.Base.{ℕ, zero, suc, ◌-◌, ◌*◌, ◌^◌, ◌≤◌, ◌<◌, ◌==◌, ltb, leb}
use briefs_utils.Base.{
  if◌then◌else◌, Bool, true, false, ◌||◌, Option, some, List, [], ◌∷◌, ◌≡◌, refl, sym, ◌∙◌, ap,
  arith,
}
use briefs_utils.Base.Words.{u64}
use briefs_utils.Base.Bytes.{All}
use briefs_utils.Journal.Ring.{is_journal_block, walk_from, walk_journal_ring}
use briefs_utils.Journal.Block.{Buffer, slice, journal_block_size}
use briefs_utils.Journal.Block.Records.{LogRecord}
use briefs_utils.Journal.State.{Journal, replay_log_range}
use briefs_utils.Journal.Replay.{
  read_journal_block, replay_block, walk_journal, walked_state, journal_ring_geometry,
}
use briefs_utils.Journal.Replay.Applied.{AreKnown, apply_past}
use briefs_utils.Journal.Replay.Disk.{disk_after, disk_after-Holds, Stored, Holds-Stored}
use briefs_utils.Journal.Replay.Ahead.{round_clean}
use briefs_utils.Journal.Replay.Rounds.{whole}
use briefs_utils.Journal.Writer.Places.{place, place-zero, offsets-AllDistinct}
use briefs_utils.Journal.Writer.Placed.{IsAt, ring_images}
use briefs_utils.Journal.Writer.Intact.{IsIntact, is_wrapped, not_wrapped}
use briefs_utils.Journal.Writer.Carried.{Contents, Carries}

-- The blocks that the log has written since the last checkpoint are on the disk.
Carries-Stored :
    (disk : ℕ → Buffer) (c : Contents) (j : Journal) (n : ℕ)
    → IsAt n n j
    → Carries c j
    → Stored
        (disk_after disk j.log)
        j.journal_start
        j.checkpoint_blk
        j.block_size
        j.sb.journal_log_start
        n
        c.past
Carries-Stored disk c j n r k =
    let cp = u64 (j.checkpoint_blk * j.block_size) in
    let apart =
      offsets-AllDistinct j.journal_start j.checkpoint_blk j.block_size j.sb.journal_log_start
        (omega (arith, r.usable)) (omega (arith, r.last, r.narrow)) r.sized
        (rw r.last (omega (arith, r.fits))) r.from_start r.before_end n r.within in
    let there = disk_after-Holds cp disk j.log (rw r.in_order apart) in
    Holds-Stored (disk_after disk j.log) j.journal_start j.checkpoint_blk j.block_size
      j.sb.journal_log_start n (ring_images cp j.log) c.past (rw r.in_order at there) k.decodes

module _ {S : Type 0} (apply_record : ℕ → List ℕ → S → S × Option ℕ) (disk : ℕ → Buffer)
    (j : Journal) where
  -- A clean log: one block is visited, and nothing is applied.
  walk_clean :
      (n : ℕ) (s : S)
      → IsAt n n j
      → j.sb.journal_log_start ≡ j.sb.journal_log_end
      → walk_journal apply_record disk j s ≡ some s
  unfolding walk_journal walk_journal_ring replay_block read_journal_block replay_log_range
      journal_ring_geometry
  walk_clean n s r e =
      let start = j.sb.journal_log_start in
      let blocks = j.journal_end - j.journal_start in
      let some_block : blocks ≡ suc (blocks - 1) = omega (arith, r.last, r.usable) in
      let empty : (start == j.sb.journal_log_end) ≡ true = ground arith in
      let inside : (ltb start j.journal_start || leb j.journal_end start) ≡ false =
        ground (arith, r.last, r.from_start, r.before_end) in
      ap
        (λ i. walked_state (
          walk_from (read_journal_block disk j) j.journal_start blocks start j.sb.journal_log_end
            (replay_block apply_record j) i start s))
        some_block
      ∙ round_clean (read_journal_block disk j) j.journal_start blocks start j.sb.journal_log_end
          (replay_block apply_record j) (blocks - 1)
          (slice (disk (u64 (start * j.block_size))) 0 j.block_size) s (rw inside refl)
          (skipped (start == j.checkpoint_blk) (start == j.sb.journal_log_end) _ empty) empty
    where
      skipped : (a b : Bool) (o : Option S) → b ≡ true → (if a || b then some s else o) ≡ some s
      skipped true b o e = refl
      skipped false true o e = refl
      skipped false false o e = cc

  walk_live :
      (n : ℕ) (rss : List (List LogRecord)) (s : S)
      → IsAt n n j
      → n < j.checkpoint_blk - j.journal_start
      → j.sb.journal_log_end ≡ place j.journal_start j.checkpoint_blk j.sb.journal_log_start n
      → journal_block_size ≤ j.block_size
      → j.block_size < 2 ^ 32
      → is_journal_block (slice (disk (u64 (j.checkpoint_blk * j.block_size))) 0 j.block_size)
        ≡ true
      → Stored disk j.journal_start j.checkpoint_blk j.block_size j.sb.journal_log_start n rss
      → All AreKnown rss
      → walk_journal apply_record disk j s ≡ apply_past apply_record rss s
  unfolding walk_journal walk_journal_ring replay_log_range journal_ring_geometry
  walk_live zero [] s r room ends large small headed st known = walk_clean zero s r (
      sym (
        ends
        ∙ place-zero j.journal_start j.checkpoint_blk j.sb.journal_log_start
            (omega (arith, r.usable)) (omega (arith, r.last, r.narrow)) r.from_start r.before_end))
  walk_live zero (rs ∷ rss) s r room ends large small headed st known = absurd st
  walk_live (suc n) rss s r room ends large small headed st known =
      let first : place j.journal_start j.checkpoint_blk j.sb.journal_log_start 0
          ≡ j.sb.journal_log_start =
        place-zero j.journal_start j.checkpoint_blk j.sb.journal_log_start (omega (arith, r.usable))
          (omega (arith, r.last, r.narrow)) r.from_start r.before_end in
      ap
        (λ cur. walked_state (
          walk_from (read_journal_block disk j) j.journal_start (j.journal_end - j.journal_start)
            j.sb.journal_log_start j.sb.journal_log_end (replay_block apply_record j)
            (j.journal_end - j.journal_start) cur s))
        (sym first)
      ∙ whole apply_record disk j (suc n) r (omega arith) room ends large small headed (suc n) rss s
          refl st known

-- At a journal with an intact ring that is not wrapped full, whose blocks carry records of known
-- types, and whose log ends where the writer stands, as a commit leaves it: walking the live log,
-- on the disk behind the calls of the journal's log, does what applying the records of all blocks
-- written since the last checkpoint does, in the order in which they were written, and fails where
-- that fails. Blocks are of at least 4096 and fewer than 2 ^ 32 bytes, and the checkpoint block on
-- the disk has a journal magic.
pub walk_journal-Recovers :
    {S : Type 0} (apply_record : ℕ → List ℕ → S → S × Option ℕ) (disk : ℕ → Buffer) (c : Contents)
    (j : Journal) (s : S)
    → IsIntact j
    → is_wrapped j ≡ false
    → Carries c j
    → All AreKnown c.past
    → j.sb.journal_log_end ≡ j.write_pos
    → journal_block_size ≤ j.block_size
    → j.block_size < 2 ^ 32
    → is_journal_block
        (slice (disk_after disk j.log (u64 (j.checkpoint_blk * j.block_size))) 0 j.block_size)
      ≡ true
    → walk_journal apply_record (disk_after disk j.log) j s ≡ apply_past apply_record c.past s
walk_journal-Recovers apply_record disk c j s intact away k known ends large small headed =
    let (n, (r, room)) = not_wrapped j intact away in
    walk_live apply_record (disk_after disk j.log) j n c.past s r room (ends ∙ r.here) large small
      headed (Carries-Stored disk c j n r k) known
