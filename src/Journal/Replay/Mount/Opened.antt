-- ===== src/Journal/Replay/Mount/Opened.antt =====
-- The journal that a mount opens over a ring that a writer has left: NewJournal of
-- briefs/journal_write.go, and what walkJournal of fuse/journal_replay.go sees of it.
use briefs_utils.Base.{ℕ, ◌+◌, ◌-◌, ◌^◌, ◌==◌}
use briefs_utils.Base.{true, false, Option, List, inr, ◌≡◌, refl, ◌∙◌, sym, arith}
use briefs_utils.Base.Words.{u64}
use briefs_utils.Journal.Block.{Buffer}
use briefs_utils.Journal.State.{
  Journal, SuperblockLayout, new_journal, fresh_journal, init_cur_block, set_in_replay,
  replay_log_range,
}
use briefs_utils.Journal.Replay.{
  walk_journal, read_journal_block, replay_block, journal_ring_geometry,
}
use briefs_utils.Journal.Writer.Placed.{IsAt}
use briefs_utils.Journal.Writer.Uses.{opened_lem}

-- The superblock has the ring and the live log of the journal.
pub record Names (sb : SuperblockLayout) (j : Journal) : Type 0 where
  pub first : sb.journal_offset ≡ j.journal_start
  pub end : sb.journal_offset + sb.journal_blocks ≡ j.journal_end
  pub log_start : sb.journal_log_start ≡ j.sb.journal_log_start
  pub log_end : sb.journal_log_end ≡ j.sb.journal_log_end

-- What the walk reads of a journal.
abbrev ring_at : ℕ → ℕ → ℕ → ℕ → ℕ → ℕ → Journal → Journal
ring_at first end cp size log_start log_end j = record j {
  journal_start = first;
  journal_end = end;
  checkpoint_blk = cp;
  block_size = size;
  sb = record (j.sb) { journal_log_start = log_start; journal_log_end = log_end };
}

module _ {S : Type 0} (apply_record : ℕ → List ℕ → S → S × Option ℕ) (disk : ℕ → Buffer) (s : S)
    (base : Journal) where
  walk_at : ℕ → ℕ → ℕ → ℕ → ℕ → ℕ → Option S
  walk_at first end cp size log_start log_end =
      walk_journal apply_record disk (ring_at first end cp size log_start log_end base) s

  walk_journal-walk_at :
      (j : Journal)
      → walk_journal apply_record disk j s
        ≡ walk_at j.journal_start j.journal_end j.checkpoint_blk j.block_size j.sb.journal_log_start
            j.sb.journal_log_end
  unfolding walk_at walk_journal read_journal_block replay_block journal_ring_geometry
      replay_log_range
  walk_journal-walk_at j = refl

-- A journal that is opened by a superblock with the ring and live log of another is walked as that
-- one.
pub walk_journal-opened :
    {S : Type 0} (apply_record : ℕ → List ℕ → S → S × Option ℕ) (disk : ℕ → Buffer)
    (sb : SuperblockLayout) (j m : Journal) (n : ℕ) (s : S)
    → IsAt n n j
    → Names sb j
    → new_journal sb j.block_size ≡ inr m
    → walk_journal apply_record disk m s ≡ walk_journal apply_record disk j s
unfolding fresh_journal init_cur_block
walk_journal-opened apply_record disk sb j m n s r names e =
    let (ok, same) = opened_lem sb j.block_size m e in
    let given : (j.block_size == 0) ≡ false = ground (arith, r.sized) in
    let end : u64 (sb.journal_offset + sb.journal_blocks) ≡ j.journal_end =
      omega (arith, names.end, r.narrow) in
    let checkpoint : u64 (u64 (sb.journal_offset + sb.journal_blocks) + (2 ^ 64 - 1))
        ≡ j.checkpoint_blk =
      omega (arith, end, r.last, r.narrow) in
    walk_journal-walk_at apply_record disk s j m
    ∙ rw (← same) (rw (given, checkpoint, end, names.first, names.log_start, names.log_end) refl)
    ∙ sym (walk_journal-walk_at apply_record disk s j j)

pub walk_journal-entered :
    {S : Type 0} (apply_record : ℕ → List ℕ → S → S × Option ℕ) (disk : ℕ → Buffer) (m : Journal)
    (s : S)
    → walk_journal apply_record disk (set_in_replay true m) s ≡ walk_journal apply_record disk m s
unfolding set_in_replay
walk_journal-entered apply_record disk m s =
    walk_journal-walk_at apply_record disk s m (record m { in_replay = true })
    ∙ sym (walk_journal-walk_at apply_record disk s m m)

pub opened_superblock :
    (sb : SuperblockLayout) (size : ℕ) (m : Journal) → new_journal sb size ≡ inr m → m.sb ≡ sb
unfolding fresh_journal init_cur_block
opened_superblock sb size m e = rw (← (opened_lem sb size m e).1) refl
