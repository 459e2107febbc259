-- ===== src/Journal/Writer/Uses.antt =====
-- A journal in use: any sequence of calls of NewJournal, WriteRecord, Sync, Checkpoint and
-- SetInReplay of briefs/journal_write.go and briefs/journal_replay.go that return no error.
use briefs_utils.Base.{ℕ, ◌+◌, ◌*◌, ◌^◌, ◌≤◌, ◌<◌, ◌==◌}
use briefs_utils.Base.{Bool, false, ◌⊎◌, none, List, [], ◌≡◌, refl, arith, Option-cases, inl, inr}
use briefs_utils.Base.Words.{u64}
use briefs_utils.Journal.Writer.{write_record, sync, checkpoint}
use briefs_utils.Journal.State.{
  Journal, World, SuperblockLayout, JournalError, new_journal, fresh_journal, validate,
  init_cur_block, set_in_replay,
}
use briefs_utils.Journal.Writer.Places.{AllDistinct, offsets-AllDistinct}
use briefs_utils.Journal.Writer.Placed.{IsAt, ring_writes, ring_images}
use briefs_utils.Journal.Block.Framed.{init_block-IsBlock}
use briefs_utils.Journal.Writer.Carried.{Contents, Carries}
use briefs_utils.Journal.Writer.Idle.{IsIdle, sync-IsIdle, checkpoint-IsIdle, write_record-IsIdle}
use briefs_utils.Journal.Writer.Intact.{IsIntact, is_wrapped, sync-IsIntact}
use briefs_utils.Journal.Writer.Recorded.{checkpoint-IsIntact, write_record-IsIntact}

-- From `j` to `k`, where a record is only written in a ring that is not full.
pub data Uses (w : World) (j : Journal) : Journal → Type 0 where
  opened : (k : Journal) → k ≡ j → Uses w j k
  recorded :
      (i k : Journal) (record_type : ℕ) (bytes : List ℕ)
      → Uses w j i
      → is_wrapped i ≡ false
      → (write_record w record_type bytes i).1 ≡ none
      → k ≡ (write_record w record_type bytes i).0
      → Uses w j k
  synced :
      (i k : Journal) (requested : Bool)
      → Uses w j i
      → (sync w requested i).1 ≡ none
      → k ≡ (sync w requested i).0
      → Uses w j k
  checkpointed :
      (i k : Journal) → Uses w j i → (checkpoint w i).1 ≡ none → k ≡ (checkpoint w i).0 → Uses w j k
  replaying : (i k : Journal) (b : Bool) → Uses w j i → k ≡ set_in_replay b i → Uses w j k

abbrev pub IsSound : Journal → Type 0
IsSound j = IsIdle j × IsIntact j

Uses-IsSound : (w : World) (j k : Journal) → IsSound j → Uses w j k → IsSound k
unfolding set_in_replay
Uses-IsSound w j k h (opened _ e) = rw e h
Uses-IsSound w j k h (recorded i _ t bytes u away ok e) =
    let s = Uses-IsSound w j i h u in
    rw e
      (write_record-IsIdle w t bytes i s.0, (write_record-IsIntact w t bytes i s.0 s.1 away ok).0)
Uses-IsSound w j k h (synced i _ requested u ok e) =
    let s = Uses-IsSound w j i h u in
    rw e (sync-IsIdle w requested i s.0, sync-IsIntact w requested i s.0 s.1 ok)
Uses-IsSound w j k h (checkpointed i _ u ok e) =
    let s = Uses-IsSound w j i h u in
    rw e (checkpoint-IsIdle w i s.0, checkpoint-IsIntact w i s.0 s.1 ok)
Uses-IsSound w j k h (replaying i _ b u e) = let s = Uses-IsSound w j i h u in rw e s

-- A superblock whose log starts in the usable part of a ring that stands on the device.
pub record IsMountable (sb : SuperblockLayout) (size : ℕ) : Type 0 where
  pub ring : sb.journal_offset + sb.journal_blocks < 2 ^ 64
  pub device : (sb.journal_offset + sb.journal_blocks) * size < 2 ^ 64
  pub sized : 0 < size
  pub starts : sb.journal_offset ≤ sb.journal_log_start
  pub before : sb.journal_log_start + 1 < sb.journal_offset + sb.journal_blocks

fresh_journal-IsAt :
    (sb : SuperblockLayout) (size : ℕ)
    → IsMountable sb size
    → validate (fresh_journal sb size) ≡ none
    → IsAt 0 0 (fresh_journal sb size)
unfolding fresh_journal validate ring_writes
fresh_journal-IsAt sb size m e =
    let given : (size == 0) ≡ false = ground (arith, m.sized) in
    let whole : u64 (sb.journal_offset + sb.journal_blocks)
        ≡ sb.journal_offset + sb.journal_blocks =
      omega (arith, m.ring) in
    let fits : 4 ≤ sb.journal_blocks = ground (arith, e, m.ring) in
    let small : sb.journal_blocks ≤ 65536 = ground (arith, e, m.ring) in
    record {
      last = omega (arith, m.ring, fits);
      usable = omega (arith, m.ring, fits);
      small = omega (arith, m.ring, small);
      sized = rw given m.sized;
      fits = rw (given, whole) m.device;
      narrow = omega arith;
      from_start = m.starts;
      before_end = omega (arith, m.ring, m.before, fits);
      within = omega arith;
      here = ground (arith, m.ring, m.before, fits);
      counted = omega arith;
      bounded = omega arith;
      in_order = refl;
    }

-- A journal that NewJournal returns has passed the tests.
pub opened_lem :
    (sb : SuperblockLayout) (size : ℕ) (j : Journal)
    → new_journal sb size ≡ inr j
    → (validate (fresh_journal sb size) ≡ none) × (init_cur_block 0 (fresh_journal sb size) ≡ j)
unfolding new_journal
opened_lem sb size j e = elim (Option-cases (validate (fresh_journal sb size))) [
  | inl t ↦ (t, same (init_cur_block 0 (fresh_journal sb size)) (rw (t, new_journal) at e))
  | inr (x, t) ↦ absurd (clash x (rw (t, new_journal) at e))
]
  where
    same : (i : Journal) → ◌≡◌ {A = JournalError ⊎ Journal} (inr i) (inr j) → i ≡ j
    same i h = cc

    clash : (x : JournalError) → ◌≡◌ {A = JournalError ⊎ Journal} (inl x) (inr j) → ⊥
    clash x h = cc

pub new_journal-IsSound :
    (sb : SuperblockLayout) (size : ℕ) (j : Journal)
    → IsMountable sb size
    → new_journal sb size ≡ inr j
    → IsSound j
unfolding init_cur_block fresh_journal
new_journal-IsSound sb size j m e =
    let (ok, same) = opened_lem sb size j e in
    rw (← same) (refl, (0, fresh_journal-IsAt sb size m ok))

abbrev pub nothing : Contents
nothing = record { past = []; pending = [] }

-- A journal that was opened carries no record yet.
pub new_journal-Carries :
    (sb : SuperblockLayout) (size : ℕ) (j : Journal)
    → new_journal sb size ≡ inr j
    → Carries nothing j
unfolding init_cur_block fresh_journal ring_images
new_journal-Carries sb size j e =
    let (ok, same) = opened_lem sb size j e in
    rw (← same) (record {
      block = init_block-IsBlock 0 (omega arith);
      narrow = omega arith;
      at_end = omega arith;
      decodes = tt;
    })

-- From a superblock whose log starts in the usable part of its ring, and after any sequence of
-- records, syncs and checkpoints that return no error, where no record is written in a ring that is
-- wrapped full, no block of the ring has been written twice since the last checkpoint.
pub Uses-AllDistinct :
    (w : World) (sb : SuperblockLayout) (size : ℕ) (j k : Journal)
    → IsMountable sb size
    → new_journal sb size ≡ inr j
    → Uses w j k
    → AllDistinct (ring_writes (u64 (k.checkpoint_blk * k.block_size)) k.log)
Uses-AllDistinct w sb size j k m e u =
    let s = (Uses-IsSound w j k (new_journal-IsSound sb size j m e) u).1 in
    let r = s.1 in
    rw r.in_order (
      offsets-AllDistinct k.journal_start k.checkpoint_blk k.block_size k.sb.journal_log_start
        (omega (arith, r.usable)) (omega (arith, r.last, r.narrow)) r.sized
        (rw r.last (omega (arith, r.fits))) r.from_start r.before_end s.0 r.within)
