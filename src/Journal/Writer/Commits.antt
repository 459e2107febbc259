-- ===== src/Journal/Writer/Commits.antt =====
-- Sync of briefs/journal_write.go commits its block: the steps around the commit, up to the
-- whole method.
use briefs_utils.Base.{◌*◌, ◌==◌, ltb, leb}
use briefs_utils.Base.{Bool, true, false, ◌&&◌, not, none, [], ◌∷◌, ◌≡◌, refl}
use briefs_utils.Base.Words.{u64}
use briefs_utils.Journal.Writer.{
  flush_block, commit, checkpoint_flushed, checkpoint_with, write_pending, sync_with, sync_depth,
  sync_locked, sync,
}
use briefs_utils.Journal.State.{
  Journal, World, Op, run_all, when, guarded, retire_oldest, periodic, relieve,
  jrn_checkpoint_interval, next_block,
}
use briefs_utils.Journal.Writer.Frame.{
  Keeps, Ensures, run_all-Keeps, when-Keeps, run_all-Ensures, step, done, Keeps-Ensures,
  proceed-Ensures, when_at,
}
use briefs_utils.Journal.Writer.Calm.{
  IsRetirable, guarded-Keeps, commit-Keeps, checkpoint_flushed-Keeps,
}
use briefs_utils.Journal.Writer.Depth.{IsClean, checkpoint_with-clean, flush_block-Ensures}
use briefs_utils.Journal.Writer.Delivers.{Both, Both-IsRetirable, dirty-IsRetirable, clash}
use briefs_utils.Journal.Writer.Order.{
  Committed, Committed-IsRetirable, Flushed, commits, next_pos, Same, Same-IsRetirable, flushes,
}

module _ (w : World) (j0 : Journal) where
  module _ (s : Bool → Op) (has : w.has_meta_syncer ≡ true) where
    Done : Journal → Type 0
    Done =
        Both IsClean
          (λ j. Committed (u64 (j0.write_pos * j0.block_size)) j0.cur_block (next_pos j0) j.log)

    Done-IsRetirable : IsRetirable Done
    unfolding Done
    Done-IsRetirable =
        Both-IsRetirable IsClean _ (dirty-IsRetirable false)
          (Committed-IsRetirable w (u64 (j0.write_pos * j0.block_size)) j0.cur_block (next_pos j0))

    checkpoint-Done : Keeps Done (checkpoint_with w s true)
    unfolding Done
    checkpoint-Done j p = rw (checkpoint_with-clean w s true j p.0) (
        run_all-Keeps Done (checkpoint_flushed w ∷ [])
          (checkpoint_flushed-Keeps w Done-IsRetirable, tt) j p)

    Pending : Journal → Type 0
    Pending = Both (λ j. j.dirty ≡ true) (Same w j0)

    Pending-IsRetirable : IsRetirable Pending
    unfolding Pending
    Pending-IsRetirable =
        Both-IsRetirable (λ j. j.dirty ≡ true) (Same w j0) (dirty-IsRetirable true)
          (Same-IsRetirable w j0)

    retire_oldest-Pending : Keeps Pending (retire_oldest (checkpoint_with w s))
    unfolding retire_oldest checkpoint_with Pending Same next_block
    retire_oldest-Pending j p =
        when-Keeps Pending
          (not j.in_checkpoint
            && (j.write_pos == j.sb.journal_log_start && ltb 0 j.blocks_since_checkpoint))
          (guarded (checkpoint_with w s false))
          (guarded-Keeps Pending (λ i b q. q) (checkpoint_with w s false)
            (λ i q.
              run_all-Keeps Pending (when false (s true) ∷ checkpoint_flushed w ∷ [])
                ((λ k r. r), (checkpoint_flushed-Keeps w Pending-IsRetirable, tt)) i q))
          j p

    write_pending-Done :
        (requested : Bool) → Ensures Pending (write_pending w (checkpoint_with w s) requested) Done
    unfolding write_pending periodic relieve Pending Done
    write_pending-Done requested j (dirty, p) =
        when_at Done j.dirty
          (run_all (
            flush_block w
            ∷ commit w
            ∷ periodic (checkpoint_with w s) requested
            ∷ relieve (checkpoint_with w s)
            ∷ []))
          j
          (λ t.
            proceed-Ensures
              (Both IsClean
                (Flushed w (u64 (j0.write_pos * j0.block_size)) j0.cur_block (next_pos j0)))
              Done (flush_block w j)
              (run_all (
                commit w
                ∷ periodic (checkpoint_with w s) requested
                ∷ relieve (checkpoint_with w s)
                ∷ []))
              (λ e. (flush_block-Ensures w j tt e, flushes w j0 j p e))
              (run_all-Ensures
                (Both IsClean
                  (Flushed w (u64 (j0.write_pos * j0.block_size)) j0.cur_block (next_pos j0)))
                Done
                (commit w
                  ∷ periodic (checkpoint_with w s) requested
                  ∷ relieve (checkpoint_with w s)
                  ∷ [])
                (step {Q = Done}
                  (λ k r e. (
                    commit-Keeps w (dirty-IsRetirable false).calm k r.0,
                    commits w (u64 (j0.write_pos * j0.block_size)) j0.cur_block (next_pos j0) has k
                        r.1 e,
                  ))
                  (step {Q = Done}
                    (λ k r e.
                      when-Keeps Done
                        (requested && leb jrn_checkpoint_interval k.records_since_checkpoint)
                        (checkpoint_with w s true) checkpoint-Done k r)
                    (step {Q = Done}
                      (λ k r e.
                        when-Keeps Done
                          (not k.in_checkpoint
                            && next_block k k.write_pos == k.sb.journal_log_start)
                          (guarded (checkpoint_with w s true))
                          (guarded-Keeps Done (λ l b z. z) (checkpoint_with w s true)
                            checkpoint-Done)
                          k r)
                      done)))))
          (λ f. absurd (clash f dirty))

-- With the metadata interface set, a sync of a journal with pending records that returns no error
-- has made these calls in this order, with others between them: it wrote the pending block at the
-- writer's place, it wrote a superblock whose log ends at the place after it, and it synced the
-- metadata.
pub sync-Commits :
    (w : World) (requested : Bool) (j : Journal)
    → w.has_meta_syncer ≡ true
    → j.dirty ≡ true
    → (sync w requested j).1 ≡ none
    → Committed
        (u64 (j.write_pos * j.block_size))
        j.cur_block
        (next_pos j)
        (sync w requested j).0.log
unfolding sync sync_locked sync_depth sync_with Pending Done Same
sync-Commits w requested j has dirty e =
    let c = checkpoint_with w (sync_depth w 0) in
    (when_at (Done w j (sync_depth w 0) has) j.dirty
      (run_all (retire_oldest c ∷ write_pending w c requested ∷ [])) j
      (λ t.
        run_all-Ensures (Pending w j (sync_depth w 0) has) (Done w j (sync_depth w 0) has)
          (retire_oldest c ∷ write_pending w c requested ∷ [])
          (step {Q = Pending w j (sync_depth w 0) has}
            (Keeps-Ensures (Pending w j (sync_depth w 0) has) (retire_oldest c)
              (retire_oldest-Pending w j (sync_depth w 0) has))
            (step {Q = Done w j (sync_depth w 0) has}
              (write_pending-Done w j (sync_depth w 0) has requested) done))
          j (dirty, (refl, refl, refl, refl)))
      (λ f. absurd (clash f dirty)) e).1
