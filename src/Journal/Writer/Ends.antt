-- ===== src/Journal/Writer/Ends.antt =====
-- Behind a commit and behind a checkpoint of briefs/journal_write.go the log ends where the writer
-- stands, and so it does behind a Sync.
use briefs_utils.Base.{◌==◌, leb}
use briefs_utils.Base.{Bool, true, ◌&&◌, not, none, [], ◌∷◌, ◌≡◌, refl}
use briefs_utils.Journal.Writer.{
  flush_block, call, kick_wb, sync_wb, write_checkpoint, sync_superblock, commit, commit_steps,
  checkpoint_flushed, checkpoint_steps, checkpoint_with, write_pending, sync_with, sync_depth,
  sync_locked, sync,
}
use briefs_utils.Journal.State.{
  Journal, World, Op, run_all, when, guarded, retire, retire_oldest, periodic, relieve, set_log_end,
  set_synced, jrn_checkpoint_interval, next_block, drained_data, synced_meta, synced_allocators,
}
use briefs_utils.Journal.Writer.Frame.{
  Ensures, when-Keeps, run_all-Ensures, step, done, Keeps-Ensures, when-Ensures, when_at,
}
use briefs_utils.Journal.Writer.Calm.{
  IsStill, is_quiet, call-Keeps', sync_wb-Keeps', sync_superblock-Keeps',
}
use briefs_utils.Journal.Writer.Carried.{Contents, Carries, here}
use briefs_utils.Journal.Writer.Delivers.{Waiting, clash, retire_oldest-Waiting}

abbrev pub IsEnded : Journal → Type 0
IsEnded j = j.sb.journal_log_end ≡ j.write_pos

IsEnded-IsStill : IsStill IsEnded
IsEnded-IsStill = record { quiet = λ j e q p. p; counts = λ j d i p. p }

abbrev Any : Journal → Type 0
Any j = Unit {0}

anyway : (f : Op) → Ensures Any f Any
anyway f j p e = tt

module _ (w : World) where
  commit-IsEnded : Ensures Any (commit w) IsEnded
  unfolding commit set_log_end set_synced is_quiet
  commit-IsEnded = run_all-Ensures Any IsEnded (commit_steps w) (
      step {Q = Any} (anyway (when w.has_data_drainer (call w drained_data))) (
        step {Q = IsEnded} (λ j p e. refl)
          (step {Q = IsEnded}
            (Keeps-Ensures IsEnded (sync_superblock w) (sync_superblock-Keeps' w IsEnded-IsStill))
            (step {Q = IsEnded}
              (Keeps-Ensures IsEnded (when w.has_meta_syncer (call w synced_meta)) (
                when-Keeps IsEnded w.has_meta_syncer (call w synced_meta)
                  (call-Keeps' w IsEnded-IsStill synced_meta refl)))
              (step {Q = IsEnded}
                (Keeps-Ensures IsEnded (when w.has_alloc_syncer (call w synced_allocators)) (
                  when-Keeps IsEnded w.has_alloc_syncer (call w synced_allocators)
                    (call-Keeps' w IsEnded-IsStill synced_allocators refl)))
                (step {Q = IsEnded}
                  (Keeps-Ensures IsEnded (sync_wb w) (sync_wb-Keeps' w IsEnded-IsStill))
                  (step {Q = IsEnded} (λ j p e. p) done)))))))

  checkpoint_flushed-IsEnded : Ensures Any (checkpoint_flushed w) IsEnded
  unfolding checkpoint_flushed retire
  checkpoint_flushed-IsEnded = run_all-Ensures Any IsEnded (checkpoint_steps w) (
      step {Q = Any} (anyway (kick_wb w)) (
        step {Q = Any} (λ j p e. tt)
          (step {Q = Any} (λ j p e. tt)
            (step {Q = Any} (anyway (write_checkpoint w)) (
              step {Q = IsEnded} (λ j p e. refl)
                (step {Q = IsEnded}
                  (Keeps-Ensures IsEnded (sync_superblock w)
                    (sync_superblock-Keeps' w IsEnded-IsStill))
                  done))))))

  module _ (s : Bool → Op) where
    checkpoint_with-IsEnded : (flush : Bool) → Ensures Any (checkpoint_with w s flush) IsEnded
    unfolding checkpoint_with
    checkpoint_with-IsEnded flush j =
        run_all-Ensures Any IsEnded (when (flush && j.dirty) (s true) ∷ checkpoint_flushed w ∷ [])
          (step {Q = Any} (λ i p e. tt) (step {Q = IsEnded} checkpoint_flushed-IsEnded done)) j

    write_pending-IsEnded :
        (requested : Bool)
        → Ensures (λ j. j.dirty ≡ true) (write_pending w (checkpoint_with w s) requested) IsEnded
    unfolding write_pending periodic relieve guarded
    write_pending-IsEnded requested j dirty =
        when_at IsEnded j.dirty
          (run_all (
            flush_block w
            ∷ commit w
            ∷ periodic (checkpoint_with w s) requested
            ∷ relieve (checkpoint_with w s)
            ∷ []))
          j
          (λ t.
            run_all-Ensures Any IsEnded
              (flush_block w
                ∷ commit w
                ∷ periodic (checkpoint_with w s) requested
                ∷ relieve (checkpoint_with w s)
                ∷ [])
              (step {Q = Any} (anyway (flush_block w)) (
                step {Q = IsEnded} commit-IsEnded (
                  step {Q = IsEnded}
                    (λ i.
                      when-Ensures IsEnded IsEnded
                        (requested && leb jrn_checkpoint_interval i.records_since_checkpoint)
                        (checkpoint_with w s true) (λ t k p. checkpoint_with-IsEnded true k tt)
                        (λ f k p. p) i)
                    (step {Q = IsEnded}
                      (λ i.
                        when-Ensures IsEnded IsEnded
                          (not i.in_checkpoint
                            && next_block i i.write_pos == i.sb.journal_log_start)
                          (guarded (checkpoint_with w s true))
                          (λ t k p.
                            checkpoint_with-IsEnded true (record k { in_checkpoint = true }) tt)
                          (λ f k p. p) i)
                      done))))
              j tt)
          (λ f. absurd (clash f dirty))

  pub sync-IsEnded :
      (c : Contents) (requested : Bool) (j : Journal)
      → j.dirty ≡ true
      → Carries c j
      → (sync w requested j).1 ≡ none
      → IsEnded (sync w requested j).0
  unfolding sync sync_locked sync_depth sync_with
  sync-IsEnded c requested j dirty k =
      let checkpoint = checkpoint_with w (sync_depth w 0) in
      when_at IsEnded j.dirty
        (run_all (retire_oldest checkpoint ∷ write_pending w checkpoint requested ∷ [])) j
        (λ t.
          run_all-Ensures (Waiting c) IsEnded
            (retire_oldest checkpoint ∷ write_pending w checkpoint requested ∷ [])
            (step {Q = Waiting c}
              (Keeps-Ensures (Waiting c) (retire_oldest checkpoint)
                (retire_oldest-Waiting w (sync_depth w 0) c))
              (step {Q = IsEnded} (λ i p. write_pending-IsEnded (sync_depth w 0) requested i p.0)
                done))
            j (dirty, (c, here, k)))
        (λ f. absurd (clash f dirty))
