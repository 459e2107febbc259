-- ===== src/Journal/Writer/Depth.antt =====
-- syncLocked and checkpointLocked of briefs/journal_write.go call each other. The calls end: what
-- a sync flushes is no longer pending where it asks for a checkpoint, so that the checkpoint asks
-- for no other sync.
use briefs_utils.Base.{ℕ, zero, suc}
use briefs_utils.Base.{
  Bool, true, false, ◌&&◌, if◌then◌else◌, leb, none, some, [], ◌∷◌, ◌≡◌, refl, ap,
}
use briefs_utils.Journal.Writer.{
  flush_block, commit, checkpoint_flushed, checkpoint_with, write_pending, sync_with, sync_depth,
  sync_locked, checkpoint_locked, write_ring_block,
}
use briefs_utils.Journal.State.{
  Journal, World, Outcome, Op, proceed, run_all, modify, retire, guarded, retire_oldest, periodic,
  relieve, jrn_checkpoint_interval, start_block, advance,
}
use briefs_utils.Journal.Writer.Frame.{
  Keeps, Ensures, run_all-Keeps, run_all-Ensures, when-Keeps, step, done,
}
use briefs_utils.Journal.Writer.Calm.{
  IsSteady, IsSteady-IsRetirable, checkpoint_flushed-Keeps, commit-Keeps,
}

abbrev pub IsClean : Journal → Type 0
IsClean j = j.dirty ≡ false

pub IsClean-IsSteady : IsSteady IsClean
unfolding retire
IsClean-IsSteady = record {
  calm = record {
    quiet = λ j e q p. p;
    counts = λ j d i p. p;
    ends = λ j n p. p;
    syncs = λ j n p. p;
  };
  writes = λ j off buf p. p;
  retires = λ j p. p;
}

proceed-agree : (o : Outcome) (g h : Op) → (o.1 ≡ none → g o.0 ≡ h o.0) → proceed o g ≡ proceed o h
unfolding proceed
proceed-agree (j, none) g h k = k refl
proceed-agree (j, some e) g h k = refl

module _ (w : World) where
  start_block-Ensures : Ensures (λ j. Unit {0}) (modify start_block) IsClean
  unfolding start_block
  start_block-Ensures j p e = refl

  -- What is pending is written by a flush.
  pub flush_block-Ensures : Ensures (λ j. Unit {0}) (flush_block w) IsClean
  unfolding flush_block
  flush_block-Ensures j p =
      run_all-Ensures (λ j. Unit {0}) IsClean
        (write_ring_block w j.write_pos j.cur_block ∷ modify advance ∷ modify start_block ∷ [])
        (step {Q = λ j. Unit {0}} (λ k q e. tt)
          (step {Q = λ j. Unit {0}} (λ k q e. tt) (step start_block-Ensures done)))
        j tt

  nothing_pending : (flush : Bool) (j : Journal) → IsClean j → (flush && j.dirty) ≡ false
  nothing_pending true j p = p
  nothing_pending false j p = refl

  -- With nothing pending a checkpoint calls no sync.
  pub checkpoint_with-clean :
      (sync : Bool → Op) (flush : Bool) (j : Journal)
      → IsClean j
      → checkpoint_with w sync flush j ≡ run_all (checkpoint_flushed w ∷ []) j
  unfolding checkpoint_with run_all proceed
  checkpoint_with-clean sync flush j p = rw (nothing_pending flush j p) refl

  checkpoint_with-Keeps :
      (sync : Bool → Op) (flush : Bool) → Keeps IsClean (checkpoint_with w sync flush)
  checkpoint_with-Keeps sync flush j p = rw (checkpoint_with-clean sync flush j p) (
      run_all-Keeps IsClean (checkpoint_flushed w ∷ [])
        (checkpoint_flushed-Keeps w (IsSteady-IsRetirable IsClean-IsSteady), tt) j p)

  periodic-Keeps :
      (s : Bool → Op) (requested : Bool) → Keeps IsClean (periodic (checkpoint_with w s) requested)
  unfolding periodic
  periodic-Keeps s requested j p =
      when-Keeps IsClean (requested && leb jrn_checkpoint_interval j.records_since_checkpoint)
        (checkpoint_with w s true) (checkpoint_with-Keeps s true) j p

  module _ (s t : Bool → Op) where
    periodic-agree :
        (requested : Bool) (j : Journal)
        → IsClean j
        → periodic (checkpoint_with w s) requested j ≡ periodic (checkpoint_with w t) requested j
    unfolding periodic
    periodic-agree requested j p =
        rw (checkpoint_with-clean s true j p, checkpoint_with-clean t true j p) refl

    relieve-agree :
        (j : Journal)
        → IsClean j
        → relieve (checkpoint_with w s) j ≡ relieve (checkpoint_with w t) j
    unfolding relieve guarded
    relieve-agree j p =
        rw
          (
            checkpoint_with-clean s true (record j { in_checkpoint = true }) p,
            checkpoint_with-clean t true (record j { in_checkpoint = true }) p,
          )
          refl

    write_pending-agree :
        (requested : Bool) (j : Journal)
        → write_pending w (checkpoint_with w s) requested j
          ≡ write_pending w (checkpoint_with w t) requested j
    unfolding write_pending run_all
    write_pending-agree requested j =
        ap (λ (o : Outcome). if j.dirty then o else (j, none))
          (proceed-agree (flush_block w j) _ _ (λ e.
            proceed-agree (commit w (flush_block w j).0) _ _ (λ e'.
              let clean =
                commit-Keeps w IsClean-IsSteady.calm (flush_block w j).0
                  (flush_block-Ensures j tt e) in
              rw (periodic-agree requested (commit w (flush_block w j).0).0 clean) (
                proceed-agree
                  (periodic (checkpoint_with w t) requested (commit w (flush_block w j).0).0) _ _
                  (λ e''.
                    rw
                      (relieve-agree
                        (periodic (checkpoint_with w t) requested
                          (commit w (flush_block w j).0).0).0
                        (periodic-Keeps t requested (commit w (flush_block w j).0).0 clean))
                      refl)))))

    sync_with-agree :
        (requested : Bool) (j : Journal)
        → sync_with w (checkpoint_with w s) requested j
          ≡ sync_with w (checkpoint_with w t) requested j
    unfolding sync_with run_all retire_oldest checkpoint_with
    sync_with-agree requested j =
        ap (λ (o : Outcome). if j.dirty then o else (j, none))
          (proceed-agree (retire_oldest (checkpoint_with w t) j) _ _ (λ e.
            rw (write_pending-agree requested (retire_oldest (checkpoint_with w t) j).0) refl))

  sync_depth-suc :
      (depth : ℕ) (requested : Bool) (j : Journal)
      → sync_depth w (suc depth) requested j ≡ sync_locked w requested j
  unfolding sync_locked sync_depth
  sync_depth-suc depth requested j =
      sync_with-agree (sync_depth w depth) (sync_depth w zero) requested j

  -- However many calls of itself syncLocked may make below it by way of checkpointLocked, its
  -- result, and that of checkpointLocked, is the same as with none.
  pub sync_depth-ends :
      (depth : ℕ) (j : Journal)
      → ((requested : Bool) → sync_depth w (suc depth) requested j ≡ sync_locked w requested j)
        × ((flush : Bool)
            → checkpoint_with w (sync_depth w (suc depth)) flush j ≡ checkpoint_locked w flush j)
  unfolding checkpoint_locked checkpoint_with run_all
  sync_depth-ends depth j = (
    (λ requested. sync_depth-suc depth requested j),
    λ flush. rw (sync_depth-suc depth true j) refl,
  )
