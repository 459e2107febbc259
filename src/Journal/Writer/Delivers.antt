-- ===== src/Journal/Writer/Delivers.antt =====
-- Sync of briefs/journal_write.go moves all that is pending into blocks of the ring; only a
-- checkpoint takes records away, those of written blocks.
use briefs_utils.Base.{◌==◌, ltb, leb}
use briefs_utils.Base.{Bool, true, false, ◌&&◌, not, none, [], ◌∷◌, ◌≡◌}
use briefs_utils.Journal.Writer.{
  flush_block, commit, checkpoint_flushed, checkpoint_with, write_pending, sync_with, sync_depth,
  sync_locked, sync,
}
use briefs_utils.Journal.State.{
  Journal, World, Op, run_all, when, guarded, retire, retire_oldest, periodic, relieve,
  jrn_checkpoint_interval, next_block,
}
use briefs_utils.Journal.Writer.Frame.{
  Keeps, Ensures, run_all-Keeps, when-Keeps, run_all-Ensures, step, done, proceed-Ensures, when_at,
}
use briefs_utils.Journal.Writer.Calm.{
  IsRetirable, guarded-Keeps, commit-Keeps, checkpoint_flushed-Keeps,
}
use briefs_utils.Journal.Writer.Depth.{IsClean, checkpoint_with-clean, flush_block-Ensures}
use briefs_utils.Journal.Writer.Intact.{IsIntact, IsRoomy, retire_oldest-IsRoomy, too_deep-IsIntact}
use briefs_utils.Journal.Writer.Carried.{
  Contents, Carries, Silent, here, Keeping, Drained, Keeping-IsRetirable, Drained-IsRetirable,
  flush_block-Drained,
}

pub clash : {b : Bool} → b ≡ false → b ≡ true → ⊥
clash f t = cc

-- Two predicates at once.
abbrev pub Both : (Journal → Type 0) → (Journal → Type 0) → Journal → Type 0
Both P Q j = P j × Q j

pub Both-IsRetirable :
    (P Q : Journal → Type 0) → IsRetirable P → IsRetirable Q → IsRetirable (Both P Q)
Both-IsRetirable P Q a b = record {
  calm = record {
    quiet = λ j e q p. (a.calm.quiet j e q p.0, b.calm.quiet j e q p.1);
    counts = λ j d i p. (a.calm.counts j d i p.0, b.calm.counts j d i p.1);
    ends = λ j n p. (a.calm.ends j n p.0, b.calm.ends j n p.1);
    syncs = λ j n p. (a.calm.syncs j n p.0, b.calm.syncs j n p.1);
  };
  checkpoints = λ j buf p. (a.checkpoints j buf p.0, b.checkpoints j buf p.1);
  retires = λ j p. (a.retires j p.0, b.retires j p.1);
}

pub dirty-IsRetirable : (b : Bool) → IsRetirable (λ j. j.dirty ≡ b)
unfolding retire
dirty-IsRetirable b = record {
  calm = record {
    quiet = λ j e q p. p;
    counts = λ j d i p. p;
    ends = λ j n p. p;
    syncs = λ j n p. p;
  };
  checkpoints = λ j buf p. p;
  retires = λ j p. p;
}

-- Nothing pending, and `c` delivered.
abbrev pub Settled : Contents → Journal → Type 0
Settled c = Both IsClean (Drained c)

Settled-IsRetirable : (c : Contents) → IsRetirable (Settled c)
Settled-IsRetirable c =
    Both-IsRetirable IsClean (Drained c) (dirty-IsRetirable false) (Drained-IsRetirable c)

abbrev pub Waiting : Contents → Journal → Type 0
Waiting c = Both (λ j. j.dirty ≡ true) (Keeping c)

Waiting-IsRetirable : (c : Contents) → IsRetirable (Waiting c)
Waiting-IsRetirable c =
    Both-IsRetirable (λ j. j.dirty ≡ true) (Keeping c) (dirty-IsRetirable true)
      (Keeping-IsRetirable c)

module _ (w : World) (s : Bool → Op) (c : Contents) where
  pub checkpoint-Settled : Keeps (Settled c) (checkpoint_with w s true)
  checkpoint-Settled j p = rw (checkpoint_with-clean w s true j p.0) (
      run_all-Keeps (Settled c) (checkpoint_flushed w ∷ [])
        (checkpoint_flushed-Keeps w (Settled-IsRetirable c), tt) j p)

  pub retire_oldest-Waiting : Keeps (Waiting c) (retire_oldest (checkpoint_with w s))
  unfolding retire_oldest checkpoint_with
  retire_oldest-Waiting j p =
      when-Keeps (Waiting c)
        (not j.in_checkpoint
          && (j.write_pos == j.sb.journal_log_start && ltb 0 j.blocks_since_checkpoint))
        (guarded (checkpoint_with w s false))
        (guarded-Keeps (Waiting c) (λ i b q. q) (checkpoint_with w s false)
          (λ i q.
            run_all-Keeps (Waiting c) (when false (s true) ∷ checkpoint_flushed w ∷ [])
              ((λ k r. r), (checkpoint_flushed-Keeps w (Waiting-IsRetirable c), tt)) i q))
        j p

  write_pending-Drained :
      (requested : Bool)
      → Ensures
          (Both IsRoomy (Waiting c))
          (write_pending w (checkpoint_with w s) requested)
          (Drained c)
  unfolding write_pending periodic relieve
  write_pending-Drained requested j (room, (dirty, p)) =
      when_at (Drained c) j.dirty
        (run_all (
          flush_block w
          ∷ commit w
          ∷ periodic (checkpoint_with w s) requested
          ∷ relieve (checkpoint_with w s)
          ∷ []))
        j
        (λ t.
          proceed-Ensures (Settled c) (Drained c) (flush_block w j)
            (run_all (
              commit w
              ∷ periodic (checkpoint_with w s) requested
              ∷ relieve (checkpoint_with w s)
              ∷ []))
            (λ e. (flush_block-Ensures w j tt e, flush_block-Drained w c j (room.0, room.1.0) p e))
            (λ i q e.
              (run_all-Keeps (Settled c)
                (commit w
                  ∷ periodic (checkpoint_with w s) requested
                  ∷ relieve (checkpoint_with w s)
                  ∷ [])
                (
                  commit-Keeps w (Settled-IsRetirable c).calm,
                  (
                    (λ k r.
                        when-Keeps (Settled c)
                          (requested && leb jrn_checkpoint_interval k.records_since_checkpoint)
                          (checkpoint_with w s true) checkpoint-Settled k r),
                    (
                      (λ k r.
                          when-Keeps (Settled c)
                            (not k.in_checkpoint
                              && next_block k k.write_pos == k.sb.journal_log_start)
                            (guarded (checkpoint_with w s true))
                            (guarded-Keeps (Settled c) (λ l b z. z) (checkpoint_with w s true)
                              checkpoint-Settled)
                            k r),
                      tt,
                    ),
                  ),
                )
                i q).1))
        (λ f. absurd (clash f dirty))

  sync_with-Drained :
      (sound : Ensures IsIntact (s true) IsIntact) (requested : Bool) (j : Journal)
      → j.in_checkpoint ≡ false
      → IsIntact j
      → Waiting c j
      → (sync_with w (checkpoint_with w s) requested j).1 ≡ none
      → Drained c (sync_with w (checkpoint_with w s) requested j).0
  unfolding sync_with
  sync_with-Drained sound requested j idle intact p =
      when_at (Drained c) j.dirty
        (run_all (
          retire_oldest (checkpoint_with w s)
          ∷ write_pending w (checkpoint_with w s) requested
          ∷ []))
        j
        (λ t.
          proceed-Ensures (Both IsRoomy (Waiting c)) (Drained c)
            (retire_oldest (checkpoint_with w s) j)
            (run_all (write_pending w (checkpoint_with w s) requested ∷ []))
            (λ e. (retire_oldest-IsRoomy w s sound j idle intact e, retire_oldest-Waiting j p))
            (run_all-Ensures (Both IsRoomy (Waiting c)) (Drained c)
              (write_pending w (checkpoint_with w s) requested ∷ [])
              (step {Q = Drained c} (write_pending-Drained requested) done)))
        (λ f. absurd (clash f p.0))

-- Outside a checkpoint and in an intact ring, a sync of a journal with pending records that returns
-- no error leaves none pending: their block was written to the ring, and the written blocks are
-- there still or were retired by a checkpoint.
pub sync-Delivers :
    (w : World) (c : Contents) (requested : Bool) (j : Journal)
    → j.in_checkpoint ≡ false
    → IsIntact j
    → j.dirty ≡ true
    → Carries c j
    → (sync w requested j).1 ≡ none
    → (d : Contents) × Silent c d × Carries d (sync w requested j).0 × (d.pending ≡ [])
unfolding sync sync_locked sync_depth
sync-Delivers w c requested j idle p dirty k =
    sync_with-Drained w (sync_depth w 0) c (too_deep-IsIntact w) requested j idle p
      (dirty, (c, here, k))
