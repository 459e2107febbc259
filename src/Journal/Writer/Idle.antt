-- ===== src/Journal/Writer/Idle.antt =====
-- `inCheckpoint` of briefs/journal_write.go is set within a method only: no method ends with it.
use briefs_utils.Base.{ℕ, ◌+◌, ◌==◌, ltb, leb, length}
use briefs_utils.Base.{
  Bool, true, false, ◌||◌, ◌&&◌, not, none, some, List, [], ◌∷◌, ◌≡◌, refl, if_cases,
}
use briefs_utils.Base.Words.{u32}
use briefs_utils.Journal.Block.{journal_block_size, journal_record_hdr_size}
use briefs_utils.Journal.Writer.{
  flush_block, write_ring_block, commit, checkpoint_flushed, checkpoint_with, write_pending,
  sync_with, sync_depth, sync_locked, checkpoint_locked, make_room, write_record_locked,
  write_record, sync, checkpoint,
}
use briefs_utils.Journal.State.{
  Journal, World, Outcome, Op, run_all, modify, when, start_block, advance, guarded, retire,
  retire_oldest, periodic, relieve, refuse_exhausted, append, jrn_checkpoint_interval, jrn_end,
  next_block, ring_exhausted, empty_record,
}
use briefs_utils.Journal.Writer.Frame.{Keeps, run_all-Keeps, when-Keeps}
use briefs_utils.Journal.Writer.Calm.{
  IsSteady, IsSteady-IsRetirable, checkpoint_flushed-Keeps, commit-Keeps, write_ring_block-Keeps,
  advance_keeps,
}

abbrev pub IsIdle : Journal → Type 0
IsIdle j = j.in_checkpoint ≡ false

IsIdle-IsSteady : IsSteady IsIdle
unfolding retire
IsIdle-IsSteady = record {
  calm = record {
    quiet = λ j e q p. p;
    counts = λ j d i p. p;
    ends = λ j n p. p;
    syncs = λ j n p. p;
  };
  writes = λ j off buf p. p;
  retires = λ j p. p;
}

advance-IsIdle : (j : Journal) → IsIdle j → IsIdle (advance j)
advance-IsIdle j p = advance_keeps IsIdle j (λ n m. p)

guarded-IsIdle : (f : Op) → Keeps IsIdle (guarded f)
unfolding guarded
guarded-IsIdle f j p = refl

module _ (w : World) where
  pub flush_block-IsIdle : Keeps IsIdle (flush_block w)
  unfolding flush_block start_block
  flush_block-IsIdle j p =
      run_all-Keeps IsIdle
        (write_ring_block w j.write_pos j.cur_block ∷ modify advance ∷ modify start_block ∷ [])
        (
          write_ring_block-Keeps w IsIdle-IsSteady j.write_pos j.cur_block,
          (advance-IsIdle, ((λ i q. q), tt)),
        )
        j p

  checkpoint_with-IsIdle :
      (s : Bool → Op)
      → Keeps IsIdle (s true)
      → (flush : Bool) → Keeps IsIdle (checkpoint_with w s flush)
  unfolding checkpoint_with
  checkpoint_with-IsIdle s k flush j p =
      run_all-Keeps IsIdle (when (flush && j.dirty) (s true) ∷ checkpoint_flushed w ∷ [])
        (
          when-Keeps IsIdle (flush && j.dirty) (s true) k,
          (checkpoint_flushed-Keeps w (IsSteady-IsRetirable IsIdle-IsSteady), tt),
        )
        j p

  module _ (c : Bool → Op) (k : Keeps IsIdle (c true)) where
    write_pending-IsIdle : (requested : Bool) → Keeps IsIdle (write_pending w c requested)
    unfolding write_pending periodic relieve
    write_pending-IsIdle requested j p =
        when-Keeps IsIdle j.dirty
          (run_all (flush_block w ∷ commit w ∷ periodic c requested ∷ relieve c ∷ []))
          (run_all-Keeps IsIdle (flush_block w ∷ commit w ∷ periodic c requested ∷ relieve c ∷ []) (
            flush_block-IsIdle,
            (
              commit-Keeps w IsIdle-IsSteady.calm,
              (
                (λ i q.
                    when-Keeps IsIdle
                      (requested && leb jrn_checkpoint_interval i.records_since_checkpoint) (c true)
                      k i q),
                (
                  (λ i q.
                      when-Keeps IsIdle
                        (not i.in_checkpoint && next_block i i.write_pos == i.sb.journal_log_start)
                        (guarded (c true)) (guarded-IsIdle (c true)) i q),
                  tt,
                ),
              ),
            ),
          ))
          j p

    sync_with-IsIdle : (requested : Bool) → Keeps IsIdle (sync_with w c requested)
    unfolding sync_with retire_oldest
    sync_with-IsIdle requested j p =
        when-Keeps IsIdle j.dirty (run_all (retire_oldest c ∷ write_pending w c requested ∷ []))
          (run_all-Keeps IsIdle (retire_oldest c ∷ write_pending w c requested ∷ []) (
            (λ i q.
                when-Keeps IsIdle
                  (not i.in_checkpoint
                    && (i.write_pos == i.sb.journal_log_start && ltb 0 i.blocks_since_checkpoint))
                  (guarded (c false)) (guarded-IsIdle (c false)) i q),
            (write_pending-IsIdle requested, tt),
          ))
          j p

  sync_locked-IsIdle : (requested : Bool) → Keeps IsIdle (sync_locked w requested)
  unfolding sync_locked sync_depth
  sync_locked-IsIdle =
      sync_with-IsIdle (checkpoint_with w (sync_depth w 0))
        (checkpoint_with-IsIdle (sync_depth w 0) (λ j p. p) true)

  checkpoint_locked-IsIdle : (flush : Bool) → Keeps IsIdle (checkpoint_locked w flush)
  unfolding checkpoint_locked
  checkpoint_locked-IsIdle = checkpoint_with-IsIdle (sync_locked w) (sync_locked-IsIdle true)

  make_room-IsIdle : Keeps IsIdle (make_room w)
  unfolding make_room refuse_exhausted
  make_room-IsIdle j p =
      when-Keeps IsIdle (j.write_pos == j.sb.journal_log_start)
        (run_all (checkpoint_locked w true ∷ refuse_exhausted ∷ []))
        (run_all-Keeps IsIdle (checkpoint_locked w true ∷ refuse_exhausted ∷ []) (
          checkpoint_locked-IsIdle true,
          (
            (λ i q.
                if_cases (λ (o : Outcome). IsIdle o.0)
                  (next_block i i.write_pos == i.sb.journal_log_start) (i, some ring_exhausted)
                  (i, none) (λ t. q) (λ f. q)),
            tt,
          ),
        ))
        j p

  write_record_locked-IsIdle :
      (record_type : ℕ) (bytes : List ℕ) → Keeps IsIdle (write_record_locked w record_type bytes)
  unfolding write_record_locked append
  write_record_locked-IsIdle record_type bytes j p =
      let total = u32 (journal_record_hdr_size + u32 (length bytes)) in
      let full = not (leb (j.write_offset + total) journal_block_size) in
      let room = when full (run_all (flush_block w ∷ make_room w ∷ [])) in
      if_cases (λ (o : Outcome). IsIdle o.0) (record_type == 0 || leb jrn_end record_type) _ _
        (λ t. p)
        (λ f.
          if_cases (λ (o : Outcome). IsIdle o.0) (length bytes == 0) (j, some empty_record)
            (run_all (room ∷ modify (append record_type bytes) ∷ []) j) (λ t. p)
            (λ f.
              run_all-Keeps IsIdle (room ∷ modify (append record_type bytes) ∷ [])
                (
                  when-Keeps IsIdle full (run_all (flush_block w ∷ make_room w ∷ [])) (
                      run_all-Keeps IsIdle (flush_block w ∷ make_room w ∷ [])
                        (flush_block-IsIdle, (make_room-IsIdle, tt))),
                  ((λ i q. q), tt),
                )
                j p))

  pub write_record-IsIdle :
      (record_type : ℕ) (bytes : List ℕ) → Keeps IsIdle (write_record w record_type bytes)
  unfolding write_record
  write_record-IsIdle record_type bytes j p =
      if_cases (λ (o : Outcome). IsIdle o.0) j.in_replay (j, none)
        (write_record_locked w record_type bytes j) (λ t. p)
        (λ f. write_record_locked-IsIdle record_type bytes j p)

  pub sync-IsIdle : (requested : Bool) → Keeps IsIdle (sync w requested)
  unfolding sync
  sync-IsIdle = sync_locked-IsIdle

  pub checkpoint-IsIdle : Keeps IsIdle (checkpoint w)
  unfolding checkpoint
  checkpoint-IsIdle = checkpoint_locked-IsIdle true
