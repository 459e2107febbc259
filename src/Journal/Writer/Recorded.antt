-- ===== src/Journal/Writer/Recorded.antt =====
-- A checkpoint and a record of briefs/journal_write.go keep the ring intact.
use briefs_utils.Base.{ℕ, ◌+◌, ◌==◌, leb}
use briefs_utils.Base.{
  Bool, true, false, ◌||◌, ◌&&◌, not, none, List, [], ◌∷◌, length, ◌≡◌, refl, if_cases,
}
use briefs_utils.Base.Words.{u32}
use briefs_utils.Journal.Block.{journal_block_size, journal_record_hdr_size}
use briefs_utils.Journal.Writer.{
  flush_block, checkpoint_flushed, checkpoint_with, sync_depth, sync_locked, checkpoint_locked,
  make_room, write_record_locked, write_record, checkpoint,
}
use briefs_utils.Journal.State.{
  Journal, World, Outcome, run_all, modify, when, refuse_exhausted, append, jrn_end, next_block,
  ring_exhausted, invalid_type, empty_record,
}
use briefs_utils.Journal.Writer.Frame.{
  run_all-Ensures, step, done, proceed-Ensures, guard-Ensures, when_at,
}
use briefs_utils.Journal.Writer.Idle.{flush_block-IsIdle}
use briefs_utils.Journal.Writer.Intact.{
  IsIntact, IsRoomy, IsRoomy-not_wrapped, checkpoint_flushed-IsRoomy, flush_block-IsIntact,
  is_wrapped, not_wrapped, sync_with-IsIntact, too_deep-IsIntact,
}

module _ (w : World) where
  pub checkpoint_locked-IsRoomy :
      (flush : Bool) (j : Journal)
      → j.in_checkpoint ≡ false
      → IsIntact j
      → (checkpoint_locked w flush j).1 ≡ none
      → IsRoomy (checkpoint_locked w flush j).0
  unfolding checkpoint_locked checkpoint_with
  checkpoint_locked-IsRoomy flush j idle p =
      proceed-Ensures IsIntact IsRoomy (when (flush && j.dirty) (sync_locked w true) j)
        (run_all (checkpoint_flushed w ∷ []))
        (when_at IsIntact (flush && j.dirty) (sync_locked w true) j
          (λ t. sync_with-IsIntact w (sync_depth w 0) (too_deep-IsIntact w) true j idle p) (λ f. p))
        (run_all-Ensures IsIntact IsRoomy (checkpoint_flushed w ∷ [])
          (step {Q = IsRoomy} (checkpoint_flushed-IsRoomy w) done))

  pub checkpoint-IsIntact :
      (j : Journal)
      → j.in_checkpoint ≡ false
      → IsIntact j
      → (checkpoint w j).1 ≡ none
      → IsIntact (checkpoint w j).0
  unfolding checkpoint
  checkpoint-IsIntact j idle p e = let r = checkpoint_locked-IsRoomy true j idle p e in (r.0, r.1.0)

  make_room-IsRoomy :
      (j : Journal)
      → j.in_checkpoint ≡ false
      → IsIntact j
      → (make_room w j).1 ≡ none
      → IsRoomy (make_room w j).0
  unfolding make_room refuse_exhausted
  make_room-IsRoomy j idle p =
      when_at IsRoomy (j.write_pos == j.sb.journal_log_start)
        (run_all (checkpoint_locked w true ∷ refuse_exhausted ∷ [])) j
        (λ t.
          proceed-Ensures IsRoomy IsRoomy (checkpoint_locked w true j)
            (run_all (refuse_exhausted ∷ [])) (checkpoint_locked-IsRoomy true j idle p)
            (run_all-Ensures IsRoomy IsRoomy (refuse_exhausted ∷ []) (
              step {Q = IsRoomy}
                (λ i q.
                  guard-Ensures IsRoomy (next_block i i.write_pos == i.sb.journal_log_start) i
                    ring_exhausted (i, none) (λ e. q))
                done)))
        (λ f. not_wrapped j p (rw f refl))

  write_record_locked-IsRoomy :
      (record_type : ℕ) (bytes : List ℕ) (j : Journal)
      → j.in_checkpoint ≡ false
      → IsRoomy j
      → (write_record_locked w record_type bytes j).1 ≡ none
      → IsRoomy (write_record_locked w record_type bytes j).0
  unfolding write_record_locked append
  write_record_locked-IsRoomy record_type bytes j idle p =
      let total = u32 (journal_record_hdr_size + u32 (length bytes)) in
      let full = not (leb (j.write_offset + total) journal_block_size) in
      let room = when full (run_all (flush_block w ∷ make_room w ∷ [])) in
      guard-Ensures IsRoomy (record_type == 0 || leb jrn_end record_type) j invalid_type _ (
        guard-Ensures IsRoomy (length bytes == 0) j empty_record
          (run_all (room ∷ modify (append record_type bytes) ∷ []) j)
          (proceed-Ensures IsRoomy IsRoomy (room j)
            (run_all (modify (append record_type bytes) ∷ []))
            (when_at IsRoomy full (run_all (flush_block w ∷ make_room w ∷ [])) j
              (λ t.
                proceed-Ensures (λ i. (i.in_checkpoint ≡ false) × IsIntact i) IsRoomy
                  (flush_block w j) (run_all (make_room w ∷ []))
                  (λ e. (flush_block-IsIdle w j idle, flush_block-IsIntact w j p e))
                  (run_all-Ensures (λ i. (i.in_checkpoint ≡ false) × IsIntact i) IsRoomy
                    (make_room w ∷ [])
                    (step {Q = IsRoomy} (λ i q. make_room-IsRoomy i q.0 q.1) done)))
              (λ f. p))
            (run_all-Ensures IsRoomy IsRoomy (modify (append record_type bytes) ∷ [])
              (step {Q = IsRoomy} (λ i q e. q) done))))

  -- Outside a checkpoint, in a ring that is not wrapped full, where the blocks written since the
  -- last checkpoint are the first ones from the start of the log up to the writer, a record that is
  -- written without an error leaves this so, and the ring not wrapped full.
  pub write_record-IsIntact :
      (record_type : ℕ) (bytes : List ℕ) (j : Journal)
      → j.in_checkpoint ≡ false
      → IsIntact j
      → is_wrapped j ≡ false
      → (write_record w record_type bytes j).1 ≡ none
      → IsIntact (write_record w record_type bytes j).0
        × (is_wrapped (write_record w record_type bytes j).0 ≡ false)
  unfolding write_record
  write_record-IsIntact record_type bytes j idle p away e =
      let roomy = not_wrapped j p away in
      let r : IsRoomy (write_record w record_type bytes j).0 =
        if_cases (λ (o : Outcome). o.1 ≡ none → IsRoomy o.0) j.in_replay (j, none)
          (write_record_locked w record_type bytes j) (λ t e'. roomy)
          (λ t. write_record_locked-IsRoomy record_type bytes j idle roomy) e in
      ((r.0, r.1.0), IsRoomy-not_wrapped (write_record w record_type bytes j).0 r)
