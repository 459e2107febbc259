-- ===== src/Journal/Writer/Adds.antt =====
-- WriteRecord of briefs/journal_write.go adds its record behind those that are pending, in the
-- block under construction or in a new one.
use briefs_utils.Base.{ℕ, ◌+◌, ◌^◌, ◌≤◌, ◌<◌, ◌==◌, leb}
use briefs_utils.Base.{
  true, false, ◌||◌, not, none, some, List, [], ◌∷◌, ◌++◌, length, ◌≡◌, arith, if_cases,
}
use briefs_utils.Base.Words.{u32}
use briefs_utils.Journal.Block.{journal_block_size, journal_block_hdr_size, journal_record_hdr_size}
use briefs_utils.Journal.Block.Records.{LogRecord, extent_of, extent_of-append}
use briefs_utils.Journal.Block.Framed.{append_record-IsBlock}
use briefs_utils.Journal.Writer.{
  flush_block, sync_locked, checkpoint_locked, make_room, write_record_locked, write_record,
}
use briefs_utils.Journal.State.{
  Journal, World, Outcome, run_all, modify, when, refuse_exhausted, append, jrn_end, next_block,
  ring_exhausted, invalid_type, empty_record,
}
use briefs_utils.Journal.Writer.Frame.{
  Keeps, run_all-Keeps, when-Keeps, run_all-Ensures, step, done, proceed-Ensures, guard-Ensures,
  when_at,
}
use briefs_utils.Journal.Writer.Depth.{flush_block-Ensures}
use briefs_utils.Journal.Writer.Intact.{IsIntact, IsRoomy, is_wrapped, not_wrapped}
use briefs_utils.Journal.Writer.Carried.{Contents, Carries, Silent, here, flush_block-Drained}
use briefs_utils.Journal.Writer.Delivers.{Settled, checkpoint-Settled, clash}

abbrev pub add : LogRecord → Contents → Contents
add r c = record c { pending = c.pending ++ r ∷ [] }

-- A record that fits is added to those that are pending.
append-Carries :
    (c : Contents) (record_type : ℕ) (bytes : List ℕ) (j : Journal)
    → record_type < 2 ^ 32
    → length bytes ≤ 4064
    → journal_block_hdr_size + extent_of c.pending + journal_record_hdr_size + length bytes
      ≤ journal_block_size
    → Carries c j
    → Carries
        (add (record { record_type = record_type; bytes = bytes }) c)
        (append record_type bytes j)
unfolding append
append-Carries c record_type bytes j t small fit k = record {
  block = rw k.at_end (
      append_record-IsBlock j.cur_block j.block_seq record_type bytes c.pending k.block k.narrow t
        fit);
  narrow = k.narrow;
  at_end = omega (
    arith,
    k.at_end,
    extent_of-append c.pending (record { record_type = record_type; bytes = bytes } ∷ []),
  );
  decodes = k.decodes;
}

module _ (w : World) (c : Contents) (record_type : ℕ) (bytes : List ℕ) (t : record_type < 2 ^ 32)
    (small : length bytes ≤ 4064) where
  Added : Journal → Type 0
  Added j =
      (d : Contents) × Silent c d
      × Carries (add (record { record_type = record_type; bytes = bytes }) d) j

  -- Where the next record fits.
  Ready : Journal → Type 0
  Ready j =
      (d : Contents) × Silent c d
      × Carries d j
      × (journal_block_hdr_size + extent_of d.pending + journal_record_hdr_size + length bytes
          ≤ journal_block_size)

  make_room-Settled : Keeps (Settled c) (make_room w)
  unfolding make_room checkpoint_locked refuse_exhausted
  make_room-Settled j p =
      when-Keeps (Settled c) (j.write_pos == j.sb.journal_log_start)
        (run_all (checkpoint_locked w true ∷ refuse_exhausted ∷ []))
        (run_all-Keeps (Settled c) (checkpoint_locked w true ∷ refuse_exhausted ∷ []) (
          checkpoint-Settled w (sync_locked w) c,
          (
            (λ i q.
                if_cases (λ (o : Outcome). Settled c o.0)
                  (next_block i i.write_pos == i.sb.journal_log_start) (i, some ring_exhausted)
                  (i, none) (λ t. q) (λ f. q)),
            tt,
          ),
        ))
        j p

  write_record_locked-Added :
      (j : Journal)
      → IsRoomy j
      → Carries c j
      → (write_record_locked w record_type bytes j).1 ≡ none
      → Added (write_record_locked w record_type bytes j).0
  unfolding write_record_locked Added Ready
  write_record_locked-Added j room k =
      let total = u32 (journal_record_hdr_size + u32 (length bytes)) in
      let full = not (leb (j.write_offset + total) journal_block_size) in
      let flushed = run_all (flush_block w ∷ make_room w ∷ []) in
      guard-Ensures Added (record_type == 0 || leb jrn_end record_type) j invalid_type _ (
        guard-Ensures Added (length bytes == 0) j empty_record
          (run_all (when full flushed ∷ modify (append record_type bytes) ∷ []) j)
          (proceed-Ensures Ready Added (when full flushed j)
            (run_all (modify (append record_type bytes) ∷ []))
            (when_at Ready full flushed j
              (λ f.
                proceed-Ensures (Settled c) Ready (flush_block w j) (run_all (make_room w ∷ []))
                  (λ e. (
                    flush_block-Ensures w j tt e,
                    flush_block-Drained w c j (room.0, room.1.0) (c, here, k) e,
                  ))
                  (λ i q e.
                    settled_ready (run_all (make_room w ∷ []) i).0
                      (run_all-Keeps (Settled c) (make_room w ∷ []) (make_room-Settled, tt) i q)))
              (λ f. (c, here, k, fits_now j k f)))
            (run_all-Ensures Ready Added (modify (append record_type bytes) ∷ []) (
              step {Q = Added}
                (λ i q e. (q.0, q.1, append-Carries q.0 record_type bytes i t small q.3 q.2))
                done))))
    where
      fits_now :
          (i : Journal)
          → Carries c i
          → not (
              leb
                (i.write_offset + u32 (journal_record_hdr_size + u32 (length bytes)))
                journal_block_size)
            ≡ false
          → journal_block_hdr_size + extent_of c.pending + journal_record_hdr_size + length bytes
            ≤ journal_block_size
      fits_now i k f =
          let le : leb (i.write_offset + u32 (journal_record_hdr_size + u32 (length bytes)))
                journal_block_size
              ≡ true =
            ground arith in
          let n : i.write_offset + u32 (journal_record_hdr_size + u32 (length bytes))
              ≤ journal_block_size =
            ground arith in
          omega (arith, n, k.at_end, small)

      settled_ready : (i : Journal) → Settled c i → Ready i
      settled_ready i (clean, (d, s, k, e)) = (d, s, k, rw e (omega (arith, small)))

-- Out of replay and in a ring that is intact and not wrapped full, a record of at most 4064 bytes
-- that WriteRecord takes without an error is added behind those that are pending; the others are
-- where they were, or their block was written to the ring, or the written blocks were retired by a
-- checkpoint.
pub write_record-Adds :
    (w : World) (c : Contents) (record_type : ℕ) (bytes : List ℕ) (j : Journal)
    → record_type < 2 ^ 32
    → length bytes ≤ 4064
    → j.in_replay ≡ false
    → IsIntact j
    → is_wrapped j ≡ false
    → Carries c j
    → (write_record w record_type bytes j).1 ≡ none
    → (d : Contents) × Silent c d
      × Carries
          (add (record { record_type = record_type; bytes = bytes }) d)
          (write_record w record_type bytes j).0
unfolding write_record Added
write_record-Adds w c record_type bytes j t small live p away k =
    if_cases (λ (o : Outcome). o.1 ≡ none → Added w c record_type bytes t small o.0) j.in_replay
      (j, none) (write_record_locked w record_type bytes j) (λ r. absurd (clash live r))
      (λ r. write_record_locked-Added w c record_type bytes t small j (not_wrapped j p away) k)
