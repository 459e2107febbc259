-- ===== src/Journal/Writer/Moves.antt =====
-- How a flush and a checkpoint of briefs/journal_write.go move the writer in the ring.
use briefs_utils.Base.{ℕ, suc, ◌-◌, ◌*◌, ◌≤◌, ◌<◌, ◌==◌, ltb, leb}
use briefs_utils.Base.{
  if◌then◌else◌, true, ◌||◌, none, [], ◌∷◌, ◌≡◌, refl, sym, arith, Bool-cases, inl, inr,
}
use briefs_utils.Base.Words.{u64}
use briefs_utils.Journal.Ring.{next_ring_block}
use briefs_utils.Journal.Block.{Buffer}
use briefs_utils.Journal.Writer.{
  call, sync_range, write_through, write_ring_block, flush_block, write_checkpoint,
  checkpoint_flushed, checkpoint_steps, kick_wb, sync_wb, sync_superblock,
}
use briefs_utils.Journal.State.{
  Journal, World, Event, wrote_at, synced_allocators, kicked_wb, block_image, run_all, modify, when,
  next_block, advance, start_block, retire, checkpoint_block, call_failed, out_of_range,
}
use briefs_utils.Journal.Writer.Frame.{
  Ensures, proceed-Ensures, run_all-Ensures, step, done, Keeps-Ensures, run_all-Keeps, when-Keeps,
  guard-Ensures,
}
use briefs_utils.Journal.Writer.Calm.{
  IsCalm, is_quiet, sync_range-Keeps, call-Keeps, sync_wb-Keeps, refresh_free_counts-Keeps,
  sync_superblock-Keeps,
}
use briefs_utils.Journal.Writer.Places.{place, place-next, place-zero}
use briefs_utils.Journal.Writer.Placed.{
  IsAt, IsAt-IsCalm, IsAt-range, RingState, WithRoom, WithRoom-IsCalm, pos-apart, relog, ring_write,
  ring_writes,
}

module _ (w : World) where
  pub call_at :
      (Q : Journal → Type 0) (e : Event) (j : Journal)
      → Q (record j { log = e ∷ j.log })
      → (call w e j).1 ≡ none
      → Q (call w e j).0
  unfolding call
  call_at Q e j q s =
      guard-Ensures Q (w.fails e j.log) j (call_failed e) (record j { log = e ∷ j.log }, none)
        (λ _. q) s

  -- A block write that succeeds was in the ring, and is logged.
  pub write_ring_block_at :
      (Q : Journal → Type 0) (block : ℕ) (buf : Buffer) (j : Journal)
      → IsCalm Q
      → Q (record j { log = wrote_at (u64 (block * j.block_size)) (block_image buf) ∷ j.log })
      → (write_ring_block w block buf j).1 ≡ none
      → Q (write_ring_block w block buf j).0
  unfolding write_ring_block write_through
  write_ring_block_at Q block buf j calm q s =
      let off = u64 (block * j.block_size) in
      guard-Ensures Q (ltb block j.journal_start || leb j.journal_end block) j out_of_range
        (write_through w off (block_image buf) j)
        (proceed-Ensures Q Q (call w (wrote_at off (block_image buf)) j)
          (run_all (sync_range w off ∷ [])) (call_at Q (wrote_at off (block_image buf)) j q)
          (run_all-Ensures Q Q (sync_range w off ∷ [])
            (step {Q = Q} (Keeps-Ensures Q (sync_range w off) (sync_range-Keeps w calm off)) done)))
        s

  -- The next block of the ring, written.
  write_next-Ensures :
      (k : ℕ) (j : Journal)
      → IsAt k k j
      → k < j.checkpoint_blk - j.journal_start
      → (write_ring_block w j.write_pos j.cur_block j).1 ≡ none
      → WithRoom k (suc k) (write_ring_block w j.write_pos j.cur_block j).0
  unfolding ring_writes ring_write
  write_next-Ensures k j r room s =
      write_ring_block_at (WithRoom k (suc k)) j.write_pos j.cur_block j (WithRoom-IsCalm k (suc k))
        (relog r (rw (pos-apart k k j r, r.here, r.in_order) refl), room) s

  advance-IsAt :
      (k : ℕ) (j : Journal)
      → IsAt k (suc k) j
      → k < j.checkpoint_blk - j.journal_start
      → IsAt (suc k) (suc k) (advance j)
  unfolding advance next_block
  advance-IsAt k j r room =
      elim (Bool-cases (
        next_ring_block j.write_pos j.journal_start (j.journal_end - j.journal_start)
        == j.checkpoint_blk)) [
          | inl t ↦ rw t (moved _ _ (rw t at next) (omega arith) (omega arith))
          | inr t ↦ rw t (moved _ _ (rw t at next) (omega arith) (omega arith))
        ]
    where
      next :
          (let n = next_ring_block j.write_pos j.journal_start (j.journal_end - j.journal_start) in
            if n == j.checkpoint_blk
            then next_ring_block n j.journal_start (j.journal_end - j.journal_start)
            else n)
          ≡ place j.journal_start j.checkpoint_blk j.sb.journal_log_start (suc k)
      next = rw r.here (
          place-next j.journal_start j.checkpoint_blk j.sb.journal_log_start
            (omega (arith, r.usable)) (omega (arith, r.last, r.narrow)) r.from_start r.before_end
            j.journal_end k r.last room)

      moved :
          (pos blocks : ℕ)
          → pos ≡ place j.journal_start j.checkpoint_blk j.sb.journal_log_start (suc k)
          → suc k ≤ blocks
          → blocks ≤ 2 * suc k
          → RingState j.journal_start j.journal_end j.checkpoint_blk j.block_size
              j.sb.journal_log_start pos blocks
              (ring_writes (u64 (j.checkpoint_blk * j.block_size)) j.log)
              (suc k)
              (suc k)
      moved pos blocks e lo hi = record {
        last = r.last;
        usable = r.usable;
        small = r.small;
        sized = r.sized;
        fits = r.fits;
        narrow = r.narrow;
        from_start = r.from_start;
        before_end = r.before_end;
        within = omega (arith, room);
        here = e;
        counted = lo;
        bounded = hi;
        in_order = r.in_order;
      }

  -- A flush takes the next usable block.
  pub flush_block-IsAt : (k : ℕ) → Ensures (WithRoom k k) (flush_block w) (IsAt (suc k) (suc k))
  unfolding flush_block start_block
  flush_block-IsAt k j (r, room) =
      proceed-Ensures (WithRoom k (suc k)) (IsAt (suc k) (suc k))
        (write_ring_block w j.write_pos j.cur_block j)
        (run_all (modify advance ∷ modify start_block ∷ [])) (write_next-Ensures k j r room)
        (run_all-Ensures (WithRoom k (suc k)) (IsAt (suc k) (suc k))
          (modify advance ∷ modify start_block ∷ [])
          (step {Q = IsAt (suc k) (suc k)} (λ i p e. advance-IsAt k i p.0 p.1)
            (step {Q = IsAt (suc k) (suc k)} (λ i p e. p) done)))

  write_checkpoint-IsAt : (k : ℕ) → Ensures (IsAt k k) (write_checkpoint w) (IsAt k 0)
  unfolding write_checkpoint ring_writes ring_write
  write_checkpoint-IsAt k j r =
      let own : (u64 (j.checkpoint_blk * j.block_size) == u64 (j.checkpoint_blk * j.block_size))
          ≡ true =
        ground arith in
      write_ring_block_at (IsAt k 0) j.checkpoint_blk (checkpoint_block j) j (IsAt-IsCalm k 0)
        (relog r (rw own refl))

  retire-IsAt : (k : ℕ) (j : Journal) → IsAt k 0 j → IsAt 0 0 (retire j)
  unfolding retire
  retire-IsAt k j r =
      let range = IsAt-range k 0 j r in
      record {
        last = r.last;
        usable = r.usable;
        small = r.small;
        sized = r.sized;
        fits = r.fits;
        narrow = r.narrow;
        from_start = range.0;
        before_end = range.1;
        within = omega arith;
        here = sym (
            place-zero j.journal_start j.checkpoint_blk j.write_pos (omega (arith, r.usable))
              (omega (arith, r.last, r.narrow)) range.0 range.1);
        counted = omega arith;
        bounded = omega arith;
        in_order = r.in_order;
      }

  -- A checkpoint starts the log anew where the writer stands.
  pub checkpoint_flushed-IsAt : (k : ℕ) → Ensures (IsAt k k) (checkpoint_flushed w) (IsAt 0 0)
  unfolding checkpoint_flushed kick_wb is_quiet
  checkpoint_flushed-IsAt k =
      let calm = IsAt-IsCalm k k in
      run_all-Ensures (IsAt k k) (IsAt 0 0) (checkpoint_steps w) (
        step {Q = IsAt k k}
          (Keeps-Ensures (IsAt k k) (kick_wb w) (
            when-Keeps (IsAt k k) w.has_wb_flusher (call w kicked_wb)
              (call-Keeps w calm kicked_wb refl)))
          (step {Q = IsAt k k}
            (Keeps-Ensures (IsAt k k)
              (when w.has_alloc_syncer (run_all (call w synced_allocators ∷ sync_wb w ∷ [])))
              (when-Keeps (IsAt k k) w.has_alloc_syncer
                (run_all (call w synced_allocators ∷ sync_wb w ∷ []))
                (run_all-Keeps (IsAt k k) (call w synced_allocators ∷ sync_wb w ∷ [])
                  (call-Keeps w calm synced_allocators refl, (sync_wb-Keeps w calm, tt)))))
            (step {Q = IsAt k k} (λ j p e. refresh_free_counts-Keeps w calm j p)
              (step {Q = IsAt k 0} (write_checkpoint-IsAt k) (
                step {Q = IsAt 0 0} (λ j p e. retire-IsAt k j p)
                  (step {Q = IsAt 0 0}
                    (Keeps-Ensures (IsAt 0 0) (sync_superblock w)
                      (sync_superblock-Keeps w (IsAt-IsCalm 0 0)))
                    done))))))
