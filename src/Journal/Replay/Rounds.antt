-- ===== src/Journal/Replay/Rounds.antt =====
-- The walk of the live log by fuse/journal_replay.go over a ring that briefs/journal_write.go has
-- written: every record in the ring is applied, in the order in which it was written.
use briefs_utils.Base.{ℕ, zero, suc, ◌+◌, ◌-◌, ◌*◌, ◌^◌, ◌≤◌, ◌<◌, ◌==◌, ltb, leb}
use briefs_utils.Base.{
  if◌then◌else◌, true, false, ◌||◌, Option, some, List, [], ◌∷◌, ◌>>=◌, >>=-assoc, >>=-ext,
  >>=-some, ◌≡◌, refl, sym, ◌∙◌, ap, arith, Bool-cases, inl, inr,
}
use briefs_utils.Base.Words.{u64}
use briefs_utils.Base.Bytes.{All}
use briefs_utils.Journal.Ring.{next_ring_block, is_journal_block, Walked, walked, walk_from}
use briefs_utils.Journal.Block.{Buffer, slice, journal_block_size}
use briefs_utils.Journal.Block.Records.{LogRecord}
use briefs_utils.Journal.Block.Framed.{IsBlock}
use briefs_utils.Journal.State.{Journal, replay_log_range}
use briefs_utils.Journal.Replay.{read_journal_block, replay_block, walked_state}
use briefs_utils.Journal.Replay.Applied.{
  AreKnown, apply_all, apply_past, IsBlock-headed, iterate-applies,
}
use briefs_utils.Journal.Replay.Ahead.{round, place_onto, place_on}
use briefs_utils.Journal.Replay.Disk.{Stored}
use briefs_utils.Journal.Writer.Places.{place, place-range, place-ne_start, place-inj}
use briefs_utils.Journal.Writer.Placed.{IsAt}

module _ {S : Type 0} (apply_record : ℕ → List ℕ → S → S × Option ℕ) (disk : ℕ → Buffer)
    (j : Journal) (n : ℕ) (r : IsAt n n j) (left_start : 0 < n)
    (room : n < j.checkpoint_blk - j.journal_start)
    (ends : j.sb.journal_log_end ≡ place j.journal_start j.checkpoint_blk j.sb.journal_log_start n)
    (large : journal_block_size ≤ j.block_size) (small : j.block_size < 2 ^ 32)
    (headed : is_journal_block (slice (disk (u64 (j.checkpoint_blk * j.block_size))) 0 j.block_size)
      ≡ true) where
  abbrev at : ℕ → ℕ
  at = place j.journal_start j.checkpoint_blk j.sb.journal_log_start

  abbrev walk : ℕ → ℕ → S → Walked S
  walk =
      walk_from (read_journal_block disk j) j.journal_start (j.journal_end - j.journal_start)
        j.sb.journal_log_start j.sb.journal_log_end (replay_block apply_record j)

  abbrev rest : ℕ → ℕ → S → Walked S
  rest iters cur s = if cur == j.sb.journal_log_end then walked s else walk iters cur s

  abbrev next : ℕ → ℕ
  next cur = next_ring_block cur j.journal_start (j.journal_end - j.journal_start)

  live : (j.sb.journal_log_start == j.sb.journal_log_end) ≡ false
  live =
      let away =
        place-ne_start j.journal_start j.checkpoint_blk j.sb.journal_log_start
          (omega (arith, r.usable)) (omega (arith, r.last, r.narrow)) r.from_start r.before_end n
          left_start room in
      ground (arith, λ (e : j.sb.journal_log_start ≡ j.sb.journal_log_end). away (sym ends ∙ sym e))

  visit_round :
      (iters cur : ℕ) (s : S) (o : Option S)
      → j.journal_start ≤ cur
      → cur < j.journal_end
      → is_journal_block (slice (disk (u64 (cur * j.block_size))) 0 j.block_size) ≡ true
      → replay_block apply_record j cur (slice (disk (u64 (cur * j.block_size))) 0 j.block_size) s
        ≡ o
      → walked_state (walk (suc iters) cur s)
        ≡ (o >>= (λ s'. walked_state (rest iters (next cur) s')))
  unfolding read_journal_block
  visit_round iters cur s o lo hi h v =
      round (read_journal_block disk j) j.journal_start (j.journal_end - j.journal_start)
        j.sb.journal_log_start j.sb.journal_log_end (replay_block apply_record j) iters cur
        (slice (disk (u64 (cur * j.block_size))) 0 j.block_size) s o (readable cur lo hi) h v live
    where
      readable :
          (b : ℕ)
          → j.journal_start ≤ b
          → b < j.journal_end
          → read_journal_block disk j b
            ≡ some (slice (disk (u64 (b * j.block_size))) 0 j.block_size)
      readable b lo hi =
          let inside : (ltb b j.journal_start || leb j.journal_end b) ≡ false = ground arith in
          rw inside refl

  -- The checkpoint block is passed over.
  pass_checkpoint :
      (iters : ℕ) (s : S)
      → walked_state (walk (suc iters) j.checkpoint_blk s)
        ≡ walked_state (rest iters (next j.checkpoint_blk) s)
  unfolding replay_block replay_log_range
  pass_checkpoint iters s =
      visit_round iters j.checkpoint_blk s (some s) (omega (arith, r.usable))
        (omega (arith, r.last)) headed (skipped s)
    where
      skipped :
          (s : S)
          → replay_block apply_record j j.checkpoint_blk
              (slice (disk (u64 (j.checkpoint_blk * j.block_size))) 0 j.block_size)
              s
            ≡ some s
      skipped s =
          let own : (j.checkpoint_blk == j.checkpoint_blk) ≡ true = ground arith in rw own refl

  -- A block with records is applied.
  apply_block :
      (iters k seq : ℕ) (rs : List LogRecord) (s : S)
      → k ≤ n
      → IsBlock (disk (u64 (at k * j.block_size))) seq rs
      → AreKnown rs
      → walked_state (walk (suc iters) (at k) s)
        ≡ (apply_all apply_record rs s >>= (λ s'. walked_state (rest iters (next (at k)) s')))
  unfolding replay_block replay_log_range
  apply_block iters k seq rs s h b known =
      let range =
        place-range j.journal_start j.checkpoint_blk j.sb.journal_log_start
          (omega (arith, r.usable)) (omega (arith, r.last, r.narrow)) r.from_start r.before_end k
          (omega (arith, h, room)) in
      visit_round iters (at k) s (apply_all apply_record rs s) range.0
        (omega (arith, range, r.last))
        (IsBlock-headed (disk (u64 (at k * j.block_size))) j.block_size seq rs large b)
        (applied (at k) range.1 b)
    where
      applied :
          (cur : ℕ)
          → cur < j.checkpoint_blk
          → IsBlock (disk (u64 (cur * j.block_size))) seq rs
          → replay_block apply_record j cur
              (slice (disk (u64 (cur * j.block_size))) 0 j.block_size)
              s
            ≡ apply_all apply_record rs s
      applied cur before b =
          let other : (cur == j.checkpoint_blk) ≡ false = ground arith in
          rw (other, live)
            (iterate-applies apply_record (disk (u64 (cur * j.block_size))) j.block_size seq rs s
              large small known b)

  -- The rounds from the block `at k` to the next one with records.
  abbrev hop : ℕ → ℕ
  hop k = if j.sb.journal_log_start + suc k == j.checkpoint_blk then 2 else 1

  -- The rounds up to the block `at k`.
  abbrev used : ℕ → ℕ
  used k = if ltb (j.sb.journal_log_start + k) j.checkpoint_blk then k else suc k

  ends_before : (j.checkpoint_blk == j.sb.journal_log_end) ≡ false
  ends_before =
      let range =
        place-range j.journal_start j.checkpoint_blk j.sb.journal_log_start
          (omega (arith, r.usable)) (omega (arith, r.last, r.narrow)) r.from_start r.before_end n
          (omega (arith, room)) in
      rw ends (ground (arith, range.1))

  step :
      (f k seq : ℕ) (rs : List LogRecord) (s : S)
      → k < n
      → IsBlock (disk (u64 (at k * j.block_size))) seq rs
      → AreKnown rs
      → walked_state (walk (hop k + f) (at k) s)
        ≡ (apply_all apply_record rs s >>= (λ s'. walked_state (rest f (at (suc k)) s')))
  step f k seq rs s h b known =
      elim (Bool-cases (j.sb.journal_log_start + suc k == j.checkpoint_blk)) [
        | inl t ↦
            let (here, onward) =
              place_onto j.journal_start j.checkpoint_blk j.sb.journal_log_start j.journal_end n k
                r.last r.narrow r.usable r.from_start r.before_end room h (ground arith) in
            let two : hop k + f ≡ suc (suc f) = rw t (omega arith) in
            ap (λ i. walked_state (walk i (at k) s)) two
            ∙ apply_block (suc f) k seq rs s (omega arith) b known
            ∙ >>=-ext (apply_all apply_record rs s)
                (λ s'. walked_state (rest (suc f) (next (at k)) s'))
                (λ s'. walked_state (rest f (at (suc k)) s'))
                (λ s'. rw (here, ends_before) (pass_checkpoint f s' ∙ rw onward refl))
        | inr t ↦
            let one : hop k + f ≡ suc f = rw t (omega arith) in
            ap (λ i. walked_state (walk i (at k) s)) one
            ∙ apply_block f k seq rs s (omega arith) b known
            ∙ rw
                (place_on j.journal_start j.checkpoint_blk j.sb.journal_log_start j.journal_end n k
                  r.last r.narrow r.usable r.from_start r.before_end room h (ground arith))
                refl
      ]

  -- The blocks before the last one.
  prefix :
      (k f : ℕ) (rss : List (List LogRecord)) (s : S)
      → k < n
      → Stored disk j.journal_start j.checkpoint_blk j.block_size j.sb.journal_log_start k rss
      → All AreKnown rss
      → walked_state (walk (used k + f) (at 0) s)
        ≡ (apply_past apply_record rss s >>= (λ s'. walked_state (walk f (at k) s')))
  prefix zero f [] s h st known =
      let first : used 0 + f ≡ f = ground (arith, r.before_end) in
      ap (λ i. walked_state (walk i (at 0) s)) first
  prefix zero f (rs ∷ rss) s h st known = absurd st
  prefix (suc k) f [] s h st known = absurd st
  prefix (suc k) f (rs ∷ rss) s h ((seq, b), st) (know, known) =
      let fuel : used (suc k) + f ≡ used k + (hop k + f) = ground arith in
      let away =
        place-inj j.journal_start j.checkpoint_blk j.sb.journal_log_start (omega (arith, r.usable))
          (omega (arith, r.last, r.narrow)) r.from_start r.before_end (suc k) n h room in
      let on : (at (suc k) == j.sb.journal_log_end) ≡ false = rw ends (ground (arith, away)) in
      ap (λ i. walked_state (walk i (at 0) s)) fuel
      ∙ prefix k (hop k + f) rss s (omega arith) st known
      ∙ >>=-ext (apply_past apply_record rss s) (λ s1. walked_state (walk (hop k + f) (at k) s1))
          (λ s1. apply_all apply_record rs s1 >>= (λ s'. walked_state (walk f (at (suc k)) s')))
          (λ s1. step f k seq rs s1 (omega arith) b know ∙ rw on refl)
      ∙ sym (
          >>=-assoc (apply_past apply_record rss s) (apply_all apply_record rs)
            (λ s'. walked_state (walk f (at (suc k)) s')))

  pub whole :
      (k : ℕ) (rss : List (List LogRecord)) (s : S)
      → k ≡ n
      → Stored disk j.journal_start j.checkpoint_blk j.block_size j.sb.journal_log_start k rss
      → All AreKnown rss
      → walked_state (walk (j.journal_end - j.journal_start) (at 0) s)
        ≡ apply_past apply_record rss s
  unfolding walked_state
  whole zero rss s h st known = absurd (omega arith)
  whole (suc k) [] s h st known = absurd st
  whole (suc k) (rs ∷ rss) s h ((seq, b), st) (know, known) =
      let left = j.journal_end - j.journal_start - used (suc k) in
      let fuel : j.journal_end - j.journal_start ≡ used k + (hop k + left) =
        ground (arith, r.last, r.usable, r.from_start, r.before_end, room) in
      let back : (at (suc k) == j.sb.journal_log_end) ≡ true = rw (h, ends) (ground arith) in
      ap (λ i. walked_state (walk i (at 0) s)) fuel
      ∙ prefix k (hop k + left) rss s (omega arith) st known
      ∙ >>=-ext (apply_past apply_record rss s) (λ s1. walked_state (walk (hop k + left) (at k) s1))
          (apply_all apply_record rs)
          (λ s1.
            step left k seq rs s1 (omega arith) b know
            ∙ rw back (>>=-some (apply_all apply_record rs s1)))
