-- ===== src/Journal/Writer/Order.antt =====
-- The order in which syncLocked of briefs/journal_write.go commits: the block of records, the
-- superblock whose log ends behind it, and only then what the records describe.
use briefs_utils.Base.{ℕ, ◌*◌, ◌==◌}
use briefs_utils.Base.{
  if◌then◌else◌, true, List, [], ◌∷◌, ◌++◌, ◌≡◌, refl, ◌∙◌, ap, Bool-cases, if_cases, inl, inr,
}
use briefs_utils.Base.Words.{u64}
use briefs_utils.Journal.Block.{Buffer}
use briefs_utils.Journal.Writer.{
  call, sync_range, write_through, write_ring_block, flush_block, sync_superblock,
  refresh_free_counts, sync_wb, commit, commit_steps,
}
use briefs_utils.Journal.State.{
  Journal, World, Event, wrote_at, block_image, superblock_image, synced_meta, drained_data,
  synced_allocators, SuperblockLayout, run_all, modify, when, advance, start_block, init_cur_block,
  set_log_end, set_synced, retire, next_block,
}
use briefs_utils.Journal.Writer.Frame.{
  Ensures, when-Keeps, run_all-Ensures, step, done, Keeps-Ensures, proceed-Ensures,
}
use briefs_utils.Journal.Writer.Calm.{
  IsCalm, IsRetirable, is_quiet, call-Keeps, sync_range-Keeps, sync_wb-Keeps, advance_keeps,
}
use briefs_utils.Journal.Writer.Moves.{call_at, write_ring_block_at}

-- The call is in the log, behind calls with `R`.
abbrev pub After : (List Event → Type 0) → Event → List Event → Type 0
After R e log =
    (later : List Event) × (earlier : List Event) × (log ≡ later ++ e ∷ earlier) × R earlier

After-later :
    (R : List Event → Type 0) (e x : Event) (log : List Event) → After R e log → After R e (x ∷ log)
After-later R e x log (later, earlier, eq, r) =
    (x ∷ later, earlier, ap (λ (l : List Event). x ∷ l) eq, r)

-- The block was written; then a superblock whose log ends at `end`; then the metadata.
abbrev pub WroteBlock : ℕ → Buffer → List Event → Type 0
WroteBlock off buf = After (λ log. Unit {0}) (wrote_at off (block_image buf))

abbrev pub Published : ℕ → Buffer → ℕ → List Event → Type 0
Published off buf end log =
    (sb : SuperblockLayout) × (sb.journal_log_end ≡ end)
    × After (WroteBlock off buf) (wrote_at 0 (superblock_image sb)) log

abbrev pub Committed : ℕ → Buffer → ℕ → List Event → Type 0
Committed off buf end = After (Published off buf end) synced_meta

-- A property of the log that later calls keep is kept by every step.
log-IsRetirable :
    (P : List Event → Type 0)
    → ((e : Event) (log : List Event) → P log → P (e ∷ log))
    → IsRetirable (λ j. P j.log)
unfolding retire
log-IsRetirable P k = record {
  calm = record {
    quiet = λ j e q p. k e j.log p;
    counts = λ j d i p. p;
    ends = λ j n p. p;
    syncs = λ j n p. p;
  };
  checkpoints = λ j buf p. k _ j.log p;
  retires = λ j p. p;
}

module _ (w : World) (off : ℕ) (buf : Buffer) (end : ℕ) where
  Published-later :
      (e : Event) (log : List Event) → Published off buf end log → Published off buf end (e ∷ log)
  Published-later e log (sb, eq, a) = (sb, eq, After-later (WroteBlock off buf) _ e log a)

  Published-IsRetirable : IsRetirable (λ j. Published off buf end j.log)
  Published-IsRetirable = log-IsRetirable (Published off buf end) Published-later

  pub Committed-IsRetirable : IsRetirable (λ j. Committed off buf end j.log)
  Committed-IsRetirable =
      log-IsRetirable (Committed off buf end) (After-later (Published off buf end) synced_meta)

  -- With the block written, and the writer at the end that the log shall have.
  unfoldable pub Flushed : Journal → Type 0
  Flushed j = WroteBlock off buf j.log × (j.write_pos ≡ end)

  Flushed-IsCalm : IsCalm Flushed
  unfolding Flushed
  Flushed-IsCalm = record {
    quiet = λ j e q p. (After-later (λ log. Unit {0}) _ e j.log p.0, p.1);
    counts = λ j d i p. p;
    ends = λ j n p. p;
    syncs = λ j n p. p;
  }

  Ending : Journal → Type 0
  Ending j = WroteBlock off buf j.log × (j.sb.journal_log_end ≡ end)

  refresh-Ending : (j : Journal) → Ending j → Ending (refresh_free_counts w j)
  unfolding refresh_free_counts Ending
  refresh-Ending j p = if_cases Ending w.has_alloc_syncer _ _ (λ t. p) (λ f. p)

  publishes : Ensures Ending (sync_superblock w) (λ j. Published off buf end j.log)
  unfolding sync_superblock write_through Ending
  publishes j p =
      let i = refresh_free_counts w j in
      let q = refresh-Ending j p in
      proceed-Ensures (λ k. Published off buf end k.log) (λ k. Published off buf end k.log)
        (call w (wrote_at 0 (superblock_image (i.sb))) i) (run_all (sync_range w 0 ∷ []))
        (call_at w (λ k. Published off buf end k.log) (wrote_at 0 (superblock_image (i.sb))) i
          (i.sb, q.1, ([], i.log, refl, q.0)))
        (run_all-Ensures (λ k. Published off buf end k.log) (λ k. Published off buf end k.log)
          (sync_range w 0 ∷ [])
          (step {Q = λ k. Published off buf end k.log}
            (Keeps-Ensures (λ k. Published off buf end k.log) (sync_range w 0)
              (sync_range-Keeps w Published-IsRetirable.calm 0))
            done))

  pub commits :
      w.has_meta_syncer ≡ true → Ensures Flushed (commit w) (λ j. Committed off buf end j.log)
  unfolding commit Flushed Ending set_log_end set_synced is_quiet
  commits has =
      let P : Journal → Type 0 = λ j. Published off buf end j.log in
      let C : Journal → Type 0 = λ j. Committed off buf end j.log in
      run_all-Ensures Flushed C (commit_steps w) (
        step {Q = Flushed}
          (Keeps-Ensures Flushed (when w.has_data_drainer (call w drained_data)) (
            when-Keeps Flushed w.has_data_drainer (call w drained_data)
              (call-Keeps w Flushed-IsCalm drained_data refl)))
          (step {Q = Ending} (λ j p e. p)
            (step {Q = P} publishes (
              step {Q = C} (λ j p. rw has (call_at w C synced_meta j ([], j.log, refl, p)))
                (step {Q = C}
                  (Keeps-Ensures C (when w.has_alloc_syncer (call w synced_allocators)) (
                    when-Keeps C w.has_alloc_syncer (call w synced_allocators)
                      (call-Keeps w Committed-IsRetirable.calm synced_allocators refl)))
                  (step {Q = C}
                    (Keeps-Ensures C (sync_wb w) (sync_wb-Keeps w Committed-IsRetirable.calm))
                    (step {Q = C} (λ j p e. p) done)))))))

-- Where an advance from `j` ends.
abbrev pub next_pos : Journal → ℕ
next_pos j =
    let next = next_block j j.write_pos in
    if next == j.checkpoint_blk then next_block j next else next

module _ (w : World) (j0 : Journal) where
  -- The place, the ring and the block under construction of `j0`, with its records pending.
  unfoldable pub Same : Journal → Type 0
  Same j =
      (j.write_pos ≡ j0.write_pos)
      × (j.block_size ≡ j0.block_size)
      × (j.cur_block ≡ j0.cur_block)
      × (next_pos j ≡ next_pos j0)

  pub Same-IsRetirable : IsRetirable Same
  unfolding Same retire next_block
  Same-IsRetirable = record {
    calm = record {
      quiet = λ j e q p. p;
      counts = λ j d i p. p;
      ends = λ j n p. p;
      syncs = λ j n p. p;
    };
    checkpoints = λ j buf p. p;
    retires = λ j p. p;
  }

  Block : List Event → Type 0
  Block = WroteBlock (u64 (j0.write_pos * j0.block_size)) j0.cur_block

  Block-IsCalm : (n : ℕ) → IsCalm (λ j. Block j.log × (next_pos j ≡ n))
  unfolding Block next_block
  Block-IsCalm n = record {
    quiet = λ j e q p. (After-later (λ log. Unit {0}) _ e j.log p.0, p.1);
    counts = λ j d i p. p;
    ends = λ j m p. p;
    syncs = λ j m p. p;
  }

  advances : (i : Journal) → Block i.log → Block (advance i).log
  advances i p = advance_keeps (λ k. Block k.log) i (λ n m. p)

  advance_pos : (i : Journal) → (advance i).write_pos ≡ next_pos i
  unfolding advance
  advance_pos i = elim (Bool-cases (next_block i i.write_pos == i.checkpoint_blk)) [
    | inl t ↦ rw t refl
    | inr t ↦ rw t refl
  ]

  pub flushes :
      Ensures Same
        (flush_block w)
        (Flushed w (u64 (j0.write_pos * j0.block_size)) j0.cur_block (next_pos j0))
  unfolding flush_block Same Flushed Block start_block init_cur_block
  flushes j (pos, size, buf, next) =
      let B : Journal → Type 0 = λ i. Block i.log × (next_pos i ≡ next_pos j0) in
      let F : Journal → Type 0 = λ i. Block i.log × (i.write_pos ≡ next_pos j0) in
      proceed-Ensures B F (write_ring_block w j.write_pos j.cur_block j)
        (run_all (modify advance ∷ modify start_block ∷ []))
        (write_ring_block_at w B j.write_pos j.cur_block j (Block-IsCalm (next_pos j0))
          (([], j.log, rw (pos, size, buf) refl, tt), next))
        (run_all-Ensures B F (modify advance ∷ modify start_block ∷ []) (
          step {Q = F} (λ i p e. (advances i p.0, advance_pos i ∙ p.1))
            (step {Q = F} (λ i p e. p) done)))
