-- ===== src/Journal/Writer/Calm.antt =====
-- What the steps of briefs/journal_write.go leave alone: the calls that write no block of the ring,
-- a commit, and a checkpoint.
use briefs_utils.Base.{ℕ, ◌*◌, ◌==◌, ltb, leb}
use briefs_utils.Base.{
  Bool, true, false, not, ◌&&◌, ◌||◌, Option, none, some, [], ◌∷◌, ◌≡◌, refl, Bool-cases, if_cases,
  inl, inr,
}
use briefs_utils.Base.Words.{u64}
use briefs_utils.Journal.Block.{Buffer}
use briefs_utils.Journal.Writer.{
  checkpoint_steps, commit_steps, call, range_synced, sync_range, write_through, kick_wb, sync_wb,
  write_ring_block, refresh_free_counts, sync_superblock, write_checkpoint, checkpoint_flushed,
  commit,
}
use briefs_utils.Journal.State.{
  out_of_range, call_failed, advance, next_block, Journal, World, Event, Outcome, Op,
  superblock_image, wrote_at, synced_range, synced_file, drained_data, synced_meta,
  synced_allocators, flushed_wb, kicked_wb, errno_enosys, errno_einval, run_all, checkpoint_block,
  set_log_end, set_synced, block_image, retire, guarded,
}
use briefs_utils.Journal.Writer.Frame.{Keeps, proceed-Keeps, run_all-Keeps, when-Keeps}

-- A call that does not write a block of the ring.
unfoldable pub is_quiet : Event → Bool
is_quiet (wrote_at off (block_image buf)) = false
is_quiet e = true

-- A predicate that stands every other call, and the counts that it brings.
pub record IsStill (P : Journal → Type 0) : Type 0 where
  pub quiet : (j : Journal) (e : Event) → is_quiet e ≡ true → P j → P (record j { log = e ∷ j.log })
  pub counts :
      (j : Journal) (d i : ℕ)
      → P j
      → P (record j { sb = record (j.sb) { free_data_blks = d; free_inodes = i } })

-- A predicate that only sees the ring's blocks, and not the counts and the end that a commit sets.
pub record IsCalm (P : Journal → Type 0) : Type 0 where
  pub quiet : (j : Journal) (e : Event) → is_quiet e ≡ true → P j → P (record j { log = e ∷ j.log })
  pub counts :
      (j : Journal) (d i : ℕ)
      → P j
      → P (record j { sb = record (j.sb) { free_data_blks = d; free_inodes = i } })
  pub ends :
      (j : Journal) (n : ℕ) → P j → P (record j { sb = record (j.sb) { journal_log_end = n } })
  pub syncs : (j : Journal) (n : ℕ) → P j → P (record j { synced_pos = n })

-- One that does not see the ring's blocks either, nor what a checkpoint sets.
pub record IsSteady (P : Journal → Type 0) : Type 0 where
  pub calm : IsCalm P
  pub writes :
      (j : Journal) (off : ℕ) (buf : Buffer)
      → P j
      → P (record j { log = wrote_at off (block_image buf) ∷ j.log })
  pub retires : (j : Journal) → P j → P (retire j)

module _ (w : World) {P : Journal → Type 0} (still : IsStill P) where
  open still use {quiet, counts}

  pub call-Keeps' : (e : Event) → is_quiet e ≡ true → Keeps P (call w e)
  unfolding call
  call-Keeps' e q j p = elim (Bool-cases (w.fails e j.log)) [
    | inl t ↦ rw t p
    | inr t ↦ rw t (quiet j e q p)
  ]

  range_synced-Keeps : (errno : Option ℕ) (off : ℕ) → Keeps P (range_synced w errno off)
  unfolding range_synced is_quiet
  range_synced-Keeps none off j p = quiet j (synced_range off) refl p
  range_synced-Keeps (some e) off j p =
      elim (Bool-cases (not (e == errno_enosys) && not (e == errno_einval))) [
        | inl t ↦ rw t p
        | inr t ↦ rw t (call-Keeps' synced_file refl j p)
      ]

  pub sync_range-Keeps' : (off : ℕ) → Keeps P (sync_range w off)
  unfolding sync_range
  sync_range-Keeps' off j p = range_synced-Keeps (w.sync_errno j.log) off j p

  pub sync_wb-Keeps' : Keeps P (sync_wb w)
  unfolding sync_wb is_quiet
  sync_wb-Keeps' j p =
      if_cases (λ (o : Outcome). P o.0) w.has_wb_flusher _ _ (λ _. call-Keeps' flushed_wb refl j p)
        (λ _. call-Keeps' synced_file refl j p)

  pub refresh_free_counts_keeps : (j : Journal) → P j → P (refresh_free_counts w j)
  unfolding refresh_free_counts
  refresh_free_counts_keeps j p = if_cases P w.has_alloc_syncer _ _ (λ _. counts j _ _ p) (λ _. p)

  pub sync_superblock-Keeps' : Keeps P (sync_superblock w)
  unfolding sync_superblock write_through is_quiet
  sync_superblock-Keeps' j p =
      run_all-Keeps P
        (call w (wrote_at 0 (superblock_image ((refresh_free_counts w j).sb)))
          ∷ sync_range w 0
          ∷ [])
        (call-Keeps' _ refl, (sync_range-Keeps' 0, tt)) (refresh_free_counts w j)
        (refresh_free_counts_keeps j p)

module _ (w : World) {P : Journal → Type 0} (calm : IsCalm P) where
  open calm use {quiet, counts, ends, syncs}

  still : IsStill P
  still = record { quiet = quiet; counts = counts }

  pub call-Keeps : (e : Event) → is_quiet e ≡ true → Keeps P (call w e)
  call-Keeps = call-Keeps' w still

  pub sync_range-Keeps : (off : ℕ) → Keeps P (sync_range w off)
  sync_range-Keeps = sync_range-Keeps' w still

  pub sync_wb-Keeps : Keeps P (sync_wb w)
  sync_wb-Keeps = sync_wb-Keeps' w still

  pub refresh_free_counts-Keeps : (j : Journal) → P j → P (refresh_free_counts w j)
  refresh_free_counts-Keeps = refresh_free_counts_keeps w still

  pub sync_superblock-Keeps : Keeps P (sync_superblock w)
  sync_superblock-Keeps = sync_superblock-Keeps' w still

  set_log_end-Keeps : (j : Journal) → P j → P (set_log_end j)
  unfolding set_log_end
  set_log_end-Keeps j p = ends j _ p

  set_synced-Keeps : (j : Journal) → P j → P (set_synced j)
  unfolding set_synced
  set_synced-Keeps j p = syncs j _ p

  pub commit-Keeps : Keeps P (commit w)
  unfolding commit is_quiet
  commit-Keeps = run_all-Keeps P (commit_steps w) (
    when-Keeps P w.has_data_drainer (call w drained_data) (call-Keeps drained_data refl),
    (
      set_log_end-Keeps,
      (
        sync_superblock-Keeps,
        (
          when-Keeps P w.has_meta_syncer (call w synced_meta) (call-Keeps synced_meta refl),
          (
            when-Keeps P w.has_alloc_syncer (call w synced_allocators)
                (call-Keeps synced_allocators refl),
            (sync_wb-Keeps, (set_synced-Keeps, tt)),
          ),
        ),
      ),
    ),
  )

-- One that stands the write of the checkpoint block, and what it retires.
pub record IsRetirable (P : Journal → Type 0) : Type 0 where
  pub calm : IsCalm P
  pub checkpoints :
      (j : Journal) (buf : Buffer)
      → P j
      → P (record j {
        log = wrote_at (u64 (j.checkpoint_blk * j.block_size)) (block_image buf) ∷ j.log;
      })
  pub retires : (j : Journal) → P j → P (retire j)

pub IsSteady-IsRetirable : {P : Journal → Type 0} → IsSteady P → IsRetirable P
IsSteady-IsRetirable steady = record {
  calm = steady.calm;
  checkpoints = λ j buf. steady.writes j _ buf;
  retires = steady.retires;
}

module _ (w : World) {P : Journal → Type 0} where
  -- A block write keeps what stands it, also where it fails.
  write_ring_block_keeps :
      (block : ℕ) (buf : Buffer) (j : Journal)
      → IsCalm P
      → P (record j { log = wrote_at (u64 (block * j.block_size)) (block_image buf) ∷ j.log })
      → P j
      → P (write_ring_block w block buf j).0
  unfolding write_ring_block write_through call
  write_ring_block_keeps block buf j calm q p =
      let off = u64 (block * j.block_size) in
      if_cases (λ (o : Outcome). P o.0) (ltb block j.journal_start || leb j.journal_end block)
        (j, some out_of_range) (write_through w off (block_image buf) j) (λ _. p)
        (λ _.
          proceed-Keeps P (call w (wrote_at off (block_image buf)) j)
            (run_all (sync_range w off ∷ []))
            (if_cases (λ (o : Outcome). P o.0) (w.fails (wrote_at off (block_image buf)) j.log)
              (j, some (call_failed (wrote_at off (block_image buf))))
              (record j { log = wrote_at off (block_image buf) ∷ j.log }, none) (λ _. p) (λ _. q))
            (run_all-Keeps P (sync_range w off ∷ []) (sync_range-Keeps w calm off, tt)))

  pub write_ring_block-Keeps :
      IsSteady P → (block : ℕ) (buf : Buffer) → Keeps P (write_ring_block w block buf)
  write_ring_block-Keeps steady block buf j p =
      write_ring_block_keeps block buf j steady.calm (steady.writes j _ buf p) p

  pub checkpoint_flushed-Keeps : IsRetirable P → Keeps P (checkpoint_flushed w)
  unfolding checkpoint_flushed kick_wb write_checkpoint is_quiet
  checkpoint_flushed-Keeps retirable =
      let calm = retirable.calm in
      run_all-Keeps P (checkpoint_steps w) (
        when-Keeps P w.has_wb_flusher (call w kicked_wb) (call-Keeps w calm kicked_wb refl),
        (
          when-Keeps P w.has_alloc_syncer (run_all (call w synced_allocators ∷ sync_wb w ∷ [])) (
              run_all-Keeps P (call w synced_allocators ∷ sync_wb w ∷ [])
                (call-Keeps w calm synced_allocators refl, (sync_wb-Keeps w calm, tt))),
          (
            refresh_free_counts-Keeps w calm,
            (
              (λ j p.
                  write_ring_block_keeps j.checkpoint_blk (checkpoint_block j) j calm
                    (retirable.checkpoints j (checkpoint_block j) p) p),
              (retirable.retires, (sync_superblock-Keeps w calm, tt)),
            ),
          ),
        ),
      )

-- A step under `in_checkpoint` keeps what does not read it.
pub guarded-Keeps :
    (P : Journal → Type 0)
    → ((j : Journal) (b : Bool) → P j → P (record j { in_checkpoint = b }))
    → (f : Op) → Keeps P f
    → Keeps P (guarded f)
unfolding guarded
guarded-Keeps P guards f k j p = guards _ false (k _ (guards j true p))

-- An advance only moves the place and counts.
pub advance_keeps :
    (P : Journal → Type 0) (j : Journal)
    → ((n m : ℕ) → P (record j { write_pos = n; blocks_since_checkpoint = m }))
    → P (advance j)
unfolding advance
advance_keeps P j k =
    if_cases P (next_block j j.write_pos == j.checkpoint_blk) _ _ (λ _. k _ _) (λ _. k _ _)
