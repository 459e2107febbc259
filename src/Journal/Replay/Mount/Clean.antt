-- ===== src/Journal/Replay/Mount/Clean.antt =====
-- A mount that replays leaves a clean log: replayJournal of fuse/journal_replay.go, and
-- MarkCleanAfterReplay of briefs/journal_replay.go.
use briefs_utils.Base.{ℕ, ◌*◌, ◌^◌, ◌≤◌, ◌<◌, ◌==◌}
use briefs_utils.Base.{
  true, false, Option, none, some, List, ◌>>=◌, >>=-ext, ◌≡◌, ◌≢◌, refl, ◌∙◌, ap, arith, Bool-cases,
  inl, inr,
}
use briefs_utils.Base.Words.{u64}
use briefs_utils.Base.Bytes.{All}
use briefs_utils.Journal.Ring.{is_journal_block}
use briefs_utils.Journal.Block.{Buffer, slice, journal_block_size}
use briefs_utils.Journal.Block.Records.{LogRecord}
use briefs_utils.Journal.State.{
  Journal, World, SuperblockLayout, Outcome, new_journal, set_in_replay, replay_log_range,
}
use briefs_utils.Journal.Writer.{mark_clean_after_replay}
use briefs_utils.Journal.Writer.Calm.{IsStill, refresh_free_counts_keeps, sync_superblock-Keeps'}
use briefs_utils.Journal.Writer.Intact.{IsIntact, is_wrapped}
use briefs_utils.Journal.Writer.Carried.{Contents, Carries}
use briefs_utils.Journal.Replay.{walk_journal}
use briefs_utils.Journal.Replay.Applied.{AreKnown, apply_past}
use briefs_utils.Journal.Replay.Disk.{disk_after}
use briefs_utils.Journal.Replay.Recovers.{walk_journal-Recovers}
use briefs_utils.Journal.Replay.Mount.Opened.{
  Names, walk_journal-entered, walk_journal-opened, opened_superblock,
}
use briefs_utils.Journal.Replay.Mount.{
  Bridge, settle, replay_passes, marked_clean, replay_outcome, replay_journal,
}

abbrev pub IsClean : Journal → Type 0
IsClean j = j.sb.journal_log_start ≡ j.sb.journal_log_end

IsClean-IsStill : IsStill IsClean
IsClean-IsStill = record { quiet = λ j e q p. p; counts = λ j d i p. p }

mark_clean_after_replay-IsClean :
    (w : World) (j : Journal) → IsClean (mark_clean_after_replay w j).0
unfolding mark_clean_after_replay
mark_clean_after_replay-IsClean w j =
    sync_superblock-Keeps' w IsClean-IsStill _ (refresh_free_counts_keeps w IsClean-IsStill _ refl)

module _ {S : Type 0} (b : Bridge S) (w : World) where
  -- What a replay of the blocks' records, the last block first, should make of the file system.
  abbrev pub recovered : List (List LogRecord) → S → Option S
  recovered past s =
      apply_past (b.apply_record true) past (b.begin_replay s)
      >>= (λ s1. apply_past (b.apply_record false) past (b.build_xattr_live_set s1) >>= settle b)

  -- A clean log is not replayed.
  replay_journal-clean :
      (disk : ℕ → Buffer) (j : Journal) (s : S)
      → IsClean j
      → replay_journal b w disk j s ≡ (some s, j)
  unfolding replay_journal replay_log_range
  replay_journal-clean disk j s e =
      let same : (j.sb.journal_log_start == j.sb.journal_log_end) ≡ true = ground arith in
      rw same refl

  marked_clean-IsClean : (o : Outcome) (t : S) → IsClean o.0 → IsClean (marked_clean b t o).1
  unfolding marked_clean set_in_replay
  marked_clean-IsClean (j, none) t p = p
  marked_clean-IsClean (j, some e) t p = p

  replay_outcome-IsClean :
      (j : Journal) (o : Option S) (s : S)
      → (replay_outcome b w j o).0 ≡ some s
      → IsClean (replay_outcome b w j o).1
  unfolding replay_outcome
  replay_outcome-IsClean j none s e = cc
  replay_outcome-IsClean j (some t) s e =
      marked_clean-IsClean (mark_clean_after_replay w j) t (mark_clean_after_replay-IsClean w j)

  marked_clean-some :
      (o : Outcome) (t : S) → o.1 ≡ none → (marked_clean b t o).0 ≡ some (b.end_replay t)
  unfolding marked_clean
  marked_clean-some (j, none) t e = refl
  marked_clean-some (j, some x) t e = cc

  replay_outcome-passes :
      (j : Journal) (o : Option S)
      → (mark_clean_after_replay w j).1 ≡ none
      → (replay_outcome b w j o).0 ≡ (o >>= (λ t. some (b.end_replay t)))
  unfolding replay_outcome
  replay_outcome-passes j none e = refl
  replay_outcome-passes j (some t) e = marked_clean-some (mark_clean_after_replay w j) t e

  module _ (disk : ℕ → Buffer) (c : Contents) (j : Journal) (intact : IsIntact j)
      (away : is_wrapped j ≡ false) (carried : Carries c j) (known : All AreKnown c.past)
      (ends : j.sb.journal_log_end ≡ j.write_pos) (large : journal_block_size ≤ j.block_size)
      (small : j.block_size < 2 ^ 32)
      (headed : is_journal_block
          (slice (disk_after disk j.log (u64 (j.checkpoint_blk * j.block_size))) 0 j.block_size)
        ≡ true) where
    module _ (sb : SuperblockLayout) (m : Journal) (names : Names sb j)
        (opens : new_journal sb j.block_size ≡ inr m) where
      entered_walks :
          (apply_record : ℕ → List ℕ → S → S × Option ℕ) (s : S)
          → walk_journal apply_record (disk_after disk j.log) (set_in_replay true m) s
            ≡ apply_past apply_record c.past s
      entered_walks apply_record s =
          walk_journal-entered apply_record (disk_after disk j.log) m s
          ∙ walk_journal-opened apply_record (disk_after disk j.log) sb j m intact.0 s intact.1
              names opens
          ∙ walk_journal-Recovers apply_record disk c j s intact away carried known ends large small
              headed

      passes_apply :
          (s : S)
          → replay_passes b (disk_after disk j.log) (set_in_replay true m) s ≡ recovered c.past s
      unfolding replay_passes
      passes_apply s = rw (entered_walks (b.apply_record true) (b.begin_replay s)) (
          >>=-ext (apply_past (b.apply_record true) c.past (b.begin_replay s))
            (λ s1.
              walk_journal (b.apply_record false) (disk_after disk j.log) (set_in_replay true m)
                (b.build_xattr_live_set s1)
              >>= settle b)
            (λ s1.
              apply_past (b.apply_record false) c.past (b.build_xattr_live_set s1) >>= settle b)
            (λ s1.
              ap (λ o. o >>= settle b)
                (entered_walks (b.apply_record false) (b.build_xattr_live_set s1))))

      -- Let a writer's journal stop with an intact ring that is not wrapped full, whose blocks
      -- carry records of known types, and with its log ending where the writer stands. On the disk
      -- that its calls leave, let a mount open a journal by a superblock with this ring and this
      -- log, which is not empty. When the log can be marked clean, the mount's replay applies the
      -- records of all blocks that the writer has written since its last checkpoint twice, in the
      -- order in which they were written, first only to reserve, then in full, and settles the
      -- outcome, and fails where one of these fails. Blocks are of at least 4096 and fewer than 2 ^
      -- 32 bytes, and the checkpoint block on the disk has a journal magic.
      pub replay_journal-Replays :
          (s : S)
          → sb.journal_log_start ≢ sb.journal_log_end
          → (mark_clean_after_replay w (set_in_replay true m)).1 ≡ none
          → (replay_journal b w (disk_after disk j.log) m s).0
            ≡ (recovered c.past s >>= (λ t. some (b.end_replay t)))
      unfolding replay_journal replay_log_range
      replay_journal-Replays s live clean =
          let entered = set_in_replay true m in
          let same = opened_superblock sb j.block_size m opens in
          let apart : (m.sb.journal_log_start == m.sb.journal_log_end) ≡ false =
            rw same (ground (arith, live)) in
          rw apart (
            replay_outcome-passes entered (replay_passes b (disk_after disk j.log) entered s) clean
            ∙ ap (λ o. o >>= (λ t. some (b.end_replay t))) (passes_apply s))

  -- When the replay at a mount succeeds, whatever is on the disk, replaying the journal that it
  -- leaves does nothing, from whatever disk and state.
  pub replay_journal_once :
      (disk later : ℕ → Buffer) (j : Journal) (s s' t : S)
      → (replay_journal b w disk j s).0 ≡ some s'
      → replay_journal b w later (replay_journal b w disk j s).1 t
        ≡ (some t, (replay_journal b w disk j s).1)
  unfolding replay_journal replay_log_range
  replay_journal_once disk later j s s' t e =
      let entered = set_in_replay true j in
      elim (Bool-cases (j.sb.journal_log_start == j.sb.journal_log_end)) [
        | inl same ↦
            let none_live : IsClean j = ground arith in
            rw same (replay_journal-clean later j t none_live)
        | inr apart ↦
            let won : (replay_outcome b w entered (replay_passes b disk entered s)).0 ≡ some s' =
              rw apart at e in
            rw apart (
              replay_journal-clean later
                (replay_outcome b w entered (replay_passes b disk entered s)).1 t
                (replay_outcome-IsClean entered (replay_passes b disk entered s) s' won))
      ]
