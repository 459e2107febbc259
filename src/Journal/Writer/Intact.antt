-- ===== src/Journal/Writer/Intact.antt =====
-- No method of briefs/journal_write.go writes twice on a block of the ring between two
-- checkpoints, but for a record that overflows its block in a ring that is full.
use briefs_utils.Base.{ℕ, suc, ◌-◌, ◌==◌, ltb, leb}
use briefs_utils.Base.{
  Bool, true, false, ◌&&◌, not, none, [], ◌∷◌, ◌≡◌, refl, ◌∙◌, sym, arith, Bool-cases, inl, inr,
}
use briefs_utils.Journal.Writer.{
  flush_block, commit, checkpoint_flushed, checkpoint_with, write_pending, sync_with, sync_depth,
  sync_locked, sync,
}
use briefs_utils.Journal.State.{
  Journal, World, Op, run_all, when, guarded, retire_oldest, periodic, relieve,
  jrn_checkpoint_interval, next_block,
}
use briefs_utils.Journal.Writer.Frame.{
  Ensures, run_all-Ensures, step, done, Keeps-Ensures, proceed-Ensures, when-Ensures, when_at,
}
use briefs_utils.Journal.Writer.Calm.{IsCalm, commit-Keeps}
use briefs_utils.Journal.Writer.Places.{place-wraps, place-ne_start}
use briefs_utils.Journal.Writer.Placed.{IsAt, IsAt-IsCalm, WithRoom}
use briefs_utils.Journal.Writer.Moves.{flush_block-IsAt, checkpoint_flushed-IsAt}

-- The blocks written since the last checkpoint are the first ones from the start of the log on,
-- each once, up to where the writer stands.
abbrev pub IsIntact : Journal → Type 0
IsIntact j = (k : ℕ) × IsAt k k j

abbrev pub IsRoomy : Journal → Type 0
IsRoomy j = (k : ℕ) × WithRoom k k j

IsIntact-IsCalm : IsCalm IsIntact
IsIntact-IsCalm = record {
  quiet = λ j e q p. (p.0, (IsAt-IsCalm p.0 p.0).quiet j e q p.1);
  counts = λ j d i p. p;
  ends = λ j m p. p;
  syncs = λ j m p. p;
}

IsRoomy-IsIntact : (j : Journal) → IsRoomy j → IsIntact j
IsRoomy-IsIntact j p = (p.0, p.1.0)

abbrev pub is_wrapped : Journal → Bool
is_wrapped j = j.write_pos == j.sb.journal_log_start && ltb 0 j.blocks_since_checkpoint

-- Where the writer is not back at the start of the log, or has not left it, there is room.
pub not_wrapped : (j : Journal) → IsIntact j → is_wrapped j ≡ false → IsRoomy j
not_wrapped j (k, r) e = (
  k,
  (
    r,
    elim (Bool-cases (ltb k (j.checkpoint_blk - j.journal_start))) [
      | inl t ↦ ground arith
      | inr t ↦
          let full : k ≡ j.checkpoint_blk - j.journal_start = ground (arith, r.within) in
          let back : j.write_pos ≡ j.sb.journal_log_start =
            r.here
            ∙ rw full (
                place-wraps j.journal_start j.checkpoint_blk j.sb.journal_log_start
                  (omega (arith, r.usable)) (omega (arith, r.last, r.narrow)) r.from_start
                  r.before_end) in
          absurd (ground (arith, back, r.counted, r.usable))
    ],
  ),
)

awake : (held test : Bool) → held ≡ false → (not held && test) ≡ false → test ≡ false
awake true test h e = cc
awake false test h e = e

-- With room the writer is not back at the start of the log.
pub IsRoomy-not_wrapped : (j : Journal) → IsRoomy j → is_wrapped j ≡ false
IsRoomy-not_wrapped j (k, (r, room)) = elim (Bool-cases (ltb 0 k)) [
  | inl t ↦
      let away =
        place-ne_start j.journal_start j.checkpoint_blk j.sb.journal_log_start
          (omega (arith, r.usable)) (omega (arith, r.last, r.narrow)) r.from_start r.before_end k
          (ground arith) room in
      let apart : (j.write_pos == j.sb.journal_log_start) ≡ false =
        ground (arith, λ (e : j.write_pos ≡ j.sb.journal_log_start). away (sym r.here ∙ e)) in
      rw apart refl
  | inr t ↦
      let none_since : ltb 0 j.blocks_since_checkpoint ≡ false = ground (arith, r.bounded) in
      ground (arith, none_since)
]

module _ (w : World) where
  pub flush_block-IsIntact : Ensures IsRoomy (flush_block w) IsIntact
  flush_block-IsIntact j p e = (suc p.0, flush_block-IsAt w p.0 j p.1 e)

  pub checkpoint_flushed-IsRoomy : Ensures IsIntact (checkpoint_flushed w) IsRoomy
  checkpoint_flushed-IsRoomy j p e =
      let r = checkpoint_flushed-IsAt w p.0 j p.1 e in (0, (r, omega (arith, r.usable)))

  module _ (s : Bool → Op) (sound : Ensures IsIntact (s true) IsIntact) where
    checkpoint_with-IsRoomy : (flush : Bool) → Ensures IsIntact (checkpoint_with w s flush) IsRoomy
    unfolding checkpoint_with
    checkpoint_with-IsRoomy flush j =
        run_all-Ensures IsIntact IsRoomy
          (when (flush && j.dirty) (s true) ∷ checkpoint_flushed w ∷ [])
          (step {Q = IsIntact}
            (when-Ensures IsIntact IsIntact (flush && j.dirty) (s true) (λ t. sound) (λ f i p. p))
            (step {Q = IsRoomy} checkpoint_flushed-IsRoomy done))
          j

    pub retire_oldest-IsRoomy :
        (j : Journal)
        → j.in_checkpoint ≡ false
        → IsIntact j
        → (retire_oldest (checkpoint_with w s) j).1 ≡ none
        → IsRoomy (retire_oldest (checkpoint_with w s) j).0
    unfolding retire_oldest guarded
    retire_oldest-IsRoomy j idle p =
        when_at IsRoomy
          (not j.in_checkpoint
            && (j.write_pos == j.sb.journal_log_start && ltb 0 j.blocks_since_checkpoint))
          (guarded (checkpoint_with w s false)) j
          (λ t. checkpoint_with-IsRoomy false (record j { in_checkpoint = true }) p)
          (λ f. not_wrapped j p (awake j.in_checkpoint _ idle f))

    guarded-IsIntact : Ensures IsIntact (guarded (checkpoint_with w s true)) IsIntact
    unfolding guarded
    guarded-IsIntact j p e =
        let r = checkpoint_with-IsRoomy true (record j { in_checkpoint = true }) p e in (r.0, r.1.0)

    write_pending-IsIntact :
        (requested : Bool)
        → Ensures IsRoomy (write_pending w (checkpoint_with w s) requested) IsIntact
    unfolding write_pending periodic relieve
    write_pending-IsIntact requested j =
        when-Ensures IsRoomy IsIntact j.dirty
          (run_all (
            flush_block w
            ∷ commit w
            ∷ periodic (checkpoint_with w s) requested
            ∷ relieve (checkpoint_with w s)
            ∷ []))
          (λ t.
            run_all-Ensures IsRoomy IsIntact
              (flush_block w
                ∷ commit w
                ∷ periodic (checkpoint_with w s) requested
                ∷ relieve (checkpoint_with w s)
                ∷ [])
              (step {Q = IsIntact} flush_block-IsIntact (
                step {Q = IsIntact}
                  (Keeps-Ensures IsIntact (commit w) (commit-Keeps w IsIntact-IsCalm))
                  (step {Q = IsIntact}
                    (λ i.
                      when-Ensures IsIntact IsIntact
                        (requested && leb jrn_checkpoint_interval i.records_since_checkpoint)
                        (checkpoint_with w s true)
                        (λ t i p e. let r = checkpoint_with-IsRoomy true i p e in (r.0, r.1.0))
                        (λ f i p. p) i)
                    (step {Q = IsIntact}
                      (λ i.
                        when-Ensures IsIntact IsIntact
                          (not i.in_checkpoint
                            && next_block i i.write_pos == i.sb.journal_log_start)
                          (guarded (checkpoint_with w s true)) (λ t. guarded-IsIntact) (λ f i p. p)
                          i)
                      done)))))
          (λ f. IsRoomy-IsIntact) j

    pub sync_with-IsIntact :
        (requested : Bool) (j : Journal)
        → j.in_checkpoint ≡ false
        → IsIntact j
        → (sync_with w (checkpoint_with w s) requested j).1 ≡ none
        → IsIntact (sync_with w (checkpoint_with w s) requested j).0
    unfolding sync_with
    sync_with-IsIntact requested j idle p =
        when_at IsIntact j.dirty
          (run_all (
            retire_oldest (checkpoint_with w s)
            ∷ write_pending w (checkpoint_with w s) requested
            ∷ []))
          j
          (λ t.
            proceed-Ensures IsRoomy IsIntact (retire_oldest (checkpoint_with w s) j)
              (run_all (write_pending w (checkpoint_with w s) requested ∷ []))
              (retire_oldest-IsRoomy j idle p)
              (run_all-Ensures IsRoomy IsIntact
                (write_pending w (checkpoint_with w s) requested ∷ [])
                (step {Q = IsIntact} (write_pending-IsIntact requested) done)))
          (λ f. p)

  pub too_deep-IsIntact : Ensures IsIntact (sync_depth w 0 true) IsIntact
  unfolding sync_depth
  too_deep-IsIntact j p e = cc

  pub sync-IsIntact :
      (requested : Bool) (j : Journal)
      → j.in_checkpoint ≡ false
      → IsIntact j
      → (sync w requested j).1 ≡ none
      → IsIntact (sync w requested j).0
  unfolding sync sync_locked sync_depth
  sync-IsIntact = sync_with-IsIntact (sync_depth w 0) too_deep-IsIntact
