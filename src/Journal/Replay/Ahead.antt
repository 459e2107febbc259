-- ===== src/Journal/Replay/Ahead.antt =====
-- One round of WalkJournalRing of briefs/journal_replay.go, and where the next one stands in a ring
-- that the writer of briefs/journal_write.go fills around its checkpoint block.
use briefs_utils.Base.{ℕ, suc, ◌+◌, ◌-◌, ◌^◌, ◌≤◌, ◌<◌, ◌==◌}
use briefs_utils.Base.{
  if◌then◌else◌, true, false, Option, none, some, List, ◌>>=◌, ◌≡◌, ◌≢◌, ap, arith, Bool-cases, inl,
  inr,
}
use briefs_utils.Journal.Ring.{
  next_ring_block, is_journal_block, walked, visit_failed, bad_magic, walk_from,
}
use briefs_utils.Journal.Replay.{walked_state}
use briefs_utils.Journal.Writer.Places.{place}

pub round :
    {S : Type 0} (read_block : ℕ → Option (List ℕ)) (offset n start end : ℕ)
    (visit : ℕ → List ℕ → S → Option S) (iters cur : ℕ) (buf : List ℕ) (s : S) (o : Option S)
    → read_block cur ≡ some buf
    → is_journal_block buf ≡ true
    → visit cur buf s ≡ o
    → (start == end) ≡ false
    → walked_state (walk_from read_block offset n start end visit (suc iters) cur s) ≡ (
        o >>= (λ s'. walked_state (
          if next_ring_block cur offset n == end
          then walked s'
          else walk_from read_block offset n start end visit iters
              (next_ring_block cur offset n)
              s')))
unfolding walk_from walked_state
round read_block offset n start end visit iters cur buf s none r h v e =
    let stopped : walk_from read_block offset n start end visit (suc iters) cur s
        ≡ visit_failed cur s =
      cc (r, h, v) in
    ap walked_state stopped
round read_block offset n start end visit iters cur buf s (some s') r h v e =
    let onward : walk_from read_block offset n start end visit (suc iters) cur s ≡ (
        if next_ring_block cur offset n == end
        then walked s'
        else walk_from read_block offset n start end visit iters (next_ring_block cur offset n)
            s') =
      cc (r, h, v, e) in
    ap walked_state onward

-- A log that is empty: a block that is not one of the journal ends the walk the same.
pub round_clean :
    {S : Type 0} (read_block : ℕ → Option (List ℕ)) (offset n start end : ℕ)
    (visit : ℕ → List ℕ → S → Option S) (iters : ℕ) (buf : List ℕ) (s : S)
    → read_block start ≡ some buf
    → visit start buf s ≡ some s
    → (start == end) ≡ true
    → walked_state (walk_from read_block offset n start end visit (suc iters) start s) ≡ some s
unfolding walk_from walked_state
round_clean read_block offset n start end visit iters buf s r v e =
    elim (Bool-cases (is_journal_block buf)) [
      | inl t ↦
          let ended : walk_from read_block offset n start end visit (suc iters) start s ≡ walked s =
            cc (r, t, v, e) in
          ap walked_state ended
      | inr t ↦
          let ended : walk_from read_block offset n start end visit (suc iters) start s
              ≡ bad_magic start s =
            cc (r, t) in
          ap walked_state ended
    ]

module _ (start cp s end n k : ℕ) (last : cp + 1 ≡ end) (narrow : end < 2 ^ 64)
    (usable : start + 3 ≤ cp) (from_start : start ≤ s) (before_end : s < cp) (room : n < cp - start)
    (before : k < n) where
  pub place_onto :
      s + suc k ≡ cp
      → (next_ring_block (place start cp s k) start (end - start) ≡ cp)
        × (next_ring_block cp start (end - start) ≡ place start cp s (suc k))
  unfolding next_ring_block
  place_onto e = (ground arith, ground arith)

  pub place_on :
      s + suc k ≢ cp
      → next_ring_block (place start cp s k) start (end - start) ≡ place start cp s (suc k)
  unfolding next_ring_block
  place_on e = ground arith
