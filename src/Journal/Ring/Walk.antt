-- ===== src/Journal/Ring/Walk.antt =====
-- Which blocks a walk of the journal visits, and in which order: briefs/journal_replay.go.
use briefs_utils.Base.{ℕ, zero, suc, ◌+◌, ◌-◌, ◌<◌, ◌≤◌, ◌^◌, ◌==◌, ltb, if◌then◌else◌}
use briefs_utils.Base.{
  true, false, Option, some, List, ◌≡◌, refl, arith, Bool-cases, inl, inr, ◌∙◌, Bool, ◌||◌,
}
use briefs_utils.Journal.Ring.{
  next_ring_block, is_journal_block, walked, walk_from, walk_journal_ring,
}

-- The block `i` places after `start` in the ring of `n` blocks from `offset` on.
abbrev pub place : ℕ → ℕ → ℕ → ℕ → ℕ
place offset n start i = if ltb (start + i) (offset + n) then start + i else start + i - n

abbrev pub InRing : ℕ → ℕ → ℕ → Type 0
InRing offset n b = (offset ≤ b) × (b < offset + n)

-- How many blocks lie from `start` up to `end`; a ring that starts where it ends counts one.
abbrev pub span : ℕ → ℕ → ℕ → ℕ
span n start end =
    if start == end then 1 else if ltb start end then end - start else end + n - start

-- The next block stays in the ring and is the next place.
pub next_ring_block-place :
    (offset n start i : ℕ)
    → offset + n < 2 ^ 64
    → InRing offset n start
    → i < n
    → (next_ring_block (place offset n start i) offset n ≡ place offset n start (i + 1))
      × InRing offset n (next_ring_block (place offset n start i) offset n)
unfolding next_ring_block
next_ring_block-place offset n start i fits h k = (ground arith, ground arith)

stops {ℓ} :
    {A : Type ℓ} (b c : Bool) (x y : A)
    → (b || c) ≡ true
    → (if b then x else if c then x else y) ≡ x
stops true c x y h = refl
stops false true x y h = refl
stops false false x y h = cc

goes_on {ℓ} :
    {A : Type ℓ} (b c : Bool) (x y : A)
    → (b || c) ≡ false
    → (if b then x else if c then x else y) ≡ y
goes_on true c x y h = cc
goes_on false true x y h = cc
goes_on false false x y h = refl

module _ {ℓ} {S : Type ℓ} (read_block : ℕ → Option (List ℕ)) (offset n start end : ℕ)
    (visit : ℕ → List ℕ → S → Option S) (content : ℕ → List ℕ) (act : ℕ → S → S) where
  -- The visitor's effect on the `k` blocks from place `i` on, in order.
  unfoldable pub visits : ℕ → ℕ → S → S
  visits i zero s = s
  visits i (suc k) s = visits (i + 1) k (act (place offset n start i) s)

  module _ (fits : offset + n < 2 ^ 64) (starts : InRing offset n start)
      (ends : InRing offset n end)
      (reads : (b : ℕ) → InRing offset n b → read_block b ≡ some (content b))
      (headed : (b : ℕ) → InRing offset n b → is_journal_block (content b) ≡ true)
      (acts : (b : ℕ) (s : S) → InRing offset n b → visit b (content b) s ≡ some (act b s)) where
    round :
        (iters i : ℕ) (s : S)
        → i < n
        → walk_from read_block offset n start end visit (suc iters) (place offset n start i) s ≡ (
            let s' = act (place offset n start i) s in
            if start == end
            then walked s'
            else if place offset n start (i + 1) == end
            then walked s'
            else walk_from read_block offset n start end visit iters
                (place offset n start (i + 1))
                s')
    unfolding walk_from
    round iters i s h =
        let here : InRing offset n (place offset n start i) = ground arith in
        cc (
          reads (place offset n start i) here,
          headed (place offset n start i) here,
          acts (place offset n start i) s here,
          (next_ring_block-place offset n start i fits starts h).0,
        )

    walk_from-visits :
        (iters i k : ℕ) (s : S)
        → 0 < k
        → k ≤ iters
        → i + k ≡ span n start end
        → walk_from read_block offset n start end visit iters (place offset n start i) s
          ≡ walked (visits i k s)
    unfolding visits
    walk_from-visits iters i zero s p q e = absurd (omega arith)
    walk_from-visits zero i (suc k) s p q e = absurd (omega arith)
    walk_from-visits (suc iters) i (suc k) s p q e = elim (Bool-cases (k == 0)) [
      | inl last ↦
          let only : k ≡ 0 = ground arith in
          round iters i s (ground arith)
          ∙ stops (start == end) (place offset n start (i + 1) == end) _ _ (ground arith)
          ∙ rw only refl
      | inr more ↦
          round iters i s (ground arith)
          ∙ goes_on (start == end) (place offset n start (i + 1) == end) _ _ (ground arith)
          ∙ walk_from-visits iters (i + 1) k _ (ground arith) (omega arith) (omega arith)
    ]

    -- With readable blocks, journal magics and a visitor that does not fail, all over a ring that
    -- ends below 2 ^ 64, WalkJournalRing visits the blocks from start up to end, each once, in ring
    -- order and never more than the ring has, and one block when it starts where it ends.
    pub walk_journal_ring-visits :
        (s : S)
        → (walk_journal_ring read_block offset n start end visit s
            ≡ walked (visits 0 (span n start end) s))
          × (span n start end ≤ n)
    unfolding walk_journal_ring
    walk_journal_ring-visits s =
        let first : place offset n start 0 ≡ start = ground arith in
        (
          rw first at (
              walk_from-visits n 0 (span n start end) s (ground arith) (ground arith)
                (omega arith)),
          ground arith,
        )
