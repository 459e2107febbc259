-- ===== src/Journal/Writer/Places.antt =====
-- The usable blocks of the journal's ring, in the order in which the writer of
-- briefs/journal_write.go takes them: from `s` up to the checkpoint block, and on from the start.
use native.Mathlib.Nat.{mul-le-mul_right}
use briefs_utils.Base.{ℕ, zero, suc, ◌+◌, ◌-◌, ◌*◌, ◌^◌, ◌≤◌, ◌<◌, ◌==◌, ltb, ◌≢◌}
use briefs_utils.Base.{if◌then◌else◌, List, [], ◌∷◌, ◌≡◌, arith}
use briefs_utils.Base.Words.{u64}
use briefs_utils.Base.Bytes.{All}
use briefs_utils.Journal.Ring.{next_ring_block}

-- The k-th usable block from `s` on, with `cp` the checkpoint block at the end.
abbrev pub place : ℕ → ℕ → ℕ → ℕ → ℕ
place start cp s k = if ltb (s + k) cp then s + k else s + k - (cp - start)

module _ (start cp s : ℕ) (usable : start < cp) (small : cp + 1 < 2 ^ 64) (in_ring : start ≤ s)
    (before : s < cp) where
  pub place-range :
      (k : ℕ) → k ≤ cp - start → (start ≤ place start cp s k) × (place start cp s k < cp)
  place-range k h = ground arith

  -- One block on, over the checkpoint block.
  pub place-next :
      (end k : ℕ)
      → cp + 1 ≡ end
      → k < cp - start
      → (let next = next_ring_block (place start cp s k) start (end - start) in
          if next == cp then next_ring_block next start (end - start) else next)
        ≡ place start cp s (suc k)
  unfolding next_ring_block
  place-next end k e h = ground arith

  pub place-zero : place start cp s 0 ≡ s
  place-zero = ground arith

  pub place-wraps : place start cp s (cp - start) ≡ s
  place-wraps = ground arith

  pub place-inj : (i k : ℕ) → i < k → k < cp - start → place start cp s i ≢ place start cp s k
  place-inj i k h l e = ground arith

  pub place-ne_start : (k : ℕ) → 0 < k → k < cp - start → place start cp s k ≢ s
  place-ne_start k h l e = ground arith

step_up : (size a b : ℕ) → a < b → a * size + size ≤ b * size
step_up size a b h =
    let next : (a + 1) * size ≡ a * size + size = omega arith in
    omega (arith, next, mul-le-mul_right {m = a + 1} {n = b} size (omega arith))

-- Two blocks of a device do not start at the same byte.
pub offset-ne :
    (size limit a b : ℕ)
    → 0 < size
    → limit * size ≤ 2 ^ 64
    → a < limit
    → b < limit
    → a ≢ b
    → u64 (a * size) ≢ u64 (b * size)
offset-ne size limit a b pos fits ha hb ne e =
    ground
      (arith, step_up size a limit ha, step_up size b limit hb, step_up size a b, step_up size b a)

-- The bytes at which the first `n` usable blocks from `s` on start, the last one first.
abbrev pub offsets : ℕ → ℕ → ℕ → ℕ → ℕ → List ℕ
offsets start cp size s zero = []
offsets start cp size s (suc n) = u64 (place start cp s n * size) ∷ offsets start cp size s n

-- No two are equal.
abbrev pub AllDistinct : List ℕ → Type 0
AllDistinct [] = Unit {0}
AllDistinct (x ∷ xs) = All (λ y. y ≢ x) xs × AllDistinct xs

module _ (start cp size s : ℕ) (usable : start < cp) (small : cp + 1 < 2 ^ 64) (pos : 0 < size)
    (fits : (cp + 1) * size ≤ 2 ^ 64) (in_ring : start ≤ s) (before : s < cp) where
  offsets-ne :
      (n k : ℕ)
      → n ≤ k
      → k < cp - start
      → All (λ y. y ≢ u64 (place start cp s k * size)) (offsets start cp size s n)
  offsets-ne zero k h l = tt
  offsets-ne (suc n) k h l =
      let a = place-range start cp s usable small in_ring before n (omega arith) in
      let b = place-range start cp s usable small in_ring before k (omega arith) in
      (
        offset-ne size (cp + 1) (place start cp s n) (place start cp s k) pos fits
            (omega (arith, a)) (omega (arith, b))
            (place-inj start cp s usable small in_ring before n k (omega arith) l),
        offsets-ne n k (omega arith) l,
      )

  pub offsets-AllDistinct : (n : ℕ) → n ≤ cp - start → AllDistinct (offsets start cp size s n)
  offsets-AllDistinct zero h = tt
  offsets-AllDistinct (suc n) h =
      (offsets-ne n n (omega arith) (omega arith), offsets-AllDistinct n (omega arith))
