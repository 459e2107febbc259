-- ===== src/Alloc/Summary.antt =====
-- A summary level stays true to the level below it when a bit below is cleared or set and the
-- summary bit follows as the code has it.
use briefs_utils.Base.{ℕ, ◌/◌, ◌%◌, ◌^◌, ◌<◌}
use briefs_utils.Base.{◌==◌, if◌then◌else◌, get_or, length, length-set}
use briefs_utils.Base.{◌≡◌, ◌≢◌, ◌↔◌, ap, arith, List, bit_or, Bool-cases, inl, inr}
use briefs_utils.Base.Bits.{bit, bit-zero, bit-ne_zero, eq_of_bits, and_not-lt, bit_or-lt, pow-lt}
use briefs_utils.Base.Bits.{bit-bit_or, bit-pow_ne}
use briefs_utils.Alloc.Bitmap.{bit_at, AreWords, Summarises, bit-raise}
use briefs_utils.Alloc.Level.{
  cleared, raised, get_or-cleared, get_or-raised, bit_at-cleared, bit_at-raised,
}

-- The level over `low` after bit `i` of `low` is cleared.
unfoldable pub lowered : List ℕ → List ℕ → ℕ → List ℕ
lowered up low i = if get_or (cleared low i) (i / 64) 0 == 0 then cleared up (i / 64) else up

-- The level over `low` after bit `i` of `low` is set.
unfoldable pub lifted : List ℕ → List ℕ → ℕ → List ℕ
lifted up low i = if get_or low (i / 64) 0 == 0 then raised up (i / 64) else up

pub word-ne_zero : (l : List ℕ) (i : ℕ) → bit_at l i ≡ 1 → get_or l (i / 64) 0 ≢ 0
unfolding bit_at
word-ne_zero l i h = bit-ne_zero (i % 64) _ h

pub length-cleared : (l : List ℕ) (i : ℕ) → length (cleared l i) ≡ length l
unfolding cleared
length-cleared l i = length-set l (i / 64) _

pub length-raised : (l : List ℕ) (i : ℕ) → length (raised l i) ≡ length l
unfolding raised
length-raised l i = length-set l (i / 64) _

-- After `w |= 1 << k` on a clear bit, the word is `1 << k` exactly when it was 0.
pub bit_or-pow_iff : (k w : ℕ) → bit k w ≡ 0 → (bit_or w (2 ^ k) ≡ 2 ^ k) ↔ (w ≡ 0)
bit_or-pow_iff k w clear = (
  (λ e. eq_of_bits w 0 λ j. elim (Bool-cases (k == j)) [
    | inl same ↦ let s : k ≡ j = ground arith in rw (← s, clear, bit-zero)
    | inr other ↦
        omega
          (arith, bit-bit_or j w (2 ^ k), bit-pow_ne j k (ground arith), ap (bit j) e, bit-zero j)
  ]),
  (λ e. rw e (eq_of_bits _ _ λ j. omega (arith, bit-bit_or j 0 (2 ^ k), bit-zero j))),
)

module _ (l : List ℕ) (i : ℕ) (inside : i / 64 < length l) (words : AreWords l) where
  pub cleared-AreWords : AreWords (cleared l i)
  cleared-AreWords j = rw (get_or-cleared l i inside j) (elim (Bool-cases (i / 64 == j)) [
    | inl e ↦ rw e (and_not-lt 64 _ _ (words (i / 64)))
    | inr e ↦ rw e (words j)
  ])

  pub raised-AreWords : AreWords (raised l i)
  raised-AreWords j = rw (get_or-raised l i inside j) (elim (Bool-cases (i / 64 == j)) [
    | inl e ↦ rw e (bit_or-lt 64 _ _ (words (i / 64)) (pow-lt (i % 64) 64 (omega arith)))
    | inr e ↦ rw e (words j)
  ])

module _ (up low : List ℕ) (i : ℕ) (below : i / 64 < length low) (above : i / 64 / 64 < length up)
    (summary : Summarises up low) where
  pub lowered-Summarises : bit_at low i ≡ 1 → Summarises (lowered up low i) (cleared low i)
  unfolding lowered
  lowered-Summarises old j = ground (
    arith,
    summary j,
    word-ne_zero low i old,
    bit_at-cleared up (i / 64) above j,
    get_or-cleared low i below j,
    get_or-cleared low i below (i / 64),
  )

  pub lifted-Summarises : Summarises (lifted up low i) (raised low i)
  unfolding lifted
  lifted-Summarises j = ground (
    arith,
    summary j,
    raised_word,
    bit_at-raised up (i / 64) above j,
    get_or-raised low i below j,
  )
    where
      raised_word : bit_or (get_or low (i / 64) 0) (2 ^ (i % 64)) ≢ 0
      raised_word = bit-ne_zero (i % 64) _ (rw bit-raise (ground arith))

module _ (up low : List ℕ) (i : ℕ) (above : i / 64 / 64 < length up) where
  pub lowered-AreWords : AreWords up → AreWords (lowered up low i)
  unfolding lowered
  lowered-AreWords words = elim (Bool-cases (get_or (cleared low i) (i / 64) 0 == 0)) [
    | inl e ↦ rw e (cleared-AreWords up (i / 64) above words)
    | inr e ↦ rw e words
  ]

  pub lifted-AreWords : AreWords up → AreWords (lifted up low i)
  unfolding lifted
  lifted-AreWords words = elim (Bool-cases (get_or low (i / 64) 0 == 0)) [
    | inl e ↦ rw e (raised-AreWords up (i / 64) above words)
    | inr e ↦ rw e words
  ]

pub length-lowered : (up low : List ℕ) (i : ℕ) → length (lowered up low i) ≡ length up
unfolding lowered
length-lowered up low i = ground (arith, length-cleared up (i / 64))

pub length-lifted : (up low : List ℕ) (i : ℕ) → length (lifted up low i) ≡ length up
unfolding lifted
length-lifted up low i = ground (arith, length-raised up (i / 64))

-- The top level after bit `i` of the lowest of three levels is cleared or set.
unfoldable pub lowered_top : List ℕ → List ℕ → List ℕ → ℕ → List ℕ
lowered_top up mid low i =
    if get_or (cleared low i) (i / 64) 0 == 0 then lowered up mid (i / 64) else up

unfoldable pub lifted_top : List ℕ → List ℕ → List ℕ → ℕ → List ℕ
lifted_top up mid low i = if get_or low (i / 64) 0 == 0 then lifted up mid (i / 64) else up

module _ (up mid low : List ℕ) (i : ℕ) (there : i / 64 / 64 < length mid)
    (above : i / 64 / 64 / 64 < length up) where
  pub lowered_top-AreWords : AreWords up → AreWords (lowered_top up mid low i)
  unfolding lowered_top
  lowered_top-AreWords words = elim (Bool-cases (get_or (cleared low i) (i / 64) 0 == 0)) [
    | inl e ↦ rw e (lowered-AreWords up mid (i / 64) above words)
    | inr e ↦ rw e words
  ]

  pub lifted_top-AreWords : AreWords up → AreWords (lifted_top up mid low i)
  unfolding lifted_top
  lifted_top-AreWords words = elim (Bool-cases (get_or low (i / 64) 0 == 0)) [
    | inl e ↦ rw e (lifted-AreWords up mid (i / 64) above words)
    | inr e ↦ rw e words
  ]

  pub lowered_top-Summarises :
      Summarises up mid
      → Summarises mid low
      → bit_at low i ≡ 1
      → Summarises (lowered_top up mid low i) (lowered mid low i)
  unfolding lowered_top lowered
  lowered_top-Summarises su sm old = elim (Bool-cases (get_or (cleared low i) (i / 64) 0 == 0)) [
    | inl e ↦
        let set_before : bit_at mid (i / 64) ≡ 1 =
          ground (arith, sm (i / 64), word-ne_zero low i old) in
        rw e (lowered-Summarises up mid (i / 64) there above su set_before)
    | inr e ↦ rw e su
  ]

  pub lifted_top-Summarises :
      Summarises up mid → Summarises (lifted_top up mid low i) (lifted mid low i)
  unfolding lifted_top lifted
  lifted_top-Summarises su = elim (Bool-cases (get_or low (i / 64) 0 == 0)) [
    | inl e ↦ rw e (lifted-Summarises up mid (i / 64) there above su)
    | inr e ↦ rw e su
  ]

pub length-lowered_top :
    (up mid low : List ℕ) (i : ℕ) → length (lowered_top up mid low i) ≡ length up
unfolding lowered_top
length-lowered_top up mid low i = ground (arith, length-lowered up mid (i / 64))

pub length-lifted_top : (up mid low : List ℕ) (i : ℕ) → length (lifted_top up mid low i) ≡ length up
unfolding lifted_top
length-lifted_top up mid low i = ground (arith, length-lifted up mid (i / 64))
