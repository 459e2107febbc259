-- ===== src/Alloc/First.antt =====
-- The lowest set bit of a level, found by descending from the summary over it.
use briefs_utils.Base.{ℕ, zero, suc, ◌+◌, ◌*◌, ◌/◌, ◌%◌, ◌^◌, ◌<◌, ◌==◌}
use briefs_utils.Base.{◌≡◌, ◌≢◌, arith, List, length, get_or, get_or-out, Bool-cases, inl, inr}
use briefs_utils.Base.{true, false, ◌⊎◌}
use native.Mathlib.Nat.{pow-suc}
use native.Mathlib.Numerals.{add-one}
use briefs_utils.Base.Bits.{bit, bit-zero}
use briefs_utils.Alloc.Bitmap.{bit_at, AreWords, Summarises}
use briefs_utils.Alloc.Builder.{trailing_zeros}

-- `bits.TrailingZeros64` of a word that is not 0 is its lowest set bit.
pub trailing_zeros-first :
    (k w : ℕ)
    → w < 2 ^ k
    → w ≢ 0
    → (trailing_zeros k w < k)
      × (bit (trailing_zeros k w) w ≡ 1)
      × ((j : ℕ) → j < trailing_zeros k w → bit j w ≡ 0)
unfolding trailing_zeros bit
trailing_zeros-first zero w h n = absurd (omega arith)
trailing_zeros-first (suc k) w h n = elim (Bool-cases (w % 2 == 1)) [
  | inl odd ↦ rw odd (omega arith, ground arith, λ j p. absurd (omega arith))
  | inr even ↦
      let ih = trailing_zeros-first k (w / 2) (omega (arith, pow-suc 2 k)) (ground arith) in
      rw (even, add-one) (omega (arith, ih.0), ih.1, lower even ih.2)
]
  where
    lower :
        {t : ℕ}
        → (w % 2 == 1) ≡ false
        → ((j : ℕ) → j < t → bit j (w / 2) ≡ 0)
        → (j : ℕ) → j < suc t
        → bit j w ≡ 0
    lower even h zero p = ground arith
    lower even h (suc j) p = h j (omega arith)

pub record IsFirst (l : List ℕ) (i : ℕ) : Type 0 where
  pub is_set : bit_at l i ≡ 1
  pub lowest : (j : ℕ) → j < i → bit_at l j ≡ 0

pub IsFirst-in_word :
    (l : List ℕ) (i : ℕ)
    → AreWords l
    → ((j : ℕ) → j < i → get_or l j 0 ≡ 0)
    → get_or l i 0 ≢ 0
    → IsFirst l (i * 64 + trailing_zeros 64 (get_or l i 0))
unfolding bit_at
IsFirst-in_word l i words before here = record {
  is_set = unfold bit_at in rw (word_of, bit_of) tz.1;
  lowest = λ j p. unfold bit_at in below j p (Bool-cases (j / 64 == i));
}
  where
    t : ℕ
    t = trailing_zeros 64 (get_or l i 0)

    tz : (t < 64) × (bit t (get_or l i 0) ≡ 1) × ((j : ℕ) → j < t → bit j (get_or l i 0) ≡ 0)
    tz = trailing_zeros-first 64 (get_or l i 0) (words i) here

    word_of : (i * 64 + t) / 64 ≡ i
    word_of = omega (arith, tz.0)

    bit_of : (i * 64 + t) % 64 ≡ t
    bit_of = omega (arith, tz.0)

    below :
        (j : ℕ)
        → j < i * 64 + t
        → (((j / 64 == i) ≡ true) ⊎ ((j / 64 == i) ≡ false))
        → bit (j % 64) (get_or l (j / 64) 0) ≡ 0
    below j p (inl e) =
        let same : j / 64 ≡ i = ground arith in rw same (tz.2 (j % 64) (omega arith))
    below j p (inr e) =
        let less : j / 64 < i = ground (arith, tz.0) in rw (before (j / 64) less) (bit-zero _)

-- The first word that the summary names has the first bit of the level below.
pub IsFirst-below :
    (up low : List ℕ) (i : ℕ)
    → AreWords low
    → Summarises up low
    → IsFirst up i
    → (i < length low)
      × (get_or low i 0 ≢ 0)
      × IsFirst low (i * 64 + trailing_zeros 64 (get_or low i 0))
IsFirst-below up low i words summary first =
    (ground (arith, get_or-out low i 0, here), here, IsFirst-in_word low i words before here)
  where
    here : get_or low i 0 ≢ 0
    here = ground (arith, summary i, first.is_set)

    before : (j : ℕ) → j < i → get_or low j 0 ≡ 0
    before j p = ground (arith, summary j, first.lowest j p)
