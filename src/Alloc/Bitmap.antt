-- ===== src/Alloc/Bitmap.antt =====
-- Levels of the pyramid as sequences of bits, and what clearing or setting one bit does to a level
-- and to the summary over it.
use briefs_utils.Base.{ℕ, ◌/◌, ◌%◌, ◌^◌, ◌<◌}
use briefs_utils.Base.{◌==◌, if◌then◌else◌, get_or}
use briefs_utils.Base.{◌≡◌, ◌≢◌, ap, arith, List, bit_and, bit_or, Bool-cases, inl, inr}
use briefs_utils.Base.Bits.{and_not, bit, bit-le, bit-zero, bit-bit_or, bit-bit_and, bit-and_not}
use briefs_utils.Base.Bits.{eq_of_bits, bit-pow_self, bit-pow_ne}

-- Bit `i` of a level.
unfoldable pub bit_at : List ℕ → ℕ → ℕ
bit_at l i = bit (i % 64) (get_or l (i / 64) 0)

abbrev pub nonzero : ℕ → ℕ
nonzero w = if w == 0 then 0 else 1

-- Every word of a level is a 64-bit word.
abbrev pub AreWords : List ℕ → Type 0
AreWords l = (i : ℕ) → get_or l i 0 < 2 ^ 64

-- Level `up` says which words of level `low` are not 0.
abbrev pub Summarises : List ℕ → List ℕ → Type 0
Summarises up low = (i : ℕ) → bit_at up i ≡ nonzero (get_or low i 0)

pub bit-clear : (j k w : ℕ) → bit j (and_not w (2 ^ k)) ≡ (if k == j then 0 else bit j w)
bit-clear j k w = elim (Bool-cases (k == j)) [
  | inl e ↦
      let same : k ≡ j = ground arith in
      rw (e, same) (omega (arith, bit-and_not j w (2 ^ j), bit-pow_self j, bit-le j w))
  | inr e ↦ rw e (omega (arith, bit-and_not j w (2 ^ k), bit-pow_ne j k (ground arith)))
]

pub bit-raise : (j k w : ℕ) → bit j (bit_or w (2 ^ k)) ≡ (if k == j then 1 else bit j w)
bit-raise j k w = elim (Bool-cases (k == j)) [
  | inl e ↦
      let same : k ≡ j = ground arith in
      rw (e, same) (omega (arith, bit-bit_or j w (2 ^ j), bit-pow_self j, bit-le j w))
  | inr e ↦ rw e (omega (arith, bit-bit_or j w (2 ^ k), bit-pow_ne j k (ground arith)))
]

-- Go's bit test reads the bit.
pub bit_and-pow_zero : (k w : ℕ) → bit k w ≡ 0 → bit_and w (2 ^ k) ≡ 0
bit_and-pow_zero k w h = eq_of_bits _ 0 λ j. elim (Bool-cases (k == j)) [
  | inl e ↦
      let same : k ≡ j = ground arith in
      rw (← same) (omega (arith, h, bit-bit_and k w (2 ^ k), bit-zero k))
  | inr e ↦ omega (arith, bit-bit_and j w (2 ^ k), bit-pow_ne j k (ground arith), bit-zero j)
]

pub bit_and-pow_one : (k w : ℕ) → bit k w ≡ 1 → bit_and w (2 ^ k) ≢ 0
bit_and-pow_one k w h e =
    omega (arith, h, bit-bit_and k w (2 ^ k), bit-pow_self k, bit-zero k, ap (bit k) e)
