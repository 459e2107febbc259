-- ===== src/Alloc/Run/Merge.antt =====
-- A mask merged into one word of a level: the bits and the number of free blocks that result.
use briefs_utils.Base.{
  ℕ, zero, suc, ◌+◌, ◌-◌, ◌*◌, ◌/◌, ◌%◌, ◌≤◌, ◌<◌, min, max, bit_or, get_or, set, length,
}
use briefs_utils.Base.{◌==◌, if◌then◌else◌, ◌≡◌, arith, List}
use briefs_utils.Base.{Bool-cases, inl, inr, get_or-set, length-set, refl}
use briefs_utils.Base.Bits.{and_not, bit, bit-le, bit-and_not, bit-bit_or}
use briefs_utils.Alloc.Bitmap.{bit_at}
use briefs_utils.Alloc.Pyramid.{count_free}
use briefs_utils.Alloc.Run.{ones_count}

-- `l[w] |= m`
unfoldable pub merged : List ℕ → ℕ → ℕ → List ℕ
merged l w m = set l w (bit_or (get_or l w 0) m)

pub length-merged : (l : List ℕ) (w m : ℕ) → length (merged l w m) ≡ length l
unfolding merged
length-merged l w m = length-set l w _

module _ (l : List ℕ) (w m : ℕ) (inside : w < length l) where
  pub merged_bits :
      (j : ℕ)
      → bit_at (merged l w m) j
        ≡ (if w == j / 64 then max (bit_at l j) (bit (j % 64) m) else bit_at l j)
  unfolding bit_at merged
  merged_bits j = elim (Bool-cases (w == j / 64)) [
    | inl e ↦
        let same : w ≡ j / 64 = ground arith in
        rw (get_or-set l w (j / 64) (bit_or (get_or l w 0) m) 0 inside, e, same)
          (bit-bit_or (j % 64) (get_or l (j / 64) 0) m)
    | inr e ↦ rw (get_or-set l w (j / 64) (bit_or (get_or l w 0) m) 0 inside, e)
  ]

  merged_bit_step :
      (n : ℕ)
      → bit_at (merged l w m) n + ones_count (min 64 (n - 64 * w)) (and_not m (get_or l w 0))
        ≡ bit_at l n + ones_count (min 64 (suc n - 64 * w)) (and_not m (get_or l w 0))
  merged_bit_step n = elim (Bool-cases (w == n / 64)) [
    | inr other ↦
        let e : min 64 (suc n - 64 * w) ≡ min 64 (n - 64 * w) = ground arith in
        rw e (ground (arith, merged_bits n))
    | inl here ↦
        let e : min 64 (suc n - 64 * w) ≡ suc (n % 64) = ground arith in
        let e' : min 64 (n - 64 * w) ≡ n % 64 = ground arith in
        let same : w ≡ n / 64 = ground arith in
        rw (e, e')
          (unfold ones_count bit_at in
            ground (
              arith,
              merged_bits n,
              same,
              bit-and_not (n % 64) m (get_or l w 0),
              bit-le (n % 64) m,
              bit-le (n % 64) (get_or l w 0),
            ))
  ]

  -- The free blocks gained are the bits that the mask has and the word lacks.
  pub merged_count_below :
      (n : ℕ)
      → count_free n (merged l w m)
        ≡ count_free n l + ones_count (min 64 (n - 64 * w)) (and_not m (get_or l w 0))
  unfolding count_free
  merged_count_below zero =
      let e : min 64 (0 - 64 * w) ≡ 0 = omega arith in rw e (unfold ones_count in refl)
  merged_count_below (suc n) = omega (arith, merged_count_below n, merged_bit_step n)

  pub merged_word :
      (j : ℕ)
      → get_or (merged l w m) j 0 ≡ (if w == j then bit_or (get_or l w 0) m else get_or l j 0)
  unfolding merged
  merged_word j = get_or-set l w j _ 0 inside

pub ones_count-cut :
    (k n w : ℕ) → n ≤ k → ((j : ℕ) → n ≤ j → bit j w ≡ 0) → ones_count k w ≡ ones_count n w
unfolding ones_count
ones_count-cut zero n w h clear = let e : n ≡ 0 = omega arith in rw e
ones_count-cut (suc k) n w h clear = elim (Bool-cases (n == suc k)) [
  | inl e ↦ let same : n ≡ suc k = ground arith in rw same
  | inr e ↦ omega (arith, clear k (ground arith), ones_count-cut k n w (ground arith) clear)
]
