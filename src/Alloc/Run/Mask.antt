-- ===== src/Alloc/Run/Mask.antt =====
-- The mask that `AllocMarkFreeRun` builds for each word.
use briefs_utils.Base.{ℕ, ◌+◌, ◌-◌, ◌*◌, ◌/◌, ◌%◌, ◌^◌, ◌≤◌, ◌<◌}
use briefs_utils.Base.{leb, ltb, ◌==◌, if◌then◌else◌, ◌≡◌, arith, ◌&&◌}
use briefs_utils.Base.{Bool-cases, inl, inr}
use briefs_utils.Base.Words.{u64}
use native.Mathlib.Nat.{one-le-pow}
use briefs_utils.Base.Bits.{
  pow-lt, and_not-le, bit_and-le, and_not, bit, bit-and_not, bit-bit_and, bit-mask_lt, bit-mask_ge,
}
use briefs_utils.Alloc.Builder.{all_ones}
use briefs_utils.Alloc.Run.{run_mask}

top_mask : (hi : ℕ) → hi < 64 → u64 (u64 (2 ^ (hi + 1)) + (2 ^ 64 - 1)) ≡ 2 ^ (hi + 1) - 1
top_mask hi h = elim (Bool-cases (hi == 63)) [
  | inl e ↦ let last : hi ≡ 63 = ground arith in rw last
  | inr e ↦ ground (arith, pow-lt (hi + 1) 64, one-le-pow (hi + 1) 2)
]

-- Bit `k` of the mask of word `w` is set exactly when block `64 * w + k` is in the run.
pub bit-run_mask :
    (first n w k : ℕ)
    → 0 < n
    → k < 64
    → first / 64 ≤ w
    → w ≤ (first + n - 1) / 64
    → bit k (run_mask first n w)
      ≡ (if leb first (64 * w + k) && ltb (64 * w + k) (first + n) then 1 else 0)
unfolding run_mask
bit-run_mask first n w k pos small lo hi = ground (
  arith,
  top_mask ((first + n - 1) % 64),
  bit-mask_lt k 64,
  bit-mask_lt k (first % 64),
  bit-mask_ge k (first % 64),
  bit-mask_lt k ((first + n - 1) % 64 + 1),
  bit-mask_ge k ((first + n - 1) % 64 + 1),
  bit-and_not k all_ones (2 ^ (first % 64) - 1),
  bit-bit_and k all_ones (2 ^ ((first + n - 1) % 64 + 1) - 1),
  bit-bit_and k (and_not all_ones (2 ^ (first % 64) - 1)) (2 ^ ((first + n - 1) % 64 + 1) - 1),
)

pub run_mask-lt : (first n w : ℕ) → run_mask first n w < 2 ^ 64
unfolding run_mask
run_mask-lt first n w = ground (
  arith,
  and_not-le all_ones (2 ^ (first % 64) - 1),
  bit_and-le all_ones (u64 (u64 (2 ^ ((first + n - 1) % 64 + 1)) + (2 ^ 64 - 1))),
  bit_and-le (and_not all_ones (2 ^ (first % 64) - 1))
      (u64 (u64 (2 ^ ((first + n - 1) % 64 + 1)) + (2 ^ 64 - 1))),
)
