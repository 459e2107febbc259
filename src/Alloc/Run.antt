-- ===== src/Alloc/Run.antt =====
-- `AllocMarkFreeRun` of briefs/allocator_core.go: a run of blocks freed word by word.
pub mod Mask
pub mod Merge
pub mod Enter
pub mod Step
pub mod Refine
use briefs_utils.Base.{
  ℕ, zero, suc, ◌+◌, ◌-◌, ◌*◌, ◌/◌, ◌%◌, ◌^◌, bit_or, bit_and, get_elem?, set, length,
}
use briefs_utils.Base.{leb, ltb, ◌==◌, if◌then◌else◌, ◌>>=◌, Bool, Option, some, List, ◌||◌}
use briefs_utils.Base.Words.{u64}
use briefs_utils.Base.Bits.{and_not, bit}
use briefs_utils.Alloc.{Alloc}
use briefs_utils.Alloc.Builder.{all_ones}

-- `bits.OnesCount64` over the first `k` bits.
unfoldable pub ones_count : ℕ → ℕ → ℕ
ones_count zero w = 0
ones_count (suc k) w = ones_count k w + bit k w

-- The mask of word `w` for the run [first, first+n): `1 << (hi+1)` wraps to 0 at hi = 63, and the
-- subtraction then wraps to all ones.
unfoldable pub run_mask : ℕ → ℕ → ℕ → ℕ
run_mask first n w =
    let last = first + n - 1 in
    let low = if w == first / 64 then and_not all_ones (2 ^ (first % 64) - 1) else all_ones in
    if w == last / 64 then bit_and low (u64 (u64 (2 ^ (last % 64 + 1)) + (2 ^ 64 - 1))) else low

-- Word `w` goes from empty to non-empty: the summaries above it.
unfoldable pub enter_word : Alloc → ℕ → Option Alloc
enter_word a w = do
  s1 ← get_elem? a.l1 (w / 64)
  let a' = record a { l1 = set a.l1 (w / 64) (bit_or s1 (2 ^ (w % 64))) }
  let both = (do
    s0 ← get_elem? a.l0 (w / 64 / 64)
    some (record a' { l0 = set a.l0 (w / 64 / 64) (bit_or s0 (2 ^ (w / 64 % 64))) }))
  if s1 == 0 then both else some a'

-- The body of the loop for word `w`; `freed` is the count so far.
unfoldable pub free_word : ℕ → ℕ → ℕ → Alloc × ℕ → Option (Alloc × ℕ)
free_word first n w (a, freed) = do
  x ← get_elem? a.l2 w
  let mask = run_mask first n w
  let added = and_not mask x
  let count = ones_count 64 added
  let entered = enter_word a w
  let grown = (do
    a' ← if x == 0 then entered else some a
    some (
      record a' { l2 = set a'.l2 w (bit_or x mask); free_count = u64 (a'.free_count + count) },
      u64 (freed + count),
    ))
  if added == 0 then some (a, freed) else grown

-- `for w := wStart; w <= wEnd; w++` with the number of words left.
unfoldable pub free_words : ℕ → ℕ → ℕ → ℕ → Alloc × ℕ → Option (Alloc × ℕ)
free_words first n zero w s = some s
free_words first n (suc left) w s = do
  s' ← free_word first n w s
  free_words first n left (w + 1) s'

unfoldable pub alloc_mark_free_run : Alloc → ℕ → ℕ → Option (Alloc × ℕ)
alloc_mark_free_run a first n =
    let m = if ltb (a.block_count - first) n then a.block_count - first else n in
    let loop = free_words first m ((first + m - 1) / 64 + 1 - first / 64) (first / 64) (a, 0) in
    if (n == 0) || leb a.block_count first then some (a, 0) else loop
