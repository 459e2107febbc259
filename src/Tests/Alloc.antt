-- ===== src/Tests/Alloc.antt =====
-- A pool of 100 data blocks, built the way mkfs builds it.
use briefs_utils.Base.{
  List, [], ◌∷◌, ℕ, zero, suc, ◌<◌, ◌≡◌, refl, arith, if◌then◌else◌, ltb, ◌&&◌, some,
}
use briefs_utils.Alloc.{Alloc, alloc_mark_allocated, alloc_mark_free}
use briefs_utils.Alloc.Bitmap.{bit_at}
use briefs_utils.Alloc.Pyramid.{IsPyramid, count_free}
use briefs_utils.Base.Bits.{bit-zero}
use briefs_utils.Base.{◌/◌, ◌%◌, get_or, [], ◌∷◌}
use briefs_utils.Alloc.Refine.{Moves, mark_allocated-Moves, mark_free-Moves}
use briefs_utils.Alloc.Builder.{new_alloc_builder, new_data_alloc_builder, allocate_block}
use briefs_utils.Alloc.Fresh.{new_alloc_builder-IsPyramid, new_data_alloc_builder-IsPyramid}
use briefs_utils.Alloc.Search.{TakesLowest, allocate_block-TakesLowest}
use briefs_utils.Alloc.Run.{alloc_mark_free_run}
use briefs_utils.Alloc.Run.Refine.{RunFreed, mark_free_run-RunFreed}

abbrev pool : Alloc
pool = new_alloc_builder 100

pool-IsPyramid : IsPyramid pool
pool-IsPyramid = (new_alloc_builder-IsPyramid 100 (omega arith) (omega arith)).0

mark_allocated-Moves_example : Moves 0 pool 5 (alloc_mark_allocated pool 5)
mark_allocated-Moves_example = mark_allocated-Moves pool 5 pool-IsPyramid

mark_free-Moves_example : Moves 1 pool 70 (alloc_mark_free pool 70)
mark_free-Moves_example = mark_free-Moves pool 70 pool-IsPyramid

mark_free_run-RunFreed_example : RunFreed 60 10 pool (alloc_mark_free_run pool 60 10)
mark_free_run-RunFreed_example = mark_free_run-RunFreed pool 60 10 pool-IsPyramid

pool-free_count : 0 < pool.free_count
unfolding new_alloc_builder
pool-free_count = omega arith

allocate_block-TakesLowest_example : TakesLowest pool (allocate_block pool)
allocate_block-TakesLowest_example = allocate_block-TakesLowest pool pool-IsPyramid pool-free_count

new_data_alloc_builder-IsPyramid_example :
    (b : Alloc) × (new_data_alloc_builder 100 ≡ some b)
    × IsPyramid b
    × ((j : ℕ) → bit_at b.l2 j ≡ (if (ltb 0 j) && ltb j 100 then 1 else 0))
new_data_alloc_builder-IsPyramid_example =
    new_data_alloc_builder-IsPyramid 100 (omega arith) (omega arith)

-- A pool of one block, allocated.
abbrev full : Alloc
full = record { l0 = 0 ∷ []; l1 = 0 ∷ []; l2 = 0 ∷ []; block_count = 1; free_count = 0 }

abbrev empty_words : List ℕ
empty_words = 0 ∷ []

zero_word : (i : ℕ) → get_or empty_words i 0 ≡ 0
zero_word zero = refl
zero_word (suc i) = refl

zero_bit : (i : ℕ) → bit_at empty_words i ≡ 0
unfolding bit_at
zero_bit i = rw (zero_word (i / 64)) (bit-zero (i % 64))

full-IsPyramid : IsPyramid full
unfolding count_free
full-IsPyramid = record {
  words0 = λ i. omega (arith, zero_word i);
  words1 = λ i. omega (arith, zero_word i);
  words2 = λ i. omega (arith, zero_word i);
  fits0 = omega arith;
  fits1 = omega arith;
  fits2 = omega arith;
  summary0 = λ i. ground (arith, zero_word i, zero_bit i);
  summary1 = λ i. ground (arith, zero_word i, zero_bit i);
  tail = λ i h. zero_bit i;
  counted = omega (arith, zero_bit 0);
  bounded = omega arith;
}
