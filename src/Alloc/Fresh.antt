-- ===== src/Alloc/Fresh.antt =====
-- A fresh pool is well formed and has every block free.
use briefs_utils.Base.{
  ℕ, zero, suc, ◌+◌, ◌-◌, ◌*◌, ◌/◌, ◌%◌, ◌^◌, ◌≤◌, ◌<◌, get_or, length, replicate,
}
use briefs_utils.Base.{
  sym, ◌∙◌, ltb, ◌==◌, if◌then◌else◌, ◌≡◌, ◌≢◌, refl, arith, List, Bool-cases, inl, inr, some,
}
use briefs_utils.Base.{length-set, length-replicate, get_or-set, get_or-replicate, get_or-out}
use briefs_utils.Base.Bits.{bit-mask_lt, bit-mask_ge, bit-zero, pow-lt}
use briefs_utils.Base.{◌&&◌}
use briefs_utils.Alloc.{Alloc, alloc_mark_allocated}
use briefs_utils.Alloc.Bitmap.{bit_at, AreWords, Summarises, nonzero}
use briefs_utils.Alloc.Summary.{word-ne_zero}
use briefs_utils.Alloc.Pyramid.{IsPyramid, count_free}
use briefs_utils.Alloc.Refine.{Moves, mark_allocated-Moves}
use briefs_utils.Alloc.Builder.{
  LevelWords, all_ones, full_level, new_alloc_builder, alloc_level_words, new_data_alloc_builder,
  nb_blocks, alloc_pool_blocks, mark_allocated,
}

pub length-full_level : (words count : ℕ) → length (full_level words count) ≡ words
unfolding full_level
length-full_level words count = ground (
  arith,
  length-set (replicate words all_ones) (words - 1) (2 ^ (count % 64) - 1),
  length-replicate words all_ones,
)

module _ (words count : ℕ) (pos : 0 < count) (size : words ≡ (count + 63) / 64) where
  full_level_word :
      (i : ℕ)
      → i < words
      → get_or (full_level words count) i 0 ≡ (
          if count % 64 == 0
          then all_ones
          else if words - 1 == i
          then 2 ^ (count % 64) - 1
          else all_ones)
  unfolding full_level
  full_level_word i h = ground (
    arith,
    get_or-replicate words i all_ones 0 h,
    length-replicate words all_ones,
    get_or-set (replicate words all_ones) (words - 1) i (2 ^ (count % 64) - 1) 0,
  )

  full_level_out : (i : ℕ) → words ≤ i → get_or (full_level words count) i 0 ≡ 0
  full_level_out i h = get_or-out _ i 0 (omega (arith, length-full_level words count))

  pub full_level-AreWords : AreWords (full_level words count)
  full_level-AreWords i =
      ground (arith, full_level_word i, full_level_out i, pow-lt (count % 64) 64)

  -- The first `count` bits are set and no other.
  pub full_level_bits : (j : ℕ) → bit_at (full_level words count) j ≡ (if ltb j count then 1 else 0)
  unfolding bit_at
  full_level_bits j = ground (
    arith,
    full_level_word (j / 64),
    full_level_out (j / 64),
    bit-mask_lt (j % 64) 64,
    bit-mask_lt (j % 64) (count % 64),
    bit-mask_ge (j % 64) (count % 64),
    bit-zero (j % 64),
  )

  nonzero-full_level :
      (i : ℕ) → nonzero (get_or (full_level words count) i 0) ≡ (if ltb i words then 1 else 0)
  nonzero-full_level i = elim (Bool-cases (ltb i words)) [
    | inl e ↦
        let first : 64 * i < count = ground arith in
        let at_word : 64 * i / 64 ≡ i = omega arith in
        let filled : get_or (full_level words count) i 0 ≢ 0 = rw at_word at (
          word-ne_zero (full_level words count) (64 * i)
            (ground (arith, full_level_bits (64 * i)))) in
        ground arith
    | inr e ↦ ground (arith, full_level_out i)
  ]

count_free_all : (n : ℕ) (l : List ℕ) → ((j : ℕ) → j < n → bit_at l j ≡ 1) → count_free n l ≡ n
unfolding count_free
count_free_all zero l h = refl
count_free_all (suc n) l h =
    omega (arith, count_free_all n l (λ j p. h j (omega arith)), h n (omega arith))

full_level-Summarises :
    (upper words count : ℕ)
    → 0 < count
    → 0 < words
    → upper ≡ (words + 63) / 64
    → words ≡ (count + 63) / 64
    → Summarises (full_level upper words) (full_level words count)
full_level-Summarises upper words count p q eu ew i =
    full_level_bits upper words q eu i ∙ sym (nonzero-full_level words count p ew i)

-- For a positive count below 2 ^ 64 - 63 a new pool is well formed, with every tracked block free.
pub new_alloc_builder-IsPyramid :
    (count : ℕ)
    → 0 < count
    → count + 63 < 2 ^ 64
    → IsPyramid (new_alloc_builder count)
      × ((j : ℕ) → bit_at (new_alloc_builder count).l2 j ≡ (if ltb j count then 1 else 0))
unfolding new_alloc_builder
new_alloc_builder-IsPyramid count pos fits = (
  record {
    words0 = full_level-AreWords n.words0 n.words1 n1 n0_eq;
    words1 = full_level-AreWords n.words1 n.words2 n2 n1_eq;
    words2 = full_level-AreWords n.words2 count pos n2_eq;
    fits0 =
        omega
          (arith, n0_eq, length-full_level n.words0 n.words1, length-full_level n.words1 n.words2);
    fits1 =
        omega (arith, n1_eq, length-full_level n.words1 n.words2, length-full_level n.words2 count);
    fits2 = omega (arith, n2_eq, length-full_level n.words2 count);
    summary0 = full_level-Summarises n.words0 n.words1 n.words2 n2 n1 n0_eq n1_eq;
    summary1 = full_level-Summarises n.words1 n.words2 count pos n2 n1_eq n2_eq;
    tail = λ j p. ground (arith, full_level_bits n.words2 count pos n2_eq j);
    counted = sym (
        count_free_all count _ (λ j p. ground (arith, full_level_bits n.words2 count pos n2_eq j)));
    bounded = omega arith;
  },
  full_level_bits n.words2 count pos n2_eq,
)
  where
    n : LevelWords
    n = alloc_level_words count

    n2_eq : n.words2 ≡ (count + 63) / 64
    n2_eq = unfold alloc_level_words in ground arith

    n2 : 0 < n.words2
    n2 = omega (arith, n2_eq)

    n1_eq : n.words1 ≡ (n.words2 + 63) / 64
    n1_eq = unfold alloc_level_words in ground arith

    n1 : 0 < n.words1
    n1 = omega (arith, n1_eq, n2)

    n0_eq : n.words0 ≡ (n.words1 + 63) / 64
    n0_eq = unfold alloc_level_words in ground arith

-- For a positive count below 2 ^ 64 - 63 the data pool is well formed, with every block free but
-- block 0.
pub new_data_alloc_builder-IsPyramid :
    (count : ℕ)
    → 0 < count
    → count + 63 < 2 ^ 64
    → (b : Alloc) × (new_data_alloc_builder count ≡ some b)
      × IsPyramid b
      × ((j : ℕ) → bit_at b.l2 j ≡ (if (ltb 0 j) && ltb j count then 1 else 0))
unfolding new_data_alloc_builder mark_allocated
new_data_alloc_builder-IsPyramid count pos fits =
    (m.after, ground (arith, m.returns), m.sound, λ j. ground (arith, m.bits j, fresh.1 j, size))
  where
    fresh :
        IsPyramid (new_alloc_builder count)
        × ((j : ℕ) → bit_at (new_alloc_builder count).l2 j ≡ (if ltb j count then 1 else 0))
    fresh = new_alloc_builder-IsPyramid count pos fits

    m : Moves 0 (new_alloc_builder count) 0 (alloc_mark_allocated (new_alloc_builder count) 0)
    m = mark_allocated-Moves (new_alloc_builder count) 0 fresh.0

    size : (new_alloc_builder count).block_count ≡ count
    size = unfold new_alloc_builder in refl

-- The pool of a new builder has exactly the blocks that AllocPoolBlocks computes from the block
-- count alone.
pub nb_blocks-new_alloc_builder :
    (count : ℕ) → nb_blocks (new_alloc_builder count) ≡ alloc_pool_blocks count
unfolding nb_blocks alloc_pool_blocks new_alloc_builder
nb_blocks-new_alloc_builder count =
    let n = alloc_level_words count in
    rw
      (
        length-full_level n.words0 n.words1,
        length-full_level n.words1 n.words2,
        length-full_level n.words2 count,
      )
      refl
