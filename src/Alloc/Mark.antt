-- ===== src/Alloc/Mark.antt =====
-- What `AllocMarkAllocated` and `AllocMarkFree` do to a well-formed pyramid.
use briefs_utils.Base.{ℕ, ◌+◌, ◌-◌, ◌/◌, ◌%◌, ◌<◌, ◌==◌, if◌then◌else◌}
use briefs_utils.Base.{◌≡◌, arith, length, get_or, some, true, false, get_elem?-eq-get_or}
use briefs_utils.Alloc.{Alloc, clear_summary, set_summary, alloc_mark_allocated, alloc_mark_free}
use briefs_utils.Alloc.Bitmap.{bit_at, bit_and-pow_zero, bit_and-pow_one}
use briefs_utils.Alloc.Level.{
  cleared, raised, clear_bit_lem, set_bit_lem, get_or-raised, bit_at-cleared, bit_at-raised,
}
use briefs_utils.Alloc.Summary.{
  lowered, lifted, lowered_top, lifted_top, length-lowered, length-lifted, length-lowered_top,
  length-lifted_top, lowered-AreWords, lifted-AreWords, lowered_top-AreWords, lifted_top-AreWords,
  lowered_top-Summarises, lifted_top-Summarises, length-cleared, length-raised, bit_or-pow_iff,
}
use briefs_utils.Alloc.Summary.{
  cleared-AreWords, raised-AreWords, lowered-Summarises, lifted-Summarises,
}
use briefs_utils.Alloc.Pyramid.{
  IsPyramid, count_free-le, count_free-change, count_free-pos, count_free-room,
}

-- The pyramid after a free block is taken.
unfoldable pub taken : Alloc → ℕ → Alloc
taken a rel = record {
  l0 = lowered_top a.l0 a.l1 a.l2 rel;
  l1 = lowered a.l1 a.l2 rel;
  l2 = cleared a.l2 rel;
  block_count = a.block_count;
  free_count = a.free_count - 1;
}

unfoldable pub freed : Alloc → ℕ → Alloc
freed a rel = record {
  l0 = lifted_top a.l0 a.l1 a.l2 rel;
  l1 = lifted a.l1 a.l2 rel;
  l2 = raised a.l2 rel;
  block_count = a.block_count;
  free_count = a.free_count + 1;
}

module _ (a : Alloc) (rel : ℕ) (v : IsPyramid a) (inside : rel < a.block_count) where
  at2 : rel / 64 < length a.l2
  at2 = omega (arith, v.fits2)

  at1 : rel / 64 / 64 < length a.l1
  at1 = omega (arith, v.fits2, v.fits1)

  at0 : rel / 64 / 64 / 64 < length a.l0
  at0 = omega (arith, v.fits2, v.fits1, v.fits0)

  pub mark_allocated_free :
      bit_at a.l2 rel ≡ 1 → alloc_mark_allocated a rel ≡ some (taken a rel, true)
  unfolding alloc_mark_allocated clear_summary taken lowered lowered_top bit_at
  mark_allocated_free old = ground (
    arith,
    get_elem?-eq-get_or a.l2 (rel / 64) 0 at2,
    bit_and-pow_one (rel % 64) (get_or a.l2 (rel / 64) 0) old,
    clear_bit_lem a.l2 rel at2,
    clear_bit_lem a.l1 (rel / 64) at1,
    clear_bit_lem a.l0 (rel / 64 / 64) at0,
    count_free-pos a.block_count rel a.l2 inside old,
    count_free-le a.block_count a.l2,
    v.counted,
    v.bounded,
  )

  pub mark_allocated_taken : bit_at a.l2 rel ≡ 0 → alloc_mark_allocated a rel ≡ some (a, false)
  unfolding alloc_mark_allocated bit_at
  mark_allocated_taken old = ground (
    arith,
    get_elem?-eq-get_or a.l2 (rel / 64) 0 at2,
    bit_and-pow_zero (rel % 64) (get_or a.l2 (rel / 64) 0) old,
  )

  pub mark_free_taken : bit_at a.l2 rel ≡ 0 → alloc_mark_free a rel ≡ some (freed a rel, true)
  unfolding alloc_mark_free set_summary freed lifted lifted_top bit_at
  mark_free_taken old = ground (
    arith,
    get_elem?-eq-get_or a.l2 (rel / 64) 0 at2,
    bit_and-pow_zero (rel % 64) (get_or a.l2 (rel / 64) 0) old,
    set_bit_lem a.l2 rel at2,
    set_bit_lem a.l1 (rel / 64) at1,
    set_bit_lem a.l0 (rel / 64 / 64) at0,
    get_or-raised a.l2 rel at2 (rel / 64),
    get_or-raised a.l1 (rel / 64) at1 (rel / 64 / 64),
    bit_or-pow_iff (rel % 64) (get_or a.l2 (rel / 64) 0) old,
    bit_or-pow_iff (rel / 64 % 64) (get_or a.l1 (rel / 64 / 64) 0),
    v.summary1 (rel / 64),
    count_free-room a.block_count rel a.l2 inside old,
    v.counted,
    v.bounded,
  )

  pub mark_free_free : bit_at a.l2 rel ≡ 1 → alloc_mark_free a rel ≡ some (a, false)
  unfolding alloc_mark_free bit_at
  mark_free_free old = ground (
    arith,
    get_elem?-eq-get_or a.l2 (rel / 64) 0 at2,
    bit_and-pow_one (rel % 64) (get_or a.l2 (rel / 64) 0) old,
  )

  pub taken-IsPyramid : bit_at a.l2 rel ≡ 1 → IsPyramid (taken a rel)
  unfolding taken
  taken-IsPyramid old = record {
    words0 = lowered_top-AreWords a.l0 a.l1 a.l2 rel at1 at0 v.words0;
    words1 = lowered-AreWords a.l1 a.l2 rel at1 v.words1;
    words2 = cleared-AreWords a.l2 rel at2 v.words2;
    fits0 =
        omega (arith, v.fits0, length-lowered_top a.l0 a.l1 a.l2 rel, length-lowered a.l1 a.l2 rel);
    fits1 = omega (arith, v.fits1, length-cleared a.l2 rel, length-lowered a.l1 a.l2 rel);
    fits2 = omega (arith, v.fits2, length-cleared a.l2 rel);
    summary0 = lowered_top-Summarises a.l0 a.l1 a.l2 rel at1 at0 v.summary0 v.summary1 old;
    summary1 = lowered-Summarises a.l1 a.l2 rel at2 at1 v.summary1 old;
    tail = λ i p. ground (arith, v.tail i p, bit_at-cleared a.l2 rel at2 i);
    counted = ground (
      arith,
      v.counted,
      old,
      count_free-change a.block_count rel 0 a.l2 (cleared a.l2 rel) (bit_at-cleared a.l2 rel at2),
    );
    bounded = v.bounded;
  }

  pub freed-IsPyramid : bit_at a.l2 rel ≡ 0 → IsPyramid (freed a rel)
  unfolding freed
  freed-IsPyramid old = record {
    words0 = lifted_top-AreWords a.l0 a.l1 a.l2 rel at1 at0 v.words0;
    words1 = lifted-AreWords a.l1 a.l2 rel at1 v.words1;
    words2 = raised-AreWords a.l2 rel at2 v.words2;
    fits0 =
        omega (arith, v.fits0, length-lifted_top a.l0 a.l1 a.l2 rel, length-lifted a.l1 a.l2 rel);
    fits1 = omega (arith, v.fits1, length-raised a.l2 rel, length-lifted a.l1 a.l2 rel);
    fits2 = omega (arith, v.fits2, length-raised a.l2 rel);
    summary0 = lifted_top-Summarises a.l0 a.l1 a.l2 rel at1 at0 v.summary0;
    summary1 = lifted-Summarises a.l1 a.l2 rel at2 at1 v.summary1;
    tail = λ i p. ground (arith, v.tail i p, bit_at-raised a.l2 rel at2 i);
    counted = ground (
      arith,
      v.counted,
      old,
      count_free-change a.block_count rel 1 a.l2 (raised a.l2 rel) (bit_at-raised a.l2 rel at2),
    );
    bounded = v.bounded;
  }

  pub taken-bits : (j : ℕ) → bit_at (taken a rel).l2 j ≡ (if rel == j then 0 else bit_at a.l2 j)
  unfolding taken
  taken-bits = bit_at-cleared a.l2 rel at2

  pub freed-bits : (j : ℕ) → bit_at (freed a rel).l2 j ≡ (if rel == j then 1 else bit_at a.l2 j)
  unfolding freed
  freed-bits = bit_at-raised a.l2 rel at2
