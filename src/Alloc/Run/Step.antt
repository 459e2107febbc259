-- ===== src/Alloc/Run/Step.antt =====
-- One word of `AllocMarkFreeRun` on a well-formed pyramid.
use briefs_utils.Base.{ℕ, ◌+◌, ◌-◌, ◌*◌, ◌/◌, ◌%◌, ◌^◌, ◌≤◌, ◌<◌, min, get_or, length}
use briefs_utils.Base.{
  leb, ltb, ◌==◌, if◌then◌else◌, ◌≡◌, ◌≢◌, arith, some, List, ◌&&◌, true, false, ◌⊎◌, Bool, Option,
}
use briefs_utils.Base.{Bool-cases, inl, inr, get_elem?-eq-get_or, refl, ap}
use briefs_utils.Base.Bits.{
  and_not, bit, bit-le, bit-and_not, bit-zero, bit_or-lt, bit_above, and_not-le, bit_or-ne_zero,
  bit_or-ne_zero_right,
}
use briefs_utils.Alloc.{Alloc}
use briefs_utils.Alloc.Bitmap.{bit_at, AreWords, Summarises}
use briefs_utils.Alloc.Pyramid.{bit_at-le, IsPyramid, count_free, count_free-le}
use briefs_utils.Alloc.Level.{raised, bit_at-raised}
use briefs_utils.Alloc.Summary.{lifted, lifted-AreWords, length-lifted}
use briefs_utils.Alloc.Summary.{lifted-Summarises, raised-AreWords, length-raised}
use briefs_utils.Alloc.Run.Mask.{bit-run_mask, run_mask-lt}
use briefs_utils.Alloc.Run.Merge.{
  length-merged, merged, merged_bits, merged_count_below, merged_word, ones_count-cut,
}
use briefs_utils.Alloc.Run.{ones_count, run_mask, free_word}
use briefs_utils.Alloc.Run.Enter.{entered, enter_word_lem}

-- Block `j` is in the run [first, first+n).
abbrev pub in_run : ℕ → ℕ → ℕ → Bool
in_run first n j = leb first j && ltb j (first + n)

-- What one word of the loop leaves: the run's blocks of that word are free, nothing else changed.
pub record WordFreed (first n w : ℕ) (a : Alloc) (so_far : ℕ) (result : Option (Alloc × ℕ))
    : Type 0 where
  pub after : Alloc
  pub gained : ℕ
  pub returns : result ≡ some (after, so_far + gained)
  pub sound : IsPyramid after
  pub same_size : after.block_count ≡ a.block_count
  pub count : after.free_count ≡ a.free_count + gained
  pub bits :
      (j : ℕ) → bit_at after.l2 j ≡ (if (w == j / 64) && in_run first n j then 1 else bit_at a.l2 j)

module _ (first n w : ℕ) (a : Alloc) (v : IsPyramid a) (pos : 0 < n)
    (tracked : first + n ≤ a.block_count) (lo : first / 64 ≤ w)
    (hi : w ≤ (first + n - 1) / 64) where
  inside2 : w < length a.l2
  inside2 = omega (arith, v.fits2)

  inside1 : w / 64 < length a.l1
  inside1 = omega (arith, v.fits1, inside2)

  inside0 : w / 64 / 64 < length a.l0
  inside0 = omega (arith, v.fits0, inside1)

  mask_bit :
      (j : ℕ) → w ≡ j / 64 → bit (j % 64) (run_mask first n w) ≡ (if in_run first n j then 1 else 0)
  mask_bit j same =
      let back : 64 * w + j % 64 ≡ j = omega arith in
      rw back at (bit-run_mask first n w (j % 64) pos (omega arith) lo hi)

  new_bits :
      (j : ℕ)
      → bit_at (merged a.l2 w (run_mask first n w)) j
        ≡ (if (w == j / 64) && in_run first n j then 1 else bit_at a.l2 j)
  new_bits j =
      ground
        (arith, bit_at-le a.l2 j, merged_bits a.l2 w (run_mask first n w) inside2 j, mask_bit j)

  new_count :
      count_free a.block_count (merged a.l2 w (run_mask first n w))
      ≡ count_free a.block_count a.l2
        + ones_count 64 (and_not (run_mask first n w) (get_or a.l2 w 0))
  new_count = elim (Bool-cases (leb 64 (a.block_count - 64 * w))) [
    | inl whole ↦
        let e : min 64 (a.block_count - 64 * w) ≡ 64 = ground arith in
        rw e at (merged_count_below a.l2 w (run_mask first n w) inside2 a.block_count)
    | inr cut ↦ omega (
      arith,
      merged_count_below a.l2 w (run_mask first n w) inside2 a.block_count,
      ones_count-cut 64 (min 64 (a.block_count - 64 * w)) _ (ground arith) clear,
    )
  ]
    where
      clear :
          (j : ℕ)
          → min 64 (a.block_count - 64 * w) ≤ j
          → bit j (and_not (run_mask first n w) (get_or a.l2 w 0)) ≡ 0
      clear j p = elim (Bool-cases (ltb j 64)) [
        | inl low ↦ ground (
          arith,
          bit-and_not j (run_mask first n w) (get_or a.l2 w 0),
          bit-run_mask first n w j pos,
        )
        | inr high ↦ omega (
          arith,
          bit-and_not j (run_mask first n w) (get_or a.l2 w 0),
          bit_above 64 j (run_mask first n w) (run_mask-lt first n w) (ground arith),
        )
      ]

  -- The pyramid after the word, over summaries `top` and `mid` that already have it.
  grown : List ℕ → List ℕ → Alloc
  grown top mid = record {
    l0 = top;
    l1 = mid;
    l2 = merged a.l2 w (run_mask first n w);
    block_count = a.block_count;
    free_count = a.free_count + ones_count 64 (and_not (run_mask first n w) (get_or a.l2 w 0));
  }

  merged-AreWords : AreWords (merged a.l2 w (run_mask first n w))
  merged-AreWords j = ground (
    arith,
    merged_word a.l2 w (run_mask first n w) inside2 j,
    bit_or-lt 64 (get_or a.l2 w 0) (run_mask first n w) (v.words2 w) (run_mask-lt first n w),
    v.words2 j,
  )

  grown-IsPyramid :
      (top mid : List ℕ)
      → AreWords top
      → AreWords mid
      → length top ≡ length a.l0
      → length mid ≡ length a.l1
      → Summarises top mid
      → Summarises mid (merged a.l2 w (run_mask first n w))
      → IsPyramid (grown top mid)
  unfolding grown
  grown-IsPyramid top mid w0 w1 e0 e1 s0 s1 = record {
    words0 = w0;
    words1 = w1;
    words2 = merged-AreWords;
    fits0 = omega (arith, v.fits0);
    fits1 = omega (arith, v.fits1, length-merged a.l2 w (run_mask first n w));
    fits2 = omega (arith, v.fits2, length-merged a.l2 w (run_mask first n w));
    summary0 = s0;
    summary1 = s1;
    tail = λ j p. ground (arith, v.tail j p, new_bits j);
    counted = omega (arith, v.counted, new_count);
    bounded = v.bounded;
  }

  gained_some : and_not (run_mask first n w) (get_or a.l2 w 0) ≢ 0 → run_mask first n w ≢ 0
  gained_some h e = h (omega (arith, and_not-le (run_mask first n w) (get_or a.l2 w 0)))

  -- A word that had a free block: the summaries stay.
  grown_kept : get_or a.l2 w 0 ≢ 0 → IsPyramid (grown a.l0 a.l1)
  grown_kept had = grown-IsPyramid a.l0 a.l1 v.words0 v.words1 refl refl v.summary0 λ j. ground (
    arith,
    v.summary1 j,
    merged_word a.l2 w (run_mask first n w) inside2 j,
    bit_or-ne_zero (get_or a.l2 w 0) (run_mask first n w) had,
  )

  -- A word that was empty: the summaries are entered first.
  grown_entered :
      get_or a.l2 w 0 ≡ 0
      → and_not (run_mask first n w) (get_or a.l2 w 0) ≢ 0
      → IsPyramid (grown (lifted a.l0 a.l1 w) (raised a.l1 w))
  grown_entered empty some_new =
      grown-IsPyramid (lifted a.l0 a.l1 w) (raised a.l1 w)
        (lifted-AreWords a.l0 a.l1 w inside0 v.words0) (raised-AreWords a.l1 w inside1 v.words1)
        (length-lifted a.l0 a.l1 w) (length-raised a.l1 w)
        (lifted-Summarises a.l0 a.l1 w inside1 inside0 v.summary0)
        λ j. ground (
          arith,
          v.summary1 j,
          bit_at-raised a.l1 w inside1 j,
          merged_word a.l2 w (run_mask first n w) inside2 j,
          bit_or-ne_zero_right (get_or a.l2 w 0) (run_mask first n w),
          gained_some some_new,
        )

  new_count-lt :
      a.free_count + ones_count 64 (and_not (run_mask first n w) (get_or a.l2 w 0)) < 2 ^ 64
  new_count-lt = omega (
    arith,
    v.counted,
    v.bounded,
    new_count,
    count_free-le a.block_count (merged a.l2 w (run_mask first n w)),
  )

  nothing_new :
      and_not (run_mask first n w) (get_or a.l2 w 0) ≡ 0
      → (j : ℕ) → bit_at a.l2 j ≡ (if (w == j / 64) && in_run first n j then 1 else bit_at a.l2 j)
  nothing_new e j = elim (Bool-cases ((w == j / 64) && in_run first n j)) [
    | inr out ↦ rw out
    | inl within ↦
        let same : w ≡ j / 64 = ground arith in
        rw within (
          unfold bit_at in
          ground (
            arith,
            mask_bit j same,
            same,
            bit-and_not (j % 64) (run_mask first n w) (get_or a.l2 w 0),
            ap (bit (j % 64)) e,
            bit-zero (j % 64),
            bit-le (j % 64) (get_or a.l2 w 0),
          ))
  ]

  grown-WordFreed :
      (so_far : ℕ) (top mid : List ℕ)
      → so_far ≤ a.free_count
      → IsPyramid (grown top mid)
      → free_word first n w (a, so_far)
        ≡ some
            (grown top mid, so_far + ones_count 64 (and_not (run_mask first n w) (get_or a.l2 w 0)))
      → WordFreed first n w a so_far (free_word first n w (a, so_far))
  grown-WordFreed so_far top mid small sound e = record {
    after = grown top mid;
    gained = ones_count 64 (and_not (run_mask first n w) (get_or a.l2 w 0));
    returns = e;
    sound = sound;
    same_size = unfold grown in refl;
    count = unfold grown in refl;
    bits = unfold grown in new_bits;
  }

  pub free_word-WordFreed :
      (so_far : ℕ)
      → so_far ≤ a.free_count
      → WordFreed first n w a so_far (free_word first n w (a, so_far))
  free_word-WordFreed so_far small =
      by_word (Bool-cases (and_not (run_mask first n w) (get_or a.l2 w 0) == 0))
        (Bool-cases (get_or a.l2 w 0 == 0))
    where
      by_word :
          ((and_not (run_mask first n w) (get_or a.l2 w 0) == 0) ≡ true)
            ⊎ ((and_not (run_mask first n w) (get_or a.l2 w 0) == 0) ≡ false)
          → ((get_or a.l2 w 0 == 0) ≡ true) ⊎ ((get_or a.l2 w 0 == 0) ≡ false)
          → WordFreed first n w a so_far (free_word first n w (a, so_far))
      by_word (inl nothing) _ = record {
        after = a;
        gained = 0;
        returns = unfold free_word in ground (arith, nothing, get_elem?-eq-get_or a.l2 w 0 inside2);
        sound = v;
        same_size = refl;
        count = omega arith;
        bits = nothing_new (ground arith);
      }
      by_word (inr some_new) (inl empty) =
          grown-WordFreed so_far (lifted a.l0 a.l1 w) (raised a.l1 w) small
            (grown_entered (ground arith) (ground arith))
            (unfold free_word grown entered merged in
              ground (
                arith,
                some_new,
                empty,
                get_elem?-eq-get_or a.l2 w 0 inside2,
                enter_word_lem a w inside1 inside0,
                new_count-lt,
              ))
      by_word (inr some_new) (inr had) =
          grown-WordFreed so_far a.l0 a.l1 small (grown_kept (ground arith)) (
            unfold free_word grown merged in
            ground (arith, some_new, had, get_elem?-eq-get_or a.l2 w 0 inside2, new_count-lt))
