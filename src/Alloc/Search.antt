-- ===== src/Alloc/Search.antt =====
-- `AllocateBlock` finds the lowest free block whenever one is left.
use briefs_utils.Base.{ℕ, zero, suc, ◌+◌, ◌*◌, ◌/◌, ◌<◌, ◌==◌, leb}
use briefs_utils.Base.{◌≡◌, ◌≢◌, arith, List, length, get_or, get_or-out, Option, some, true}
use briefs_utils.Base.{Bool-cases, inl, inr}
use briefs_utils.Alloc.{Alloc, alloc_mark_allocated}
use briefs_utils.Alloc.Bitmap.{bit_at}
use briefs_utils.Alloc.Summary.{word-ne_zero}
use briefs_utils.Alloc.Pyramid.{IsPyramid, count_free}
use briefs_utils.Alloc.Mark.{taken, mark_allocated_free, taken-IsPyramid}
use briefs_utils.Alloc.Refine.{bit-cases}
use briefs_utils.Alloc.Builder.{trailing_zeros, Found, found, search_from, allocate_block}
use briefs_utils.Alloc.First.{IsFirst, IsFirst-in_word, IsFirst-below}

free_exists : (n : ℕ) (l : List ℕ) → 0 < count_free n l → (i : ℕ) × (i < n) × (bit_at l i ≡ 1)
unfolding count_free
free_exists zero l h = absurd (omega arith)
free_exists (suc n) l h = elim (bit-cases l n) [
  | inl clear ↦ let (i, p, e) = free_exists n l (omega arith) in (i, omega arith, e)
  | inr is_free ↦ (n, omega arith, is_free)
]

-- The call took the lowest free block: `result` is the pyramid with that block marked.
pub record TakesLowest (a : Alloc) (result : Option (Alloc × Found)) : Type 0 where
  pub block : ℕ
  pub after : Alloc
  pub returns : result ≡ some (after, found block)
  pub tracked : block < a.block_count
  pub was_free : bit_at a.l2 block ≡ 1
  pub lowest : (j : ℕ) → j < block → bit_at a.l2 j ≡ 0
  pub marked : alloc_mark_allocated a block ≡ some (after, true)
  pub sound : IsPyramid after

module _ (a : Alloc) where
  abbrev pub word1 : ℕ → ℕ
  word1 w0 = w0 * 64 + trailing_zeros 64 (get_or a.l0 w0 0)

  abbrev pub word2 : ℕ → ℕ
  word2 w0 = word1 w0 * 64 + trailing_zeros 64 (get_or a.l1 (word1 w0) 0)

  abbrev pub block_under : ℕ → ℕ
  block_under w0 = word2 w0 * 64 + trailing_zeros 64 (get_or a.l2 (word2 w0) 0)

  -- The way down from word `w0` of level 0 to a block.
  pub record Descent (w0 : ℕ) : Type 0 where
    pub within1 : word1 w0 < length a.l1
    pub filled1 : get_or a.l1 (word1 w0) 0 ≢ 0
    pub within2 : word2 w0 < length a.l2
    pub filled2 : get_or a.l2 (word2 w0) 0 ≢ 0
    pub tracked : block_under w0 < a.block_count
    pub first : IsFirst a.l2 (block_under w0)

module _ (a : Alloc) (v : IsPyramid a) where
  pub descent :
      (w0 : ℕ) → ((j : ℕ) → j < w0 → get_or a.l0 j 0 ≡ 0) → get_or a.l0 w0 0 ≢ 0 → Descent a w0
  descent w0 before here = record {
    within1 = d1.0;
    filled1 = d1.1;
    within2 = d2.0;
    filled2 = d2.1;
    tracked = elim (Bool-cases (leb a.block_count (block_under a w0))) [
      | inl out ↦ absurd (omega (arith, v.tail (block_under a w0) (ground arith), d2.2.is_set))
      | inr within ↦ ground arith
    ];
    first = d2.2;
  }
    where
      d1 : (word1 a w0 < length a.l1) × (get_or a.l1 (word1 a w0) 0 ≢ 0) × IsFirst a.l1 (word2 a w0)
      d1 =
          IsFirst-below a.l0 a.l1 (word1 a w0) v.words1 v.summary0
            (IsFirst-in_word a.l0 w0 v.words0 before here)

      d2 :
          (word2 a w0 < length a.l2)
          × (get_or a.l2 (word2 a w0) 0 ≢ 0)
          × IsFirst a.l2 (block_under a w0)
      d2 = IsFirst-below a.l1 a.l2 (word2 a w0) v.words2 v.summary1 d1.2

  search_hit :
      (n w0 : ℕ)
      → ((j : ℕ) → j < w0 → get_or a.l0 j 0 ≡ 0)
      → get_or a.l0 w0 0 ≢ 0
      → TakesLowest a (search_from (suc n) w0 a)
  search_hit n w0 before here = record {
    block = block_under a w0;
    after = taken a (block_under a w0);
    returns =
        unfold search_from in
        ground (arith, here, d.within1, d.filled1, d.within2, d.filled2, d.tracked, marked);
    tracked = d.tracked;
    was_free = d.first.is_set;
    lowest = d.first.lowest;
    marked = marked;
    sound = taken-IsPyramid a (block_under a w0) v d.tracked d.first.is_set;
  }
    where
      d : Descent a w0
      d = descent w0 before here

      marked : alloc_mark_allocated a (block_under a w0) ≡ some (taken a (block_under a w0), true)
      marked = mark_allocated_free a (block_under a w0) v d.tracked d.first.is_set

  top_word : (i : ℕ) → bit_at a.l2 i ≡ 1 → get_or a.l0 (i / 64 / 64 / 64) 0 ≢ 0
  top_word i h = word-ne_zero a.l0 (i / 64 / 64) up0
    where
      up1 : bit_at a.l1 (i / 64) ≡ 1
      up1 = ground (arith, v.summary1 (i / 64), word-ne_zero a.l2 i h)

      up0 : bit_at a.l0 (i / 64 / 64) ≡ 1
      up0 = ground (arith, v.summary0 (i / 64 / 64), word-ne_zero a.l1 (i / 64) up1)

  -- A word of level 0 stands over a free block while the counter is positive.
  pub filled_top : 0 < a.free_count → (top : ℕ) × (get_or a.l0 top 0 ≢ 0)
  filled_top some_left =
      let (i, p, is_free) = free_exists a.block_count a.l2 (omega (arith, v.counted)) in
      (i / 64 / 64 / 64, top_word i is_free)

  search_finds :
      (n w0 top : ℕ)
      → w0 + n ≡ length a.l0
      → ((j : ℕ) → j < w0 → get_or a.l0 j 0 ≡ 0)
      → get_or a.l0 top 0 ≢ 0
      → TakesLowest a (search_from n w0 a)
  search_finds zero w0 top e before there = absurd (
      there (elim (Bool-cases (leb w0 top)) [
        | inl out ↦ get_or-out a.l0 top 0 (ground arith)
        | inr within ↦ before top (ground arith)
      ]))
  search_finds (suc n) w0 top e before there = elim (Bool-cases (get_or a.l0 w0 0 == 0)) [
    | inl empty ↦
        let rest =
          search_finds n (w0 + 1) top (omega arith)
            (λ j p. elim (Bool-cases (j == w0)) [
              | inl same ↦ ground arith
              | inr other ↦ before j (ground arith)
            ])
            there in
        skip empty rest
    | inr here ↦ search_hit n w0 before (ground arith)
  ]
    where
      skip :
          (get_or a.l0 w0 0 == 0) ≡ true
          → TakesLowest a (search_from n (w0 + 1) a)
          → TakesLowest a (search_from (suc n) w0 a)
      skip empty rest = unfold search_from in rw empty rest

  -- On a well-formed pyramid with a positive counter AllocateBlock returns the lowest free block,
  -- marks it and keeps the pyramid well formed.
  pub allocate_block-TakesLowest : 0 < a.free_count → TakesLowest a (allocate_block a)
  allocate_block-TakesLowest some_left =
      let (i, p, is_free) = free_exists a.block_count a.l2 (omega (arith, v.counted)) in
      elim (Bool-cases (a.free_count == 0)) [
        | inl none_left ↦ absurd (ground arith)
        | inr left ↦
            unfold allocate_block in
            rw left (
              search_finds (length a.l0) 0 (i / 64 / 64 / 64) (omega arith)
                (λ j q. absurd (omega arith)) (top_word i is_free))
      ]
