-- ===== src/Pool/Scan.antt =====
-- What an allocation, a free and a reservation do to a well-formed pool: fuse/fs.go.
use briefs_utils.Base.{ℕ, zero, suc, ◌+◌, ◌/◌, ◌%◌, ◌<◌, ◌==◌, leb}
use briefs_utils.Base.{
  ◌≡◌, ◌≢◌, refl, arith, length, get_or, get_or-out, Option, some, true, false, Bool, ◌||◌,
}
use briefs_utils.Base.{ap, sym, Bool-cases, inl, inr, if◌then◌else◌, ◌∙◌}
use briefs_utils.Alloc.{Alloc, alloc_mark_allocated}
use briefs_utils.Alloc.Bitmap.{bit_at, bit_and-pow_one}
use briefs_utils.Base.{get_elem?-eq-get_or}
use briefs_utils.Alloc.Pyramid.{IsPyramid}
use briefs_utils.Alloc.Mark.{taken, taken-IsPyramid, mark_allocated_free}
use briefs_utils.Alloc.Search.{Descent, descent, block_under, filled_top}
use briefs_utils.Alloc.First.{trailing_zeros-first}
use briefs_utils.Alloc.Search.{word2}
use briefs_utils.Alloc.Pyramid.{count_free-pos}
use briefs_utils.Alloc.Builder.{trailing_zeros}
use briefs_utils.Alloc.Pyramid.{count_free-le}
use briefs_utils.Pool.{
  free_count_data, free_count_data_plus, Pool, scan_from, take_found, try_alloc_block, is_nil,
  data_avail, mark_l2_word,
}

-- A successful allocation: the lowest free block, with its level-2 word marked for the next Sync.
pub record TakesLowest (p : Pool) (result : Option (Pool × ℕ)) : Type 0 where
  pub block : ℕ
  pub after : Pool
  pub returns : result ≡ some (after, block)
  pub tracked : block < p.bitmap.block_count
  pub was_free : bit_at p.bitmap.l2 block ≡ 1
  pub lowest : (j : ℕ) → j < block → bit_at p.bitmap.l2 j ≡ 0
  pub marked : alloc_mark_allocated p.bitmap block ≡ some (after.bitmap, true)
  pub sound : IsPyramid after.bitmap
  pub to_sync : after ≡ mark_l2_word (record p { bitmap = after.bitmap; dirty = true }) (block / 64)
  pub count : after.bitmap.free_count + 1 ≡ p.bitmap.free_count

-- What an allocation of a class may draw from.
abbrev pub available : Bool → Pool → ℕ
available for_meta p =
    if for_meta then p.bitmap.free_count else data_avail p.bitmap.free_count p.meta_shield

pub record Answers (for_meta : Bool) (p : Pool) (result : Option (Pool × ℕ)) : Type 0 where
  pub none_available : available for_meta p ≡ 0 → result ≡ some (p, 0)
  pub takes : 0 < available for_meta p → TakesLowest p result
  pub spares : for_meta ≡ false → 0 < available for_meta p → p.meta_shield < p.bitmap.free_count

-- Past its guards, AllocMarkAllocated is what the scan does where it found a block.
take_found-taken :
    (p : Pool) (block : ℕ) (after : Alloc)
    → block < p.bitmap.block_count
    → block / 64 < length p.bitmap.l2
    → bit_at p.bitmap.l2 block ≡ 1
    → alloc_mark_allocated p.bitmap block ≡ some (after, true)
    → take_found p (block / 64) block
      ≡ some (mark_l2_word (record p { bitmap = after; dirty = true }) (block / 64), block)
unfolding take_found alloc_mark_allocated bit_at
take_found-taken p block after within room old marked = ground (
  arith,
  marked,
  get_elem?-eq-get_or p.bitmap.l2 (block / 64) 0 room,
  bit_and-pow_one (block % 64) (get_or p.bitmap.l2 (block / 64) 0) old,
)

module _ (p : Pool) (v : IsPyramid p.bitmap) where
  scan_hit :
      (n w0 : ℕ)
      → ((j : ℕ) → j < w0 → get_or p.bitmap.l0 j 0 ≡ 0)
      → get_or p.bitmap.l0 w0 0 ≢ 0
      → TakesLowest p (scan_from (suc n) w0 p)
  unfolding scan_from mark_l2_word taken
  scan_hit n w0 before here = record {
    block = block;
    after = mark_l2_word (record p { bitmap = taken p.bitmap block; dirty = true }) (block / 64);
    returns =
        ground (arith, here, d.within1, d.filled1, d.within2, d.filled2, d.tracked, found_here);
    tracked = d.tracked;
    was_free = d.first.is_set;
    lowest = d.first.lowest;
    marked = marked;
    sound = taken-IsPyramid p.bitmap block v d.tracked d.first.is_set;
    to_sync = refl;
    count = omega (arith, some_free);
  }
    where
      d : Descent p.bitmap w0
      d = descent p.bitmap v w0 before here

      block : ℕ
      block = block_under p.bitmap w0

      some_free : 0 < p.bitmap.free_count
      some_free = omega (
        arith,
        v.counted,
        count_free-pos p.bitmap.block_count block p.bitmap.l2 d.tracked d.first.is_set,
      )

      marked : alloc_mark_allocated p.bitmap block ≡ some (taken p.bitmap block, true)
      marked = mark_allocated_free p.bitmap block v d.tracked d.first.is_set

      below : trailing_zeros 64 (get_or p.bitmap.l2 (word2 p.bitmap w0) 0) < 64
      below = (trailing_zeros-first 64 _ (v.words2 _) d.filled2).0

      word : block / 64 ≡ word2 p.bitmap w0
      word = omega (arith, below)

      found_here :
          take_found p (word2 p.bitmap w0) block
          ≡ some (
            mark_l2_word (record p { bitmap = taken p.bitmap block; dirty = true }) (block / 64),
            block,
          )
      found_here =
          ap (λ (w : ℕ). take_found p w block) (sym word)
          ∙ take_found-taken p block (taken p.bitmap block) d.tracked (rw word d.within2)
              d.first.is_set marked

  scan_finds :
      (n w0 top : ℕ)
      → w0 + n ≡ length p.bitmap.l0
      → ((j : ℕ) → j < w0 → get_or p.bitmap.l0 j 0 ≡ 0)
      → get_or p.bitmap.l0 top 0 ≢ 0
      → TakesLowest p (scan_from n w0 p)
  scan_finds zero w0 top e before there = absurd (
      there (elim (Bool-cases (leb w0 top)) [
        | inl out ↦ get_or-out p.bitmap.l0 top 0 (ground arith)
        | inr within ↦ before top (ground arith)
      ]))
  scan_finds (suc n) w0 top e before there = elim (Bool-cases (get_or p.bitmap.l0 w0 0 == 0)) [
    | inl empty ↦
        let rest =
          scan_finds n (w0 + 1) top (omega arith)
            (λ j q. elim (Bool-cases (j == w0)) [
              | inl same ↦ ground arith
              | inr other ↦ before j (ground arith)
            ])
            there in
        skip empty rest
    | inr here ↦ scan_hit n w0 before (ground arith)
  ]
    where
      skip :
          (get_or p.bitmap.l0 w0 0 == 0) ≡ true
          → TakesLowest p (scan_from n (w0 + 1) p)
          → TakesLowest p (scan_from (suc n) w0 p)
      skip empty r = unfold scan_from in rw empty r

  -- On a well-formed pool, with what is available being the free count, less the shield unless the
  -- allocation is for metadata: with nothing available the allocation fails and changes nothing,
  -- else it takes the lowest free block, keeps the pool well formed and marks the word for the next
  -- Sync; a data allocation is only made while the free count exceeds the shield.
  pub try_alloc_block-Answers : (for_meta : Bool) → Answers for_meta p (try_alloc_block for_meta p)
  unfolding try_alloc_block data_avail
  try_alloc_block-Answers for_meta = record {
    none_available = λ h. ground (arith, h);
    takes = λ h. takes h (ground (arith, h));
    spares = λ e h. ground (arith, h, e);
  }
    where
      takes :
          0 < available for_meta p
          → 0 < p.bitmap.free_count
          → TakesLowest p (try_alloc_block for_meta p)
      takes h left =
          let (top, there) = filled_top p.bitmap v left in
          let scanned =
            scan_finds (length p.bitmap.l0) 0 top (omega arith) (λ j q. absurd (omega arith))
              there in
          let entered : ((available for_meta p == 0) || is_nil p) ≡ false =
            ground (arith, h, get_or-out p.bitmap.l0 top 0, there) in
          rw entered scanned

  -- On a well-formed pool FreeCountData, which statfs reports, is exactly what the data allocation
  -- may draw from.
  pub free_count_data-available : free_count_data p ≡ available false p
  unfolding free_count_data free_count_data_plus data_avail
  free_count_data-available =
      ground (arith, v.counted, v.bounded, count_free-le p.bitmap.block_count p.bitmap.l2)
