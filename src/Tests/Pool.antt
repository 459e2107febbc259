-- ===== src/Tests/Pool.antt =====
-- A mounted pool of 100 blocks with a shield of 3, and the counts of two inodes.
use briefs_utils.Base.{
  ℕ, ◌+◌, ◌*◌, ◌<◌, ◌≤◌, ◌^◌, ◌==◌, ◌≡◌, refl, arith, false, if◌then◌else◌, [], ◌∷◌,
}
use briefs_utils.Alloc.Builder.{new_alloc_builder}
use briefs_utils.Alloc.Fresh.{new_alloc_builder-IsPyramid}
use briefs_utils.Pool.{Pool, try_alloc_block}
use briefs_utils.Base.{List, inl}
use briefs_utils.Pool.{free_block}
use briefs_utils.Alloc.Pyramid.{IsPyramid}
use briefs_utils.Pool.Sync.{Tracks, Kept, free_block-Kept}
use briefs_utils.Pool.Scan.{Answers, try_alloc_block-Answers}
use briefs_utils.Pool.Shield.{Reserve, set_unwritten_res, lookup, meta_reserve_size}
use briefs_utils.Pool.Shield.Sum.{
  IsReserve, total, set_unwritten_res-IsReserve, meta_reserve_size-Covers,
}

abbrev mounted : Pool
mounted = record {
  bitmap = new_alloc_builder 100;
  meta_shield = 3;
  l2_dirty = [];
  dirty = false;
  block_size = 4096;
}

try_alloc_block-Answers_example : Answers false mounted (try_alloc_block false mounted)
try_alloc_block-Answers_example =
    try_alloc_block-Answers mounted (new_alloc_builder-IsPyramid 100 (omega arith) (omega arith)).0
      false

abbrev reserve : Reserve
reserve = record {
  unwritten_res = record { ino = 5; blocks = 1000 } ∷ record { ino = 9; blocks = 1 } ∷ [];
  meta_shield = 13;
}

total-reserve : total reserve.unwritten_res ≡ 13
unfolding total meta_reserve_size
total-reserve = refl

fits : total reserve.unwritten_res + meta_reserve_size 300 < 2 ^ 64
unfolding total meta_reserve_size
fits = omega arith

set_unwritten_res-IsReserve_example :
    IsReserve (set_unwritten_res reserve 9 300)
    × ((j : ℕ)
        → lookup (set_unwritten_res reserve 9 300).unwritten_res j
          ≡ (if j == 9 then 300 else lookup reserve.unwritten_res j))
set_unwritten_res-IsReserve_example =
    set_unwritten_res-IsReserve reserve 9 300
      (record {
        distinct = ground arith;
        shields = omega (arith, total-reserve);
        bounded = omega arith;
      })
      fits

meta_reserve_size-Covers_example :
    (leaves : ℕ) × (internals : ℕ) × (meta_reserve_size 1000 ≡ leaves + internals + 1)
    × ((1000 ≤ 126 * leaves) × (126 * leaves < 1000 + 126))
    × ((leaves ≤ 253 * internals) × (253 * internals < leaves + 253))
meta_reserve_size-Covers_example = meta_reserve_size-Covers 1000 (omega arith) (omega arith)

abbrev on_disk : List ℕ
on_disk = (new_alloc_builder 100).l2

mounted-Tracks : Tracks on_disk mounted
mounted-Tracks = λ w. inl refl

mounted-IsPyramid : IsPyramid mounted.bitmap
mounted-IsPyramid = (new_alloc_builder-IsPyramid 100 (omega arith) (omega arith)).0

free_block-Kept_example : Kept on_disk (free_block mounted 70)
free_block-Kept_example = free_block-Kept on_disk mounted mounted-IsPyramid mounted-Tracks 70
