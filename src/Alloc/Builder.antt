-- ===== src/Alloc/Builder.antt =====
-- The builder of briefs/allocator.go over the pyramid: its layout, a fresh pool, and the search for
-- a free block. Also `AllocLevelWords` of briefs/allocator_core.go.
use briefs_utils.Base.{ℕ, zero, suc, ◌+◌, ◌-◌, ◌*◌, ◌/◌, ◌%◌, ◌^◌, get_or, set, length, replicate}
use briefs_utils.Base.{leb, ltb, ◌==◌, if◌then◌else◌, ◌>>=◌, Bool, Option, some, List}
use briefs_utils.Base.Words.{u64}
use briefs_utils.Alloc.{Alloc, alloc_mark_allocated, alloc_mark_free, alloc_is_allocated}

-- `~uint64(0)`
abbrev pub all_ones : ℕ
all_ones = 2 ^ 64 - 1

pub record LevelWords : Type 0 where
  pub words0 : ℕ
  pub words1 : ℕ
  pub words2 : ℕ

abbrev pub at_least_one : ℕ → ℕ
at_least_one n = if ltb n 1 then 1 else n

-- The three counts are computed before any is raised to 1.
unfoldable pub alloc_level_words : ℕ → LevelWords
alloc_level_words block_count =
    let n2 = u64 (block_count + 63) / 64 in
    let n1 = (n2 + 63) / 64 in
    let n0 = (n1 + 63) / 64 in
    record { words0 = at_least_one n0; words1 = at_least_one n1; words2 = at_least_one n2 }

-- A level of `words` words with every bit set, its last word cut to `count % 64` bits if that is
-- not 0.
unfoldable pub full_level : ℕ → ℕ → List ℕ
full_level words count =
    let ones = replicate words all_ones in
    if count % 64 == 0 then ones else set ones (words - 1) (2 ^ (count % 64) - 1)

unfoldable pub new_alloc_builder : ℕ → Alloc
new_alloc_builder count =
    let n = alloc_level_words count in
    record {
      l0 = full_level n.words0 n.words1;
      l1 = full_level n.words1 n.words2;
      l2 = full_level n.words2 count;
      block_count = count;
      free_count = count;
    }

unfoldable pub mark_allocated : Alloc → ℕ → Option Alloc
mark_allocated b rel = do (b', fresh) ← alloc_mark_allocated b rel; some b'

unfoldable pub mark_free : Alloc → ℕ → Option Alloc
mark_free b rel = do (b', fresh) ← alloc_mark_free b rel; some b'

unfoldable pub is_allocated : Alloc → ℕ → Bool
is_allocated b rel = alloc_is_allocated b.l2 b.block_count rel

-- Block 0 is reserved: an allocation that answers 0 has failed.
unfoldable pub new_data_alloc_builder : ℕ → Option Alloc
new_data_alloc_builder count =
    let b = new_alloc_builder count in
    let reserved = mark_allocated b 0 in if ltb 0 count then reserved else some b

unfoldable pub alloc_word_blocks : ℕ → ℕ
alloc_word_blocks words = let blk = u64 (words * 8 + 4095) / 4096 in if ltb blk 1 then 1 else blk

unfoldable pub nb_blocks : Alloc → ℕ
nb_blocks b =
    1
    + alloc_word_blocks (length b.l0)
    + alloc_word_blocks (length b.l1)
    + alloc_word_blocks (length b.l2)

unfoldable pub alloc_pool_blocks : ℕ → ℕ
alloc_pool_blocks block_count =
    let n = alloc_level_words block_count in
    1 + alloc_word_blocks n.words0 + alloc_word_blocks n.words1 + alloc_word_blocks n.words2

-- `bits.TrailingZeros64` on `k` remaining bits.
unfoldable pub trailing_zeros : ℕ → ℕ → ℕ
trailing_zeros zero w = 0
trailing_zeros (suc k) w = if w % 2 == 1 then 0 else trailing_zeros k (w / 2) + 1

-- The two errors of `AllocateBlock`, or the block.
pub data Found : Type 0 where
  found : ℕ → Found
  no_free_blocks search_exhausted : Found

-- `for w0 < len(L0)` with `n` words left; `rest` is `continue`.
unfoldable pub search_from : ℕ → ℕ → Alloc → Option (Alloc × Found)
search_from zero w0 b = some (b, search_exhausted)
search_from (suc n) w0 b =
    let rest = search_from n (w0 + 1) b in
    let w1 = w0 * 64 + trailing_zeros 64 (get_or b.l0 w0 0) in
    let w2 = w1 * 64 + trailing_zeros 64 (get_or b.l1 w1 0) in
    let block = w2 * 64 + trailing_zeros 64 (get_or b.l2 w2 0) in
    let take = (do (b', fresh) ← alloc_mark_allocated b block; some (b', found block)) in
    if get_or b.l0 w0 0 == 0
    then rest
    else if leb (length b.l1) w1
    then rest
    else if get_or b.l1 w1 0 == 0
    then rest
    else if leb (length b.l2) w2
    then rest
    else if get_or b.l2 w2 0 == 0
    then rest
    else if leb b.block_count block
    then rest
    else take

unfoldable pub allocate_block : Alloc → Option (Alloc × Found)
allocate_block b =
    let tried = search_from (length b.l0) 0 b in
    if b.free_count == 0 then some (b, no_free_blocks) else tried
