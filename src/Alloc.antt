-- ===== src/Alloc.antt =====
-- The free-block bitmap pyramid of briefs/allocator_core.go and the builder of
-- briefs/allocator.go. A level is its list of 64-bit words; bit `i` of a level is bit `i % 64` of
-- word `i / 64`. A set bit of level 2 is a free block; a set bit of a summary level says that the
-- word below is not 0. `none` is a Go panic.
pub mod Bitmap
pub mod Level
pub mod Summary
pub mod Pyramid
pub mod Mark
pub mod Refine
pub mod Builder
pub mod Fresh
pub mod First
pub mod Search
pub mod Run
use briefs_utils.Base.{ℕ, zero, suc, ◌+◌, ◌-◌, ◌*◌, ◌/◌, ◌%◌, ◌^◌, bit_and, bit_or}
use briefs_utils.Base.{ltb, leb, ◌==◌, if◌then◌else◌, get_elem?, get_or, set, length, replicate}
use briefs_utils.Base.{◌>>=◌, Bool, true, false, Option, none, some, List, [], ◌∷◌, ◌||◌}
use briefs_utils.Base.Bits.{and_not}
use briefs_utils.Base.Words.{dec64, inc64, u64}

pub record Alloc : Type 0 where
  pub l0 : List ℕ
  pub l1 : List ℕ
  pub l2 : List ℕ
  pub block_count : ℕ
  pub free_count : ℕ

-- `l[i/64] &^= 1 << (i%64)`, with the word that results.
unfoldable pub clear_bit : List ℕ → ℕ → Option (List ℕ × ℕ)
clear_bit l i = do
  w ← get_elem? l (i / 64)
  let v = and_not w (2 ^ (i % 64))
  some (set l (i / 64) v, v)

-- `l[i/64] |= 1 << (i%64)`, with the word that results.
pub set_bit : List ℕ → ℕ → Option (List ℕ × ℕ)
set_bit l i = do
  w ← get_elem? l (i / 64)
  let v = bit_or w (2 ^ (i % 64))
  some (set l (i / 64) v, v)

-- The upward propagation of `AllocMarkAllocated`: level-2 word `w2` became 0.
unfoldable pub clear_summary : Alloc → ℕ → Option (Alloc × Bool)
clear_summary a w2 = do
  (l1', v1) ← clear_bit a.l1 w2
  let a' = record a { l1 = l1' }
  let emptied = (do (l0', v0) ← clear_bit a.l0 (w2 / 64); some (record a' { l0 = l0' }, true))
  if v1 == 0 then emptied else some (a', true)

unfoldable pub alloc_mark_allocated : Alloc → ℕ → Option (Alloc × Bool)
alloc_mark_allocated a rel =
    let marked : Option (Alloc × Bool) = (do
      w ← get_elem? a.l2 (rel / 64)
      let taken = (do
        (l2', v2) ← clear_bit a.l2 rel
        let a' = record a { l2 = l2'; free_count = dec64 a.free_count }
        if v2 == 0 then clear_summary a' (rel / 64) else some (a', true))
      if bit_and w (2 ^ (rel % 64)) == 0 then some (a, false) else taken) in
    if leb a.block_count rel then some (a, false) else marked

-- The upward propagation of `AllocMarkFree`: level-2 word `w2` was 0.
pub set_summary : Alloc → ℕ → Option (Alloc × Bool)
set_summary a w2 = do
  (l1', v1) ← set_bit a.l1 w2
  let a' = record a { l1 = l1' }
  let filled = (do (l0', v0) ← set_bit a.l0 (w2 / 64); some (record a' { l0 = l0' }, true))
  if v1 == 2 ^ (w2 % 64) then filled else some (a', true)

unfoldable pub alloc_mark_free : Alloc → ℕ → Option (Alloc × Bool)
alloc_mark_free a rel =
    let marked : Option (Alloc × Bool) = (do
      w ← get_elem? a.l2 (rel / 64)
      let freed = (do
        (l2', v2) ← set_bit a.l2 rel
        let a' = record a { l2 = l2'; free_count = inc64 a.free_count }
        if v2 == 2 ^ (rel % 64) then set_summary a' (rel / 64) else some (a', true))
      if bit_and w (2 ^ (rel % 64)) == 0 then freed else some (a, false)) in
    if leb a.block_count rel then some (a, false) else marked

pub alloc_is_allocated : List ℕ → ℕ → ℕ → Bool
alloc_is_allocated l2 block_count rel =
    if leb block_count rel
    then false
    else if leb (length l2) (rel / 64)
    then false
    else bit_and (get_or l2 (rel / 64) 0) (2 ^ (rel % 64)) == 0
