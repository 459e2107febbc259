-- ===== src/Pool.antt =====
-- The allocator of the mounted file system: fuse/fs.go. The bitmap and its counter are an `Alloc`;
-- a nil level 0 is an empty list; the word counts of the header are the lengths of the levels. The
-- mutex makes each function one step.
pub mod Scan
pub mod Sync
pub mod Shield
use briefs_utils.Base.{ℕ, zero, suc, ◌+◌, ◌-◌, ◌*◌, ◌/◌, ◌%◌, ◌^◌, ◌==◌, ltb, leb}
use briefs_utils.Base.{
  if◌then◌else◌, Bool, true, false, ◌||◌, Option, none, some, ◌>>=◌, List, [], ◌∷◌,
}
use briefs_utils.Base.{length, get_or, set}
use briefs_utils.Base.Bits.{and_not}
use briefs_utils.Base.Words.{u64}
use briefs_utils.Alloc.{
  Alloc, alloc_mark_allocated, alloc_mark_free, alloc_is_allocated, clear_bit, clear_summary,
}
use briefs_utils.Alloc.Builder.{trailing_zeros}
use briefs_utils.Alloc.Run.{alloc_mark_free_run}

pub record Pool : Type 0 where
  pub bitmap : Alloc
  pub meta_shield : ℕ
  -- The on-disk blocks of level 2 that changed since the last Sync; a set, as a list.
  pub l2_dirty : List ℕ
  pub dirty : Bool
  pub block_size : ℕ

abbrev pub is_nil : Pool → Bool
is_nil p = length p.bitmap.l0 == 0

unfoldable pub mark_l2_word : Pool → ℕ → Pool
mark_l2_word p w2 = record p { l2_dirty = (w2 / (p.block_size / 8)) ∷ p.l2_dirty }

-- The free count less the shield, not below 0.
unfoldable pub data_avail : ℕ → ℕ → ℕ
data_avail free shield = if ltb shield free then free - shield else 0

-- The end of the scan: the bit of `block` in level-2 word `w2` is cleared, then the summaries.
unfoldable pub take_found : Pool → ℕ → ℕ → Option (Pool × ℕ)
take_found p w2 block = do
  (l2', v2) ← clear_bit p.bitmap.l2 block
  let bits = record p.bitmap { l2 = l2'; free_count = u64 (p.bitmap.free_count + (2 ^ 64 - 1)) }
  (bits', fresh) ← if v2 == 0 then clear_summary bits w2 else some (bits, true)
  some (mark_l2_word (record p { bitmap = bits'; dirty = true }) w2, block)

-- A level-0 bit over an empty level-1 word is cleared, and the scan goes on.
unfoldable pub repair0 : Pool → ℕ → ℕ → Pool
repair0 p w0 b0 = record p {
  bitmap = record p.bitmap { l0 = set p.bitmap.l0 w0 (and_not (get_or p.bitmap.l0 w0 0) (2 ^ b0)) };
}

-- A level-1 bit over an empty level-2 word, and the level-0 bit if that empties the word.
unfoldable pub repair1 : Pool → ℕ → ℕ → ℕ → ℕ → Pool
repair1 p w0 b0 w1 b1 =
    let v1 = and_not (get_or p.bitmap.l1 w1 0) (2 ^ b1) in
    let p' = record p { bitmap = record p.bitmap { l1 = set p.bitmap.l1 w1 v1 } } in
    if v1 == 0 then repair0 p' w0 b0 else p'

-- `for w0 < l0Words` with `n` words left; block 0 is the failure.
unfoldable pub scan_from : ℕ → ℕ → Pool → Option (Pool × ℕ)
scan_from zero w0 p = some (p, 0)
scan_from (suc n) w0 p =
    let b0 = trailing_zeros 64 (get_or p.bitmap.l0 w0 0) in
    let w1 = w0 * 64 + b0 in
    let b1 = trailing_zeros 64 (get_or p.bitmap.l1 w1 0) in
    let w2 = w1 * 64 + b1 in
    let block = w2 * 64 + trailing_zeros 64 (get_or p.bitmap.l2 w2 0) in
    let rest = scan_from n (w0 + 1) p in
    let rest0 = scan_from n (w0 + 1) (repair0 p w0 b0) in
    let rest1 = scan_from n (w0 + 1) (repair1 p w0 b0 w1 b1) in
    if get_or p.bitmap.l0 w0 0 == 0
    then rest
    else if leb (length p.bitmap.l1) w1
    then some (p, 0)
    else if get_or p.bitmap.l1 w1 0 == 0
    then rest0
    else if leb (length p.bitmap.l2) w2
    then some (p, 0)
    else if get_or p.bitmap.l2 w2 0 == 0
    then rest1
    else if leb p.bitmap.block_count block
    then some (p, 0)
    else take_found p w2 block

unfoldable pub try_alloc_block : Bool → Pool → Option (Pool × ℕ)
try_alloc_block for_meta p =
    let free = p.bitmap.free_count in
    let avail = if for_meta then free else data_avail free p.meta_shield in
    let scan = scan_from (length p.bitmap.l0) 0 p in
    if (avail == 0) || is_nil p then some (p, 0) else scan

-- `reclaim` is the hook: the pool after it, and whether a reclaim was attempted; a nil hook attempts
-- nothing. It is called only after a failed scan.
unfoldable pub alloc_block : (Pool → Pool × Bool) → Bool → Pool → Option (Pool × ℕ)
alloc_block reclaim for_meta p = do
  (p', rel) ← try_alloc_block for_meta p
  let (p'', attempted) = reclaim p'
  let again = try_alloc_block for_meta p''
  if rel == 0 then (if attempted then again else some (p'', rel)) else some (p', rel)

unfoldable pub free_block : Pool → ℕ → Option Pool
free_block p rel =
    let freed = (do
      (bits, fresh) ← alloc_mark_free p.bitmap rel
      let p' = mark_l2_word (record p { bitmap = bits; dirty = true }) (rel / 64)
      some (if fresh then p' else record p { bitmap = bits })) in
    if is_nil p then some p else freed

unfoldable pub reserve_block : Pool → ℕ → Option Pool
reserve_block p rel =
    let reserved = (do
      (bits, fresh) ← alloc_mark_allocated p.bitmap rel
      let p' = mark_l2_word (record p { bitmap = bits; dirty = true }) (rel / 64)
      some (if fresh then p' else record p { bitmap = bits })) in
    if is_nil p then some p else reserved

-- `for w := first / 64; w <= wEnd` with the number of words left.
unfoldable pub mark_l2_words : ℕ → ℕ → Pool → Pool
mark_l2_words zero w p = p
mark_l2_words (suc left) w p = mark_l2_words left (w + 1) (mark_l2_word p w)

unfoldable pub free_run : Pool → ℕ → ℕ → Option Pool
free_run p first n =
    let m = if ltb (p.bitmap.block_count - first) n then p.bitmap.block_count - first else n in
    let freed = (do
      (bits, gained) ← alloc_mark_free_run p.bitmap first m
      let p' = record p { bitmap = bits; dirty = true }
      let p'' = mark_l2_words ((first + m - 1) / 64 + 1 - first / 64) (first / 64) p'
      some (if gained == 0 then record p { bitmap = bits } else p'')) in
    if is_nil p || (n == 0) || leb p.bitmap.block_count first then some p else freed

unfoldable pub free_blocks_range : Pool → ℕ → ℕ → ℕ → Option Pool
free_blocks_range p data_region_start phys len =
    free_run p (u64 (phys + (2 ^ 64 - data_region_start))) len

unfoldable pub allocated : Pool → ℕ → Bool
allocated p rel =
    let answer = alloc_is_allocated p.bitmap.l2 p.bitmap.block_count rel in
    if is_nil p then false else answer

unfoldable pub free_count_data_plus : Pool → ℕ → ℕ
free_count_data_plus p extra =
    let avail = u64 (p.bitmap.free_count + extra) in
    if leb avail p.meta_shield then 0 else avail - p.meta_shield

unfoldable pub free_count_data : Pool → ℕ
free_count_data p = free_count_data_plus p 0
