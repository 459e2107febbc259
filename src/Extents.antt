-- ===== src/Extents.antt =====
-- Extent lists and the operations that edit them: fuse/file_ops.go and fuse/extent_ops.go.
-- A slice that Go edits in place is returned. Sums of uint64 wrap, as in the source.
pub mod Mapping
pub mod Clip
pub mod Insert
pub mod Free
pub mod Shift
pub mod Lookup
pub mod Split
use briefs_utils.Base.{ℕ, zero, suc, ◌+◌, ◌-◌, ◌*◌, ◌/◌, ◌^◌, ◌==◌, ltb, leb}
use briefs_utils.Base.{
  if◌then◌else◌, Bool, true, false, ◌&&◌, Option, none, some, List, [], ◌∷◌, ◌++◌, length,
}
use briefs_utils.Base.Words.{u64}
use briefs_utils.Runs.{BlockRun}

-- An extent of a file: `len` blocks from `offset` on, stored from block `phys` on.
pub record Extent : Type 0 where
  pub offset : ℕ
  pub phys : ℕ
  pub len : ℕ
  pub flags : ℕ

abbrev pub extent : ℕ → ℕ → ℕ → ℕ → Extent
extent offset phys len flags = record { offset = offset; phys = phys; len = len; flags = flags }

abbrev pub block_run : ℕ → ℕ → BlockRun
block_run first n = record { first = first; n = n }

abbrev pub extent_flag_unwritten : ℕ
extent_flag_unwritten = 1

abbrev pub extent_end : Extent → ℕ
extent_end e = u64 (e.offset + e.len)

-- `exts[i]`, within bounds.
abbrev pub extent_at : List Extent → ℕ → Extent
extent_at [] i = record { offset = 0; phys = 0; len = 0; flags = 0 }
extent_at (e ∷ exts) zero = e
extent_at (e ∷ exts) (suc i) = extent_at exts i

-- The binary search of `lookupExtent`, with at most `n` rounds left.
unfoldable pub lookup_loop : ℕ → ℕ → ℕ → List Extent → ℕ → ℕ
lookup_loop zero lo hi exts iblock = lo
lookup_loop (suc n) lo hi exts iblock =
    let mid = (lo + hi) / 2 in
    let above = lookup_loop n (mid + 1) hi exts iblock in
    let below = lookup_loop n lo mid exts iblock in
    if ltb lo hi then (if leb (extent_at exts mid).offset iblock then above else below) else lo

unfoldable pub lookup_extent : List Extent → ℕ → Option Extent
lookup_extent exts iblock =
    let lo = lookup_loop (length exts) 0 (length exts) exts iblock in
    let ext = extent_at exts (lo - 1) in
    if lo == 0 then none else if ltb iblock (extent_end ext) then some ext else none

-- `right` continues `left` in the file and on the disk, with the same flags.
abbrev pub adjacent : Extent → Extent → Bool
adjacent left right =
    (extent_end left == right.offset)
    && (u64 (left.phys + left.len) == right.phys)
    && (left.flags == right.flags)

abbrev pub grown : Extent → Extent → Extent
grown left right = record left { len = u64 (left.len + right.len) }

-- The end of `insertExtentSorted`, with no left neighbour to merge with: merge with the right one, or
-- a slot of its own.
abbrev pub insert_before : Extent → List Extent → List Extent
insert_before ext [] = ext ∷ []
insert_before ext (right ∷ exts) =
    if adjacent ext right
    then record right { offset = ext.offset; phys = ext.phys; len = u64 (right.len + ext.len) }
      ∷ exts
    else ext ∷ right ∷ exts

-- The merge with the left neighbour, and of the two with the right one.
abbrev pub insert_between : Extent → Extent → List Extent → List Extent
insert_between left ext [] = if adjacent left ext then grown left ext ∷ [] else left ∷ ext ∷ []
insert_between left ext (right ∷ exts) =
    if adjacent left ext
    then (if adjacent (grown left ext) right
        then grown (grown left ext) right ∷ exts
        else grown left ext ∷ right ∷ exts)
    else left ∷ insert_before ext (right ∷ exts)

-- `sort.Search` ends at the first extent that does not start before `ext`; `left` is before it.
unfoldable pub insert_after : Extent → Extent → List Extent → List Extent
insert_after left ext [] = insert_between left ext []
insert_after left ext (right ∷ exts) =
    let later = left ∷ insert_after right ext exts in
    if leb ext.offset right.offset then insert_between left ext (right ∷ exts) else later

unfoldable pub insert_extent_sorted : List Extent → Extent → List Extent
insert_extent_sorted [] ext = ext ∷ []
insert_extent_sorted (first ∷ exts) ext =
    let later = insert_after first ext exts in
    if leb ext.offset first.offset then insert_before ext (first ∷ exts) else later

-- The `for` over a list of pieces.
unfoldable pub insert_all : List Extent → List Extent → List Extent
insert_all exts [] = exts
insert_all exts (piece ∷ pieces) = insert_all (insert_extent_sorted exts piece) pieces

-- The list without the first extent that starts where `ext` does, and that extent.
unfoldable pub take_out : List Extent → Extent → Option (Extent × List Extent)
take_out [] ext = none
take_out (e ∷ exts) ext =
    let later = take_out exts ext in
    if (e.offset == ext.offset) && (e.phys == ext.phys)
    then some (e, exts)
    else elim later [ none ↦ none | some (found, rest) ↦ some (found, e ∷ rest) ]

-- The three insertions of `splitUnwrittenAt`, once `e` is taken out of the list.
unfoldable pub split_pieces : List Extent → Extent → ℕ → List Extent
split_pieces exts e iblock =
    let before = extent e.offset e.phys (iblock - e.offset) extent_flag_unwritten in
    let written = extent iblock (u64 (e.phys + (iblock - e.offset))) 1 0 in
    let after = u64 (iblock + 1) in
    let rest =
      extent after (u64 (e.phys + (after - e.offset))) (extent_end e - after)
        extent_flag_unwritten in
    let exts1 = if ltb e.offset iblock then insert_extent_sorted exts before else exts in
    let exts2 = insert_extent_sorted exts1 written in
    if ltb after (extent_end e) then insert_extent_sorted exts2 rest else exts2

unfoldable pub split_unwritten_at : List Extent → Extent → ℕ → List Extent
split_unwritten_at exts ext iblock = elim (take_out exts ext) [
  | none ↦ exts
  | some (e, rest) ↦ split_pieces rest e iblock
]

-- One round of `freeExtentRange`: what is kept of an extent, and what is freed.
unfoldable pub free_piece : ℕ → ℕ → Extent → List Extent × List BlockRun
free_piece start_blk end_blk ext =
    let ov_start = if ltb ext.offset start_blk then start_blk else ext.offset in
    let ov_end = if ltb end_blk (extent_end ext) then end_blk else extent_end ext in
    let before = extent ext.offset ext.phys (ov_start - ext.offset) ext.flags in
    let after =
      extent ov_end (u64 (ext.phys + (ov_end - ext.offset))) (extent_end ext - ov_end) ext.flags in
    let run = block_run (u64 (ext.phys + (ov_start - ext.offset))) (ov_end - ov_start) in
    let freed = if ext.phys == 0 then [] else if ltb ov_start ov_end then run ∷ [] else [] in
    let tail = if ltb ov_end (extent_end ext) then after ∷ [] else [] in
    let kept = if ltb ext.offset ov_start then before ∷ tail else tail in
    if leb (extent_end ext) start_blk
    then (ext ∷ [], [])
    else if leb end_blk ext.offset
    then (ext ∷ [], [])
    else (kept, freed)

unfoldable pub free_extent_range : List Extent → ℕ → ℕ → List Extent × List BlockRun
free_extent_range [] start_blk end_blk = ([], [])
free_extent_range (ext ∷ exts) start_blk end_blk =
    let (kept, freed) = free_piece start_blk end_blk ext in
    let (kept', freed') = free_extent_range exts start_blk end_blk in
    (kept ++ kept', freed ++ freed')

-- One round of `shiftExtents` with dir < 0.
unfoldable pub collapse_piece : ℕ → ℕ → Extent → List Extent × List BlockRun
collapse_piece s l e =
    let o = e.offset in
    let eend = extent_end e in
    let cut = u64 (s + l) in
    let mid_start = if ltb o s then s else o in
    let mid_end = if ltb cut eend then cut else eend in
    let prefix = extent o e.phys (s - o) e.flags in
    let suffix = extent s (u64 (e.phys + (cut - o))) (eend - cut) e.flags in
    let whole = block_run e.phys (eend - o) in
    let middle = block_run (u64 (e.phys + (mid_start - o))) (mid_end - mid_start) in
    let tail = if ltb cut eend then suffix ∷ [] else [] in
    let kept = if ltb o s then prefix ∷ tail else tail in
    let freed = if e.phys == 0 then [] else if ltb mid_start mid_end then middle ∷ [] else [] in
    if leb eend s
    then (e ∷ [], [])
    else if leb cut o
    then (record e { offset = o - l } ∷ [], [])
    else if leb s o && leb eend cut
    then ([], if e.phys == 0 then [] else whole ∷ [])
    else (kept, freed)

-- One round with dir > 0.
unfoldable pub insert_piece : ℕ → ℕ → Extent → List Extent
insert_piece s l e =
    let o = e.offset in
    let eend = extent_end e in
    let prefix = extent o e.phys (s - o) e.flags in
    let suffix = extent (u64 (s + l)) (u64 (e.phys + (s - o))) (eend - s) e.flags in
    if leb eend s
    then e ∷ []
    else if leb s o
    then record e { offset = u64 (o + l) } ∷ []
    else prefix ∷ suffix ∷ []

unfoldable pub collapse_pieces : ℕ → ℕ → List Extent → List Extent × List BlockRun
collapse_pieces s l [] = ([], [])
collapse_pieces s l (e ∷ exts) =
    let (raw, freed) = collapse_piece s l e in
    let (raw', freed') = collapse_pieces s l exts in (raw ++ raw', freed ++ freed')

unfoldable pub insert_pieces : ℕ → ℕ → List Extent → List Extent
insert_pieces s l [] = []
insert_pieces s l (e ∷ exts) = insert_piece s l e ++ insert_pieces s l exts

-- `down` is dir < 0.
unfoldable pub shift_extents : List Extent → ℕ → ℕ → Bool → List Extent × List BlockRun
shift_extents exts s l down =
    let (raw, freed) = collapse_pieces s l exts in
    if down then (insert_all [] raw, freed) else (insert_all [] (insert_pieces s l exts), [])
