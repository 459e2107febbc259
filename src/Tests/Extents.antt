-- ===== src/Tests/Extents.antt =====
-- A file with two extents and a hole between them, the second one unwritten.
use briefs_utils.Base.{ℕ, ◌≡◌, arith, List, [], ◌∷◌, none, true}
use briefs_utils.Extents.{Extent, extent, free_extent_range, insert_extent_sorted}
use briefs_utils.Extents.Mapping.{AreSorted, block_at, within}
use briefs_utils.Extents.Free.{free_extent_range-Punches, Punches}
use briefs_utils.Extents.Insert.{insert_extent_sorted-Adds, Adds}

abbrev fallocated : Extent
fallocated = extent 10 300 8 1

abbrev two_extents : List Extent
two_extents = extent 2 100 4 0 ∷ fallocated ∷ []

two_extents-AreSorted : AreSorted 0 two_extents
two_extents-AreSorted = omega arith

free_extent_range-Punches_example :
    Punches 4 12 (omega arith) 0 two_extents (free_extent_range two_extents 4 12)
free_extent_range-Punches_example =
    free_extent_range-Punches 4 12 (omega arith) 0 two_extents two_extents-AreSorted

abbrev in_hole : Extent
in_hole = extent 6 104 4 0

in_hole_apart : (b : ℕ) → within in_hole b ≡ true → block_at two_extents b ≡ none
unfolding block_at
in_hole_apart b i = ground arith

insert_extent_sorted-Adds_example :
    Adds 0 two_extents in_hole (insert_extent_sorted two_extents in_hole)
insert_extent_sorted-Adds_example =
    insert_extent_sorted-Adds in_hole (omega arith) two_extents two_extents-AreSorted in_hole_apart
