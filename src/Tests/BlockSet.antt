-- ===== src/Tests/BlockSet.antt =====
-- A set with one folded interval and one pending run that overlaps it.
use briefs_utils.Base.{ℕ, ◌≡◌, refl, arith, [], ◌∷◌}
use briefs_utils.Base.{length}
use briefs_utils.BlockSet.{BlockSet, has, count, each, visit, interval_blocks}
use briefs_utils.BlockSet.Laws.{IsBlockSet, contains, has-contains}
use briefs_utils.BlockSet.Each.{AreAscending, member, each-count}

abbrev marked : BlockSet
marked = record {
  merged = record { start = 3; stop = 5 } ∷ [];
  pending = record { start = 4; stop = 8 } ∷ [];
  blocks = 2;
}

marked-IsBlockSet : IsBlockSet marked
unfolding visit interval_blocks
marked-IsBlockSet = record { separated = ground arith; pending = ground arith; counted = refl }

has-contains_example :
    ((has marked 7).1 ≡ contains marked 7)
    × IsBlockSet (has marked 7).0
    × ((c : ℕ) → contains (has marked 7).0 c ≡ contains marked c)
has-contains_example = has-contains marked 7 marked-IsBlockSet

each-count_example :
    AreAscending 0 (each marked)
    × ((b : ℕ) → member b (each marked) ≡ contains marked b)
    × ((count marked).1 ≡ length (each marked))
each-count_example = each-count marked marked-IsBlockSet
