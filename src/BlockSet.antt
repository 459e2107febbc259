-- ===== src/BlockSet.antt =====
-- The set of referenced blocks of cmd/fsck/blockset.go: intervals that are folded lazily.
-- `fold`, `has` and `count` return the set with its pending intervals folded in. `sort.Slice` is an
-- insertion sort by `start`, and `sort.Search` the binary search of Go's library on fuel.
pub mod Fold
pub mod Search
pub mod Laws
pub mod Each
use briefs_utils.Base.{
  ℕ, zero, suc, ◌+◌, ◌-◌, ◌/◌, ◌==◌, ltb, leb, if◌then◌else◌, List, [], ◌∷◌, ◌++◌,
}
use briefs_utils.Base.{Bool, true, false, ◌&&◌, length}
use briefs_utils.Base.Words.{u64, inc64}
use briefs_utils.Base.Search.{search_range}

-- [start, stop): `end` is a keyword.
pub record BlockInterval : Type 0 where
  pub start : ℕ
  pub stop : ℕ

pub record BlockSet : Type 0 where
  pub pending : List BlockInterval
  pub merged : List BlockInterval
  pub blocks : ℕ

abbrev pub new_block_set : BlockSet
new_block_set = record { pending = []; merged = []; blocks = 0 }

unfoldable pub mark : BlockSet → ℕ → BlockSet
mark s b = record s { pending = s.pending ++ (record { start = b; stop = inc64 b } ∷ []) }

unfoldable pub mark_range : BlockSet → ℕ → ℕ → BlockSet
mark_range s start n =
    if n == 0
    then s
    else record s { pending = s.pending ++ (record { start = start; stop = u64 (start + n) } ∷ []) }

unfoldable pub insert_by_start : BlockInterval → List BlockInterval → List BlockInterval
insert_by_start x [] = x ∷ []
insert_by_start x (y ∷ l) = if ltb y.start x.start then y ∷ insert_by_start x l else x ∷ y ∷ l

unfoldable pub sort_by_start : List BlockInterval → List BlockInterval
sort_by_start [] = []
sort_by_start (x ∷ l) = insert_by_start x (sort_by_start l)

-- The loop of `fold` once `dst` has an interval: `last` is `dst[n-1]`, what stands before it is
-- already put out.
unfoldable pub coalesce_from : BlockInterval → List BlockInterval → List BlockInterval
coalesce_from last [] = last ∷ []
coalesce_from last (iv ∷ l) =
    let extended =
      coalesce_from (if ltb last.stop iv.stop then record last { stop = iv.stop } else last) l in
    let opened = last ∷ coalesce_from iv l in if leb iv.start last.stop then extended else opened

unfoldable pub coalesce : List BlockInterval → List BlockInterval
coalesce [] = []
coalesce (iv ∷ l) = coalesce_from iv l

unfoldable pub count_blocks : ℕ → List BlockInterval → ℕ
count_blocks n [] = n
count_blocks n (iv ∷ l) = count_blocks (u64 (n + (iv.stop - iv.start))) l

unfoldable pub fold : BlockSet → BlockSet
fold s =
    let dst = coalesce (sort_by_start (s.merged ++ s.pending)) in
    elim s.pending [
      | [] ↦ s
      | p ∷ ps ↦ record { pending = []; merged = dst; blocks = count_blocks 0 dst }
    ]

abbrev pub interval_at : List BlockInterval → ℕ → BlockInterval
interval_at [] i = record { start = 0; stop = 0 }
interval_at (iv ∷ l) zero = iv
interval_at (iv ∷ l) (suc i) = interval_at l i

unfoldable pub has : BlockSet → ℕ → BlockSet × Bool
has s b =
    let s' = fold s in
    let n = length s'.merged in
    let i = search_range n 0 n (λ k. ltb b (interval_at s'.merged k).stop) in
    (s', ltb i n && leb (interval_at s'.merged i).start b)

unfoldable pub count : BlockSet → BlockSet × ℕ
count s = let s' = fold s in (s', s'.blocks)

-- The blocks that `each` visits, in order: the inner loop runs over one interval.
unfoldable pub interval_blocks : ℕ → ℕ → List ℕ
interval_blocks b zero = []
interval_blocks b (suc left) = b ∷ interval_blocks (b + 1) left

unfoldable pub visit : List BlockInterval → List ℕ
visit [] = []
visit (iv ∷ l) = interval_blocks iv.start (iv.stop - iv.start) ++ visit l

unfoldable pub each : BlockSet → List ℕ
each s = visit (fold s).merged
