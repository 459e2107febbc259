-- ===== src/BlockSet/Laws.antt =====
-- `blockSet` as a set: what its operations do to the blocks it holds.
use briefs_utils.Base.{ℕ, zero, suc, ◌+◌, ◌-◌, ◌≤◌, ◌<◌, ◌^◌, ◌==◌, ltb, leb, List, [], ◌∷◌, ◌++◌}
use briefs_utils.Base.{
  Bool, ◌&&◌, ◌||◌, ◌≡◌, refl, ap, ◌∙◌, ◌⊎◌, arith, Bool-cases, inl, inr, length,
}
use briefs_utils.Base.{length-append}
use mathlib.Core.List.{append-nil}
use briefs_utils.Base.Words.{u64}
use briefs_utils.Base.Bytes.{All}
use briefs_utils.BlockSet.{BlockInterval, BlockSet, mark, mark_range, fold, has, visit}
use briefs_utils.BlockSet.{sort_by_start, coalesce, count_blocks, interval_blocks}
use briefs_utils.BlockSet.Fold.{
  covers, IsInterval, AreSeparated, covers-sort, sort-AreSorted, AreSorted,
}
use briefs_utils.BlockSet.Fold.{coalesce-covers, coalesce-AreSeparated}
use briefs_utils.BlockSet.Search.{search-covers}

-- Is `b` in the set?
unfoldable pub contains : BlockSet → ℕ → Bool
contains s b = covers (s.merged ++ s.pending) b

pub record IsBlockSet (s : BlockSet) : Type 0 where
  pub separated : AreSeparated 0 s.merged
  pub pending : All IsInterval s.pending
  pub counted : s.blocks ≡ length (visit s.merged)

covers-append : (l m : List BlockInterval) (b : ℕ) → covers (l ++ m) b ≡ (covers l b || covers m b)
unfolding covers
covers-append [] m b = refl
covers-append (iv ∷ l) m b = ground (arith, covers-append l m b)

All-append :
    (l m : List BlockInterval) → All IsInterval l → All IsInterval m → All IsInterval (l ++ m)
All-append [] m h k = k
All-append (iv ∷ l) m (v, h) k = (v, All-append l m h k)

separated-All : (lo : ℕ) (l : List BlockInterval) → AreSeparated lo l → All IsInterval l
separated-All lo [] s = tt
separated-All lo (iv ∷ l) (p, v, s) = (v, separated-All (iv.stop + 1) l s)

length-interval_blocks : (b n : ℕ) → length (interval_blocks b n) ≡ n
unfolding interval_blocks
length-interval_blocks b zero = refl
length-interval_blocks b (suc n) = ap suc (length-interval_blocks (b + 1) n)

visit-le :
    (lo : ℕ) (l : List BlockInterval)
    → AreSeparated lo l
    → lo < 2 ^ 64 + 1
    → lo + length (visit l) < 2 ^ 64 + 1
unfolding visit
visit-le lo [] s h = omega arith
visit-le lo (iv ∷ l) (p, v, s) h = omega (
  arith,
  length-append (interval_blocks iv.start (iv.stop - iv.start)) (visit l),
  length-interval_blocks iv.start (iv.stop - iv.start),
  visit-le (iv.stop + 1) l s (omega arith),
)

-- The counter is the number of blocks that the intervals hold; it does not wrap.
count_blocks-visit :
    (n lo : ℕ) (l : List BlockInterval)
    → AreSeparated lo l
    → n ≤ lo
    → lo < 2 ^ 64 + 1
    → count_blocks n l ≡ n + length (visit l)
unfolding count_blocks visit
count_blocks-visit n lo [] s h k = omega arith
count_blocks-visit n lo (iv ∷ l) (p, v, s) h k =
    let size : u64 (n + (iv.stop - iv.start)) ≡ n + (iv.stop - iv.start) = omega arith in
    rw size (
      omega (
        arith,
        length-append (interval_blocks iv.start (iv.stop - iv.start)) (visit l),
        length-interval_blocks iv.start (iv.stop - iv.start),
        count_blocks-visit (n + (iv.stop - iv.start)) (iv.stop + 1) l s (omega arith) (omega arith),
      ))

folded : BlockSet → BlockSet
folded s =
    let dst = coalesce (sort_by_start (s.merged ++ s.pending)) in
    record { pending = []; merged = dst; blocks = count_blocks 0 dst }

fold-cases : (s : BlockSet) → ((s.pending ≡ []) × (fold s ≡ s)) ⊎ (fold s ≡ folded s)
unfolding fold folded
fold-cases s = by_pending s.pending refl
  where
    by_pending :
        (l : List BlockInterval)
        → s.pending ≡ l
        → ((s.pending ≡ []) × (fold s ≡ s)) ⊎ (fold s ≡ folded s)
    by_pending [] e = inl (e, ground (arith, e))
    by_pending (p ∷ ps) e = inr (ground (arith, e))

folded_lem :
    (s : BlockSet)
    → IsBlockSet s
    → IsBlockSet (folded s) × ((b : ℕ) → covers (folded s).merged b ≡ contains s b)
unfolding folded contains
folded_lem s v = (
  record {
    separated = coalesce-AreSeparated _ sorted;
    pending = tt;
    counted =
        count_blocks-visit 0 0 _ (coalesce-AreSeparated _ sorted) (omega arith) (omega arith)
        ∙ omega arith;
  },
  λ b. coalesce-covers _ b sorted ∙ covers-sort (s.merged ++ s.pending) b,
)
  where
    sorted : AreSorted 0 (sort_by_start (s.merged ++ s.pending))
    sorted =
        sort-AreSorted _
          (All-append s.merged s.pending (separated-All 0 s.merged v.separated) v.pending)

-- Folding a set with the invariant keeps the set and the invariant, with every block in the folded
-- intervals.
pub fold_lem :
    (s : BlockSet)
    → IsBlockSet s
    → IsBlockSet (fold s) × ((b : ℕ) → covers (fold s).merged b ≡ contains s b)
fold_lem s v = elim (fold-cases s) [
  | inl (none, e) ↦ rw e (v, λ b. unfold contains in rw (none, append-nil))
  | inr e ↦ rw e (folded_lem s v)
]

fold-contains : (s : BlockSet) → IsBlockSet s → (b : ℕ) → contains (fold s) b ≡ contains s b
fold-contains s v b = elim (fold-cases s) [
  | inl (none, e) ↦ rw e refl
  | inr e ↦
      rw e
        (unfold contains folded in rw append-nil (unfold contains folded in (folded_lem s v).1 b))
]

-- On a set with the invariant, has answers whether the block was marked, and keeps the set and its
-- invariant.
pub has-contains :
    (s : BlockSet) (b : ℕ)
    → IsBlockSet s
    → ((has s b).1 ≡ contains s b)
      × IsBlockSet (has s b).0
      × ((c : ℕ) → contains (has s b).0 c ≡ contains s c)
unfolding has
has-contains s b v = (search-covers (fold s).merged b f.0.separated ∙ f.1 b, f.0, fold-contains s v)
  where
    f : IsBlockSet (fold s) × ((b : ℕ) → covers (fold s).merged b ≡ contains s b)
    f = fold_lem s v

-- Marking a run that ends below 2 ^ 64 adds exactly its blocks and keeps the invariant.
pub mark_range-contains :
    (s : BlockSet) (start n : ℕ)
    → IsBlockSet s
    → start + n < 2 ^ 64
    → IsBlockSet (mark_range s start n)
      × ((b : ℕ)
          → contains (mark_range s start n) b
            ≡ (contains s b || (leb start b && ltb b (start + n))))
unfolding mark_range
mark_range-contains s start n v fits = elim (Bool-cases (n == 0)) [
  | inl none ↦ rw none (v, λ b. ground (arith, none))
  | inr some_blocks ↦
      let size : u64 (start + n) ≡ start + n = omega arith in
      rw (some_blocks, size)
        (
          record {
            separated = v.separated;
            pending = All-append s.pending _ v.pending ((ground arith, omega arith), tt);
            counted = v.counted;
          },
          λ b.
              unfold contains covers in
              rw
                (
                  covers-append s.merged (s.pending ++ _) b,
                  covers-append s.pending _ b,
                  covers-append s.merged s.pending b,
                )
                (ground arith),
        )
]

-- `mark` is a run of one block.
pub mark-eq-mark_range : (s : BlockSet) (b : ℕ) → mark s b ≡ mark_range s b 1
unfolding mark mark_range
mark-eq-mark_range s b = refl
