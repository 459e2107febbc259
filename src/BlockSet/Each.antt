-- ===== src/BlockSet/Each.antt =====
-- What `each` visits and what `count` counts: cmd/fsck/blockset.go.
use briefs_utils.Base.{ℕ, zero, suc, ◌+◌, ◌-◌, ◌≤◌, ◌==◌, ltb, leb, List, [], ◌∷◌, ◌++◌}
use briefs_utils.Base.{Bool, false, ◌&&◌, ◌||◌, ◌≡◌, refl, ◌∙◌, arith, length}
use briefs_utils.BlockSet.{BlockInterval, BlockSet, count, each, visit}
use briefs_utils.BlockSet.{interval_blocks}
use briefs_utils.BlockSet.Fold.{covers, AreSeparated}
-- Is `b` in the set?
use briefs_utils.BlockSet.Laws.{contains, IsBlockSet, fold_lem}

-- Blocks in ascending order from `lo` on, none twice.
abbrev pub AreAscending : ℕ → List ℕ → Type 0
AreAscending lo [] = Unit {0}
AreAscending lo (b ∷ l) = (lo ≤ b) × AreAscending (b + 1) l

unfoldable pub member : ℕ → List ℕ → Bool
member b [] = false
member b (c ∷ l) = b == c || member b l

ascending-weaken : (lo hi : ℕ) (l : List ℕ) → lo ≤ hi → AreAscending hi l → AreAscending lo l
ascending-weaken lo hi [] p h = tt
ascending-weaken lo hi (b ∷ l) p (q, h) = (omega arith, h)

interval_blocks-ascending :
    (lo b n : ℕ) (l : List ℕ)
    → lo ≤ b
    → AreAscending (b + n) l
    → AreAscending lo (interval_blocks b n ++ l)
unfolding interval_blocks
interval_blocks-ascending lo b zero l p h = ascending-weaken lo (b + 0) l (omega arith) h
interval_blocks-ascending lo b (suc n) l p h =
    let e : b + suc n ≡ b + 1 + n = omega arith in
    (p, interval_blocks-ascending (b + 1) (b + 1) n l (omega arith) (rw e at h))

visit-ascending : (lo : ℕ) (l : List BlockInterval) → AreSeparated lo l → AreAscending lo (visit l)
unfolding visit
visit-ascending lo [] s = tt
visit-ascending lo (iv ∷ l) (p, v, s) =
    interval_blocks-ascending lo iv.start (iv.stop - iv.start) (visit l) p
      (ascending-weaken _ (iv.stop + 1) (visit l) (omega arith) (visit-ascending (iv.stop + 1) l s))

member-interval_blocks :
    (c b n : ℕ) (l : List ℕ)
    → member c (interval_blocks b n ++ l) ≡ ((leb b c && ltb c (b + n)) || member c l)
unfolding interval_blocks member
member-interval_blocks c b zero l = ground arith
member-interval_blocks c b (suc n) l = ground (arith, member-interval_blocks c (b + 1) n l)

member-visit :
    (lo : ℕ) (l : List BlockInterval) (c : ℕ) → AreSeparated lo l → member c (visit l) ≡ covers l c
unfolding visit covers member
member-visit lo [] c s = refl
member-visit lo (iv ∷ l) c (p, v, s) = ground (
  arith,
  member-interval_blocks c iv.start (iv.stop - iv.start) (visit l),
  member-visit (iv.stop + 1) l c s,
)

-- On a set with the invariant, each visits the blocks of the set in ascending order, each once and
-- no other, and count is how many they are.
pub each-count :
    (s : BlockSet)
    → IsBlockSet s
    → AreAscending 0 (each s)
      × ((b : ℕ) → member b (each s) ≡ contains s b)
      × ((count s).1 ≡ length (each s))
unfolding each count
each-count s v =
    let f = fold_lem s v in
    (
      visit-ascending 0 _ f.0.separated,
      (λ b. member-visit 0 _ b f.0.separated ∙ f.1 b),
      f.0.counted,
    )
