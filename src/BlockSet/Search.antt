-- ===== src/BlockSet/Search.antt =====
-- The binary search ends at the first index that passes, and that index decides membership.
use briefs_utils.Base.{ℕ, zero, suc, ◌+◌, ◌≤◌, ◌<◌, ltb, leb, List, [], ◌∷◌, length}
use briefs_utils.Base.{true, false, ◌&&◌, ◌≡◌, refl, sym, arith}
use briefs_utils.BlockSet.{BlockInterval, interval_at}
use briefs_utils.BlockSet.Fold.{covers, AreSeparated}
use briefs_utils.Base.Search.{search_range, search_range-first}

covers-before :
    (lo : ℕ) (l : List BlockInterval) (b : ℕ) → AreSeparated lo l → b < lo → covers l b ≡ false
unfolding covers
covers-before lo [] b s h = refl
covers-before lo (iv ∷ l) b (q, v, s) h =
    ground (arith, covers-before (iv.stop + 1) l b s (omega arith))

stop_above :
    (lo : ℕ) (l : List BlockInterval) (y : ℕ)
    → AreSeparated lo l
    → y < length l
    → lo ≤ (interval_at l y).stop
stop_above lo [] y s q = absurd (omega arith)
stop_above lo (iv ∷ l) zero (p, v, s) q = omega arith
stop_above lo (iv ∷ l) (suc y) (p, v, s) q =
    omega (arith, stop_above (iv.stop + 1) l y s (omega arith))

-- The intervals end one after the other.
pub stop_mono :
    (lo : ℕ) (l : List BlockInterval) (x y : ℕ)
    → AreSeparated lo l
    → x ≤ y
    → y < length l
    → (interval_at l x).stop ≤ (interval_at l y).stop
stop_mono lo [] x y s p q = absurd (omega arith)
stop_mono lo (iv ∷ l) zero zero s p q = omega arith
stop_mono lo (iv ∷ l) zero (suc y) (_, _, s) p q =
    omega (arith, stop_above (iv.stop + 1) l y s (omega arith))
stop_mono lo (iv ∷ l) (suc x) zero s p q = absurd (omega arith)
stop_mono lo (iv ∷ l) (suc x) (suc y) (_, _, s) p q =
    stop_mono (iv.stop + 1) l x y s (omega arith) (omega arith)

-- Given the first index whose interval ends past `b`, membership is one comparison.
pub covers-first :
    (lo : ℕ) (l : List BlockInterval) (b r : ℕ)
    → AreSeparated lo l
    → r ≤ length l
    → ((x : ℕ) → x < r → ltb b (interval_at l x).stop ≡ false)
    → (r < length l → ltb b (interval_at l r).stop ≡ true)
    → covers l b ≡ (ltb r (length l) && leb (interval_at l r).start b)
unfolding covers
covers-first lo [] b zero s p below here = refl
covers-first lo [] b (suc r) s p below here = absurd (omega arith)
covers-first lo (iv ∷ l) b zero (q, v, s) p below here =
    ground (arith, here, covers-before (iv.stop + 1) l b s)
covers-first lo (iv ∷ l) b (suc r) (q, v, s) p below here = ground (
  arith,
  below 0,
  covers-first (iv.stop + 1) l b r s (omega arith) (λ x h. below (suc x) (omega arith))
      (λ h. here (omega arith)),
)

-- The search of `has` decides membership in separated intervals.
pub search-covers :
    (l : List BlockInterval) (b : ℕ)
    → AreSeparated 0 l
    → let i = search_range (length l) 0 (length l) (λ k. ltb b (interval_at l k).stop) in
      (ltb i (length l) && leb (interval_at l i).start b) ≡ covers l b
search-covers l b s =
    let r =
      search_range-first (length l) (λ k. ltb b (interval_at l k).stop)
        (λ x y p q h. ground (arith, stop_mono 0 l x y s p q)) (length l) 0 (length l) (omega arith)
        (omega arith) (omega arith) (λ x h. absurd (omega arith)) (λ h. absurd (omega arith)) in
    sym (covers-first 0 l b _ s r.within r.below r.here)
