-- ===== src/Alloc/Pyramid.antt =====
-- The well-formedness of the three levels, and the number of free blocks that level 2 holds.
use briefs_utils.Base.{ℕ, zero, suc, ◌+◌, ◌*◌, ◌≤◌, ◌<◌, ◌^◌, ◌==◌, if◌then◌else◌, ltb}
use briefs_utils.Base.{◌≡◌, refl, arith, List, length}
use briefs_utils.Base.Bits.{bit-le}
use briefs_utils.Alloc.{Alloc}
use briefs_utils.Alloc.Bitmap.{bit_at, AreWords, Summarises}

-- How many of the first `n` bits of a level are set.
unfoldable pub count_free : ℕ → List ℕ → ℕ
count_free zero l = 0
count_free (suc n) l = count_free n l + bit_at l n

pub record IsPyramid (a : Alloc) : Type 0 where
  pub words0 : AreWords a.l0
  pub words1 : AreWords a.l1
  pub words2 : AreWords a.l2
  pub fits0 : length a.l1 ≤ 64 * length a.l0
  pub fits1 : length a.l2 ≤ 64 * length a.l1
  pub fits2 : a.block_count ≤ 64 * length a.l2
  pub summary0 : Summarises a.l0 a.l1
  pub summary1 : Summarises a.l1 a.l2
  pub tail : (i : ℕ) → a.block_count ≤ i → bit_at a.l2 i ≡ 0
  pub counted : a.free_count ≡ count_free a.block_count a.l2
  pub bounded : a.block_count < 2 ^ 64

pub bit_at-le : (l : List ℕ) (i : ℕ) → bit_at l i ≤ 1
unfolding bit_at
bit_at-le l i = bit-le _ _

pub count_free-le : (n : ℕ) (l : List ℕ) → count_free n l ≤ n
unfolding count_free
count_free-le zero l = omega arith
count_free-le (suc n) l = omega (arith, count_free-le n l, bit_at-le l n)

-- One bit changed to `v`.
pub count_free-change :
    (n i v : ℕ) (l l' : List ℕ)
    → ((j : ℕ) → bit_at l' j ≡ (if i == j then v else bit_at l j))
    → count_free n l' + (if ltb i n then bit_at l i else 0)
      ≡ count_free n l + (if ltb i n then v else 0)
unfolding count_free
count_free-change zero i v l l' h = ground arith
count_free-change (suc n) i v l l' h = ground (arith, count_free-change n i v l l' h, h n)

pub count_free-pos : (n i : ℕ) (l : List ℕ) → i < n → bit_at l i ≡ 1 → 0 < count_free n l
unfolding count_free
count_free-pos zero i l p h = absurd (omega arith)
count_free-pos (suc n) i l p h = ground (arith, count_free-pos n i l)

pub count_free-room : (n i : ℕ) (l : List ℕ) → i < n → bit_at l i ≡ 0 → count_free n l + 1 ≤ n
unfolding count_free
count_free-room zero i l p h = absurd (omega arith)
count_free-room (suc n) i l p h =
    ground (arith, count_free-room n i l, count_free-le n l, bit_at-le l n)

pub count_free-ext :
    (n : ℕ) (l l' : List ℕ)
    → ((j : ℕ) → bit_at l' j ≡ bit_at l j)
    → count_free n l' ≡ count_free n l
unfolding count_free
count_free-ext zero l l' h = refl
count_free-ext (suc n) l l' h = omega (arith, count_free-ext n l l' h, h n)
