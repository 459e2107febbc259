-- ===== src/BlockSet/Fold.antt =====
-- Folding keeps the set of blocks and leaves separated intervals in order.
use briefs_utils.Base.{ℕ, ◌+◌, ◌≤◌, ◌<◌, ◌^◌, ltb, leb, List, [], ◌∷◌}
use briefs_utils.Base.{Bool, false, ◌&&◌, ◌||◌, ◌≡◌, refl, ◌∙◌, arith, Bool-cases, inl, inr}
use briefs_utils.Base.Bytes.{All}
use briefs_utils.BlockSet.{BlockInterval, insert_by_start, sort_by_start, coalesce_from, coalesce}

abbrev pub covers_one : BlockInterval → ℕ → Bool
covers_one iv b = leb iv.start b && ltb b iv.stop

-- Some interval of the list holds `b`.
unfoldable pub covers : List BlockInterval → ℕ → Bool
covers [] b = false
covers (iv ∷ l) b = covers_one iv b || covers l b

abbrev pub IsInterval : BlockInterval → Type 0
IsInterval iv = (iv.start < iv.stop) × (iv.stop < 2 ^ 64)

-- Non-empty intervals from `lo` on, in order, with a gap between any two.
abbrev pub AreSeparated : ℕ → List BlockInterval → Type 0
AreSeparated lo [] = Unit {0}
AreSeparated lo (iv ∷ l) = (lo ≤ iv.start) × IsInterval iv × AreSeparated (iv.stop + 1) l

abbrev pub AreSorted : ℕ → List BlockInterval → Type 0
AreSorted lo [] = Unit {0}
AreSorted lo (iv ∷ l) = (lo ≤ iv.start) × IsInterval iv × AreSorted iv.start l

covers-insert :
    (x : BlockInterval) (l : List BlockInterval) (b : ℕ)
    → covers (insert_by_start x l) b ≡ (covers_one x b || covers l b)
unfolding covers insert_by_start
covers-insert x [] b = refl
covers-insert x (y ∷ l) b = ground (arith, covers-insert x l b)

pub covers-sort : (l : List BlockInterval) (b : ℕ) → covers (sort_by_start l) b ≡ covers l b
unfolding covers sort_by_start
covers-sort [] b = refl
covers-sort (x ∷ l) b = ground (arith, covers-insert x (sort_by_start l) b, covers-sort l b)

insert-AreSorted :
    (lo : ℕ) (x : BlockInterval) (l : List BlockInterval)
    → lo ≤ x.start
    → IsInterval x
    → AreSorted lo l
    → AreSorted lo (insert_by_start x l)
unfolding insert_by_start
insert-AreSorted lo x [] p v s = (p, v, tt)
insert-AreSorted lo x (y ∷ l) p v (q, w, s) = elim (Bool-cases (ltb y.start x.start)) [
  | inl e ↦ rw e (q, w, insert-AreSorted y.start x l (ground arith) v s)
  | inr e ↦ rw e (p, v, (ground arith, w, s))
]

pub sort-AreSorted : (l : List BlockInterval) → All IsInterval l → AreSorted 0 (sort_by_start l)
unfolding sort_by_start
sort-AreSorted [] h = tt
sort-AreSorted (x ∷ l) (v, h) =
    insert-AreSorted 0 x (sort_by_start l) (omega arith) v (sort-AreSorted l h)

sorted-weaken : (lo hi : ℕ) (l : List BlockInterval) → lo ≤ hi → AreSorted hi l → AreSorted lo l
sorted-weaken lo hi [] p s = tt
sorted-weaken lo hi (iv ∷ l) p (q, v, s) = (omega arith, v, s)

covers-coalesce_from :
    (last : BlockInterval) (l : List BlockInterval) (b : ℕ)
    → IsInterval last
    → AreSorted last.start l
    → covers (coalesce_from last l) b ≡ (covers_one last b || covers l b)
unfolding covers coalesce_from
covers-coalesce_from last [] b v s = refl
covers-coalesce_from last (iv ∷ l) b v (p, w, s) =
    let longer : BlockInterval = record last { stop = iv.stop } in
    elim (Bool-cases (leb iv.start last.stop)) [
      | inr apart ↦ rw apart (ground (arith, covers-coalesce_from iv l b w s))
      | inl meets ↦ elim (Bool-cases (ltb last.stop iv.stop)) [
        | inl past ↦
            rw (meets, past)
              (covers-coalesce_from longer l b (ground arith)
                  (sorted-weaken last.start iv.start l p s)
                ∙ ground (arith, meets, past))
        | inr inside ↦
            rw (meets, inside)
              (covers-coalesce_from last l b v (sorted-weaken last.start iv.start l p s)
                ∙ ground (arith, meets, inside))
      ]
    ]

coalesce_from-AreSeparated :
    (lo : ℕ) (last : BlockInterval) (l : List BlockInterval)
    → lo ≤ last.start
    → IsInterval last
    → AreSorted last.start l
    → AreSeparated lo (coalesce_from last l)
unfolding coalesce_from
coalesce_from-AreSeparated lo last [] p v s = (p, v, tt)
coalesce_from-AreSeparated lo last (iv ∷ l) p v (q, w, s) =
    let longer : BlockInterval = record last { stop = iv.stop } in
    elim (Bool-cases (leb iv.start last.stop)) [
      | inr apart ↦
          rw apart (p, v, coalesce_from-AreSeparated (last.stop + 1) iv l (ground arith) w s)
      | inl meets ↦ elim (Bool-cases (ltb last.stop iv.stop)) [
        | inl past ↦
            rw (meets, past)
              (coalesce_from-AreSeparated lo longer l p (ground arith)
                (sorted-weaken last.start iv.start l q s))
        | inr inside ↦
            rw (meets, inside)
              (coalesce_from-AreSeparated lo last l p v (sorted-weaken last.start iv.start l q s))
      ]
    ]

-- `fold`'s result covers the same blocks and is separated.
pub coalesce-covers :
    (l : List BlockInterval) (b : ℕ) → AreSorted 0 l → covers (coalesce l) b ≡ covers l b
unfolding coalesce covers
coalesce-covers [] b s = refl
coalesce-covers (iv ∷ l) b (p, v, s) = covers-coalesce_from iv l b v s

pub coalesce-AreSeparated : (l : List BlockInterval) → AreSorted 0 l → AreSeparated 0 (coalesce l)
unfolding coalesce
coalesce-AreSeparated [] s = tt
coalesce-AreSeparated (iv ∷ l) (p, v, s) = coalesce_from-AreSeparated 0 iv l p v s
