-- ===== src/Alloc/Refine.antt =====
-- `AllocMarkAllocated`, `AllocMarkFree` and `AllocIsAllocated` as operations on the set of free
-- blocks, which is what the pyramid stands for.
use briefs_utils.Base.{ℕ, ◌+◌, ◌-◌, ◌/◌, ◌%◌, ◌≤◌, ◌<◌, ◌==◌, if◌then◌else◌, ltb, leb, get_or}
use briefs_utils.Base.{◌≡◌, refl, arith, some, Bool, true, false, Bool-cases, inl, inr, ◌↔◌, ◌⊎◌}
use briefs_utils.Base.{List, ◌&&◌, Option}
use briefs_utils.Alloc.{Alloc, alloc_mark_allocated, alloc_mark_free, alloc_is_allocated}
use briefs_utils.Alloc.Bitmap.{bit_at, bit_and-pow_zero, bit_and-pow_one}
use briefs_utils.Alloc.Pyramid.{IsPyramid, bit_at-le, count_free-pos}
use briefs_utils.Alloc.Mark.{
  taken, freed, mark_allocated_free, mark_allocated_taken, mark_free_taken,
}
use briefs_utils.Alloc.Mark.{
  mark_free_free, taken-IsPyramid, freed-IsPyramid, taken-bits, freed-bits,
}

pub bit-cases : (l : List ℕ) (i : ℕ) → (bit_at l i ≡ 0) ⊎ (bit_at l i ≡ 1)
bit-cases l i = omega (arith, bit_at-le l i)

-- One call over the set of free blocks: no panic, `rel` ends with bit `v` if it is tracked, no other
-- block changes, the levels stay true, and the counter follows.
pub record Moves (v : ℕ) (a : Alloc) (rel : ℕ) (result : Option (Alloc × Bool)) : Type 0 where
  pub after : Alloc
  pub fresh : Bool
  pub returns : result ≡ some (after, fresh)
  pub sound : IsPyramid after
  pub same_size : after.block_count ≡ a.block_count
  pub fresh_iff : (fresh ≡ true) ↔ ((rel < a.block_count) × (bit_at a.l2 rel ≡ 1 - v))
  pub bits :
      (j : ℕ) → bit_at after.l2 j ≡ (if (rel == j) && ltb j a.block_count then v else bit_at a.l2 j)
  pub count :
      after.free_count + (if fresh then 1 - v else 0) ≡ a.free_count + (if fresh then v else 0)

mark_allocated_outside :
    (a : Alloc) (rel : ℕ) → a.block_count ≤ rel → alloc_mark_allocated a rel ≡ some (a, false)
unfolding alloc_mark_allocated
mark_allocated_outside a rel h = ground arith

mark_free_outside :
    (a : Alloc) (rel : ℕ) → a.block_count ≤ rel → alloc_mark_free a rel ≡ some (a, false)
unfolding alloc_mark_free
mark_free_outside a rel h = ground arith

-- A call that changes nothing, on a block that is out of range or has the bit already.
unmoved :
    (v : ℕ) (a : Alloc) (rel : ℕ) {result : Option (Alloc × Bool)}
    → IsPyramid a
    → v ≤ 1
    → (a.block_count ≤ rel) ⊎ (bit_at a.l2 rel ≡ v)
    → result ≡ some (a, false)
    → Moves v a rel result
unmoved v a rel p small why e = record {
  after = a;
  fresh = false;
  returns = e;
  sound = p;
  same_size = refl;
  fresh_iff = ground arith;
  bits = λ j. ground arith;
  count = refl;
}

-- On a well-formed pyramid AllocMarkAllocated does not panic, clears exactly the given tracked bit,
-- keeps the summaries and the counter true, and reports whether the block was free.
pub mark_allocated-Moves :
    (a : Alloc) (rel : ℕ) → IsPyramid a → Moves 0 a rel (alloc_mark_allocated a rel)
mark_allocated-Moves a rel v = elim (Bool-cases (leb a.block_count rel)) [
  | inl out ↦
      unmoved 0 a rel v (omega arith) (inl (ground arith))
        (mark_allocated_outside a rel (ground arith))
  | inr within ↦ inside (ground arith)
]
  where
    moved : rel < a.block_count → bit_at a.l2 rel ≡ 1 → Moves 0 a rel (alloc_mark_allocated a rel)
    moved h old = record {
      after = taken a rel;
      fresh = true;
      returns = mark_allocated_free a rel v h old;
      sound = taken-IsPyramid a rel v h old;
      same_size = unfold taken in refl;
      fresh_iff = ground arith;
      bits = λ j. ground (arith, taken-bits a rel v h j);
      count = unfold taken in omega (arith, v.counted, count_free-pos a.block_count rel a.l2 h old);
    }

    inside : rel < a.block_count → Moves 0 a rel (alloc_mark_allocated a rel)
    inside h = elim (bit-cases a.l2 rel) [
      | inl old ↦ unmoved 0 a rel v (omega arith) (inr old) (mark_allocated_taken a rel v h old)
      | inr old ↦ moved h old
    ]

-- On a well-formed pyramid AllocMarkFree does not panic, sets exactly the given bit if it is
-- tracked, keeps the summaries and the counter true, and reports whether the block was tracked and
-- allocated.
pub mark_free-Moves : (a : Alloc) (rel : ℕ) → IsPyramid a → Moves 1 a rel (alloc_mark_free a rel)
mark_free-Moves a rel v = elim (Bool-cases (leb a.block_count rel)) [
  | inl out ↦
      unmoved 1 a rel v (omega arith) (inl (ground arith)) (mark_free_outside a rel (ground arith))
  | inr within ↦ inside (ground arith)
]
  where
    moved : rel < a.block_count → bit_at a.l2 rel ≡ 0 → Moves 1 a rel (alloc_mark_free a rel)
    moved h old = record {
      after = freed a rel;
      fresh = true;
      returns = mark_free_taken a rel v h old;
      sound = freed-IsPyramid a rel v h old;
      same_size = unfold freed in refl;
      fresh_iff = ground arith;
      bits = λ j. ground (arith, freed-bits a rel v h j);
      count = unfold freed in omega arith;
    }

    inside : rel < a.block_count → Moves 1 a rel (alloc_mark_free a rel)
    inside h = elim (bit-cases a.l2 rel) [
      | inl old ↦ moved h old
      | inr old ↦ unmoved 1 a rel v (omega arith) (inr old) (mark_free_free a rel v h old)
    ]

-- On a well-formed pyramid AllocIsAllocated answers whether the block is tracked and its bit is 0.
pub is_allocated_iff :
    (a : Alloc) (rel : ℕ)
    → IsPyramid a
    → (alloc_is_allocated a.l2 a.block_count rel ≡ true)
      ↔ ((rel < a.block_count) × (bit_at a.l2 rel ≡ 0))
unfolding alloc_is_allocated bit_at
is_allocated_iff a rel v = ground (
  arith,
  v.fits2,
  bit_at-le a.l2 rel,
  bit_and-pow_zero (rel % 64) (get_or a.l2 (rel / 64) 0),
  bit_and-pow_one (rel % 64) (get_or a.l2 (rel / 64) 0),
)
