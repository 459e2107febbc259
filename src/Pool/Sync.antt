-- ===== src/Pool/Sync.antt =====
-- The marks that Sync relies on: a level-2 word that differs from the disk lies in a marked block.
-- fuse/fs.go.
use briefs_utils.Base.{ℕ, ◌+◌, ◌*◌, ◌/◌, ◌%◌, ◌≤◌, ◌==◌, ltb, ◌||◌}
use briefs_utils.Base.{
  ◌≡◌, ◌≢◌, refl, sym, ap, ◌∙◌, arith, ◌⊎◌, inl, inr, List, [], ◌∷◌, get_or, Option, some, true,
  false, Bool,
}
use briefs_utils.Base.{Bool-cases, if◌then◌else◌}
use briefs_utils.Base.Bits.{bit_above, eq_of_bits}
use briefs_utils.Alloc.{Alloc}
use briefs_utils.Alloc.Bitmap.{bit_at, AreWords}
use briefs_utils.Alloc.Pyramid.{IsPyramid, bit_at-le}
use briefs_utils.Alloc.Refine.{Moves, mark_allocated-Moves, mark_free-Moves}
use briefs_utils.Pool.{Pool, mark_l2_word, free_block, reserve_block, try_alloc_block, is_nil}
use briefs_utils.Pool.Scan.{TakesLowest, available, try_alloc_block-Answers}

unfoldable pub is_marked : ℕ → List ℕ → Bool
is_marked b [] = false
is_marked b (c ∷ marks) = b == c || is_marked b marks

-- `disk` holds the level-2 words as the last Sync left them.
abbrev pub Tracks : List ℕ → Pool → Type 0
Tracks disk p =
    (w : ℕ)
    → (get_or disk w 0 ≡ get_or p.bitmap.l2 w 0)
      ⊎ (is_marked (w / (p.block_size / 8)) p.l2_dirty ≡ true)

-- Words with the same 64 bits are the same.
same_word :
    (l l' : List ℕ) (w : ℕ)
    → AreWords l
    → AreWords l'
    → ((j : ℕ) → j / 64 ≡ w → bit_at l' j ≡ bit_at l j)
    → get_or l' w 0 ≡ get_or l w 0
unfolding bit_at
same_word l l' w v v' h = eq_of_bits _ _ λ k. elim (Bool-cases (ltb k 64)) [
  | inl e ↦
      let word : (w * 64 + k) / 64 ≡ w = ground arith in
      let place : (w * 64 + k) % 64 ≡ k = ground arith in rw (word, place) at (h (w * 64 + k) word)
  | inr e ↦
      omega (arith, bit_above 64 k _ (v w) (ground arith), bit_above 64 k _ (v' w) (ground arith))
]

mark-Tracks :
    (disk : List ℕ) (p : Pool) (bitmap' : Alloc) (w2 : ℕ)
    → Tracks disk p
    → ((w : ℕ) → w ≢ w2 → get_or bitmap'.l2 w 0 ≡ get_or p.bitmap.l2 w 0)
    → Tracks disk (mark_l2_word (record p { bitmap = bitmap'; dirty = true }) w2)
unfolding mark_l2_word is_marked
mark-Tracks disk p bitmap' w2 t same w = elim (Bool-cases (w == w2)) [
  | inl e ↦ let here : w ≡ w2 = ground arith in inr (ground (arith, here))
  | inr e ↦ elim (t w) [
    | inl on_disk ↦ inl (on_disk ∙ sym (same w (ground arith)))
    | inr marked ↦ inr (ground (arith, marked))
  ]
]

keep-Tracks :
    (disk : List ℕ) (p : Pool) (bitmap' : Alloc)
    → Tracks disk p
    → ((w : ℕ) → get_or bitmap'.l2 w 0 ≡ get_or p.bitmap.l2 w 0)
    → Tracks disk (record p { bitmap = bitmap' })
keep-Tracks disk p bitmap' t same w = elim (t w) [
  | inl on_disk ↦ inl (on_disk ∙ sym (same w))
  | inr marked ↦ inr marked
]

-- The pool after a call that reports whether it changed the bitmap.
abbrev pub settled : Pool → Alloc → Bool → ℕ → Pool
settled p bitmap' fresh rel =
    if fresh
    then mark_l2_word (record p { bitmap = bitmap'; dirty = true }) (rel / 64)
    else record p { bitmap = bitmap' }

Moves-Tracks :
    (disk : List ℕ) (p : Pool) (v rel : ℕ) (result : Option (Alloc × Bool)) (fresh : Bool)
    → v ≤ 1
    → IsPyramid p.bitmap
    → Tracks disk p
    → (m : Moves v p.bitmap rel result) → m.fresh ≡ fresh
    → Tracks disk (settled p m.after fresh rel)
Moves-Tracks disk p v rel result true small sound t m e =
    mark-Tracks disk p m.after (rel / 64) t λ w ne.
      same_word p.bitmap.l2 m.after.l2 w sound.words2 m.sound.words2 λ j at_word.
        let apart : rel ≢ j = λ same. ne (sym at_word ∙ ap (λ (i : ℕ). i / 64) (sym same)) in
        ground (arith, m.bits j, apart)
Moves-Tracks disk p v rel result false small sound t m e = keep-Tracks disk p m.after t λ w.
    same_word p.bitmap.l2 m.after.l2 w sound.words2 m.sound.words2 λ j at_word.
      elim (Bool-cases (rel == j)) [
        | inl e' ↦
            let here : rel ≡ j = ground arith in
            ground (arith, m.bits j, m.fresh_iff, bit_at-le p.bitmap.l2 rel, here, e)
        | inr e' ↦ ground (arith, m.bits j, e')
      ]

pub record Kept (disk : List ℕ) (result : Option Pool) : Type 0 where
  pub after : Pool
  pub returns : result ≡ some after
  pub sound : IsPyramid after.bitmap
  pub tracks : Tracks disk after

settled_sound :
    (p : Pool) (bitmap' : Alloc) (fresh : Bool) (rel : ℕ)
    → IsPyramid bitmap'
    → IsPyramid (settled p bitmap' fresh rel).bitmap
unfolding mark_l2_word
settled_sound p bitmap' true rel v = v
settled_sound p bitmap' false rel v = v

module _ (disk : List ℕ) (p : Pool) (v : IsPyramid p.bitmap) (t : Tracks disk p) where
  untouched : Kept disk (some p)
  untouched = record { after = p; returns = refl; sound = v; tracks = t }

  -- FreeBlock on a well-formed pool returns, keeps it well formed, and every level-2 word that
  -- differs from the disk stays in a marked block.
  pub free_block-Kept : (rel : ℕ) → Kept disk (free_block p rel)
  unfolding free_block
  free_block-Kept rel = elim (Bool-cases (is_nil p)) [
    | inl nil ↦ rw nil untouched
    | inr there ↦
        let m = mark_free-Moves p.bitmap rel v in
        rw there (record {
          after = settled p m.after m.fresh rel;
          returns = rw m.returns refl;
          sound = settled_sound p m.after m.fresh rel m.sound;
          tracks = Moves-Tracks disk p 1 rel _ m.fresh (omega arith) v t m refl;
        })
  ]

  -- ReserveBlock on a well-formed pool returns, keeps it well formed, and every level-2 word that
  -- differs from the disk stays in a marked block.
  pub reserve_block-Kept : (rel : ℕ) → Kept disk (reserve_block p rel)
  unfolding reserve_block
  reserve_block-Kept rel = elim (Bool-cases (is_nil p)) [
    | inl nil ↦ rw nil untouched
    | inr there ↦
        let m = mark_allocated-Moves p.bitmap rel v in
        rw there (record {
          after = settled p m.after m.fresh rel;
          returns = rw m.returns refl;
          sound = settled_sound p m.after m.fresh rel m.sound;
          tracks = Moves-Tracks disk p 0 rel _ m.fresh (omega arith) v t m refl;
        })
  ]

  taken-Tracks : (result : Option (Pool × ℕ)) → (l : TakesLowest p result) → Tracks disk l.after
  taken-Tracks result l =
      let m = mark_allocated-Moves p.bitmap l.block v in
      let same : some (m.after, m.fresh) ≡ some (l.after.bitmap, true) = sym m.returns ∙ l.marked in
      let fresh : m.fresh ≡ true = cc same in
      let after : m.after ≡ l.after.bitmap = cc same in
      rw (l.to_sync, ← after) (Moves-Tracks disk p 0 l.block _ true (omega arith) v t m fresh)

  -- A single-block allocation of either class on a well-formed pool returns, keeps it well formed,
  -- and every level-2 word that differs from the disk stays in a marked block.
  try_alloc_block-Kept :
      (for_meta : Bool)
      → (block : ℕ) × (after : Pool) × (try_alloc_block for_meta p ≡ some (after, block))
        × IsPyramid after.bitmap
        × Tracks disk after
  try_alloc_block-Kept for_meta =
      let a = try_alloc_block-Answers p v for_meta in
      elim (Bool-cases (available for_meta p == 0)) [
        | inl nothing ↦ (0, p, a.none_available (ground arith), v, t)
        | inr something ↦
            let l = a.takes (ground arith) in
            (l.block, l.after, l.returns, l.sound, taken-Tracks _ l)
      ]
