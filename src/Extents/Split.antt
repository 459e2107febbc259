-- ===== src/Extents/Split.antt =====
-- A write into an unwritten extent: `splitUnwrittenAt` of fuse/file_ops.go.
use briefs_utils.Base.{ℕ, ◌+◌, ◌-◌, ◌≤◌, ◌==◌, ltb, if◌then◌else◌, Bool, true, false}
use briefs_utils.Base.{none, some, List, [], ◌∷◌, ◌≡◌, arith, Bool-cases, inl, inr, ◌∙◌, sym}
use briefs_utils.Base.Words.{u64}
use briefs_utils.Extents.{
  Extent, extent, extent_end, extent_flag_unwritten, insert_extent_sorted, take_out, split_pieces,
  split_unwritten_at,
}
use briefs_utils.Extents.Mapping.{
  Has, Block, within, stored, block_at, IsExtent, AreSorted, AreSorted-weaken, block_at-below,
}
use briefs_utils.Extents.Insert.{insert_extent_sorted-Adds, Adds}

abbrev pub outside : Extent → List Extent → ℕ → Block
outside ext exts b = if within ext b then none else block_at exts b

-- What `take_out` leaves: the other extents, in order.
record TakesOut (lo : ℕ) (exts : List Extent) (ext : Extent) : Type 0 where
  rest : List Extent
  taken : take_out exts ext ≡ some (ext, rest)
  sorted : AreSorted lo rest
  others : (b : ℕ) → block_at rest b ≡ outside ext exts b
  is_extent : IsExtent ext
  was : (b : ℕ) → within ext b ≡ true → block_at exts b ≡ stored ext b

pub Has-above :
    (lo : ℕ) (exts : List Extent) (ext : Extent)
    → AreSorted lo exts
    → Has ext exts
    → (lo ≤ ext.offset) × IsExtent ext
Has-above lo [] ext s h = absurd (omega (arith, h))
Has-above lo (e ∷ exts) ext (p, v, s) (inl same) = rw (sym same) (p, v)
Has-above lo (e ∷ exts) ext (p, v, s) (inr later) =
    let (q, w) = Has-above (e.offset + e.len) exts ext s later in (omega arith, w)

takes_out :
    (lo : ℕ) (exts : List Extent) (ext : Extent)
    → AreSorted lo exts
    → Has ext exts
    → TakesOut lo exts ext
unfolding take_out block_at
takes_out lo [] ext s h = absurd (omega (arith, h))
takes_out lo (e ∷ exts) ext (p, v, s) (inl same) = rw (sym same) (record {
  rest = exts;
  taken = ground arith;
  sorted = AreSorted-weaken lo (e.offset + e.len) exts (omega arith) s;
  others = λ b. ground (arith, block_at-below (e.offset + e.len) exts b s);
  is_extent = v;
  was = λ b i. ground (arith, i);
})
takes_out lo (e ∷ exts) ext (p, v, s) (inr later) =
    let (q, w) = Has-above (e.offset + e.len) exts ext s later in
    let ih = takes_out (e.offset + e.len) exts ext s later in
    let taken = ih.taken in
    record {
      rest = e ∷ ih.rest;
      taken = rw taken (ground arith);
      sorted = (p, v, ih.sorted);
      others = λ b. ground (arith, ih.others b);
      is_extent = w;
      was = λ b i. ground (arith, ih.was b i, i, q);
    }

-- An insertion under a test that fails for an empty piece only.
add_if :
    (piece : Extent) (exts : List Extent) (c : Bool)
    → AreSorted 0 exts
    → (c ≡ true → IsExtent piece × ((b : ℕ) → within piece b ≡ true → block_at exts b ≡ none))
    → (c ≡ false → piece.len ≡ 0)
    → Adds 0 exts piece (if c then insert_extent_sorted exts piece else exts)
add_if piece exts c s h k = elim (Bool-cases c) [
  | inl e ↦ let (v, apart) = h e in rw e (insert_extent_sorted-Adds piece v exts s apart)
  | inr e ↦ rw e (record { sorted = s; maps = λ b. ground (arith, k e) })
]

split_pieces-converts :
    (exts : List Extent) (ext : Extent) (iblock : ℕ)
    → (t : TakesOut 0 exts ext) → ext.flags ≡ extent_flag_unwritten
    → within ext iblock ≡ true
    → AreSorted 0 (split_pieces t.rest ext iblock)
      × ((b : ℕ)
          → block_at (split_pieces t.rest ext iblock) b
            ≡ (if b == iblock then some (ext.phys + (iblock - ext.offset), 0) else block_at exts b))
unfolding split_pieces
split_pieces-converts exts ext iblock t unwritten inside =
    let v = t.is_extent in
    let next : u64 (iblock + 1) ≡ iblock + 1 = ground arith in
    let stop : extent_end ext ≡ ext.offset + ext.len = omega arith in
    let phys1 : u64 (ext.phys + (iblock - ext.offset)) ≡ ext.phys + (iblock - ext.offset) =
      ground arith in
    let phys2 : ltb (iblock + 1) (ext.offset + ext.len) ≡ true
        → u64 (ext.phys + (iblock + 1 - ext.offset)) ≡ ext.phys + (iblock + 1 - ext.offset) =
      λ c. ground arith in
    let before = extent ext.offset ext.phys (iblock - ext.offset) extent_flag_unwritten in
    let written = extent iblock (u64 (ext.phys + (iblock - ext.offset))) 1 0 in
    let after =
      extent (iblock + 1) (u64 (ext.phys + (iblock + 1 - ext.offset)))
        (ext.offset + ext.len - (iblock + 1)) extent_flag_unwritten in
    let exts1 : List Extent =
      if ltb ext.offset iblock then insert_extent_sorted t.rest before else t.rest in
    let exts2 : List Extent = insert_extent_sorted exts1 written in
    let a1 =
      add_if before t.rest (ltb ext.offset iblock) t.sorted
        (λ c. (
          (ground arith, ground arith, ground arith, ground arith),
          λ b i. ground (arith, t.others b),
        ))
        (λ c. ground arith) in
    let a2 =
      insert_extent_sorted-Adds written (omega arith, ground arith, ground arith, ground arith)
        exts1 a1.sorted (λ b i. ground (arith, a1.maps b, t.others b)) in
    let a3 =
      add_if after exts2 (ltb (iblock + 1) (ext.offset + ext.len)) a2.sorted
        (λ c. (
          (ground arith, ground arith, ground arith, ground arith),
          λ b i. ground (arith, a2.maps b, a1.maps b, t.others b),
        ))
        (λ c. ground arith) in
    rw (next, stop)
      (a3.sorted, λ b. a3.maps b ∙ ground (arith, a2.maps b, a1.maps b, t.others b, t.was b))

-- On a sorted list that has the given unwritten extent, with the block inside it, splitUnwrittenAt
-- keeps the list sorted, maps the block to the same disk block with no flags, and every other block
-- as before.
pub split_unwritten_at-converts :
    (exts : List Extent) (ext : Extent) (iblock : ℕ)
    → AreSorted 0 exts
    → Has ext exts
    → ext.flags ≡ extent_flag_unwritten
    → within ext iblock ≡ true
    → AreSorted 0 (split_unwritten_at exts ext iblock)
      × ((b : ℕ)
          → block_at (split_unwritten_at exts ext iblock) b
            ≡ (if b == iblock then some (ext.phys + (iblock - ext.offset), 0) else block_at exts b))
unfolding split_unwritten_at
split_unwritten_at-converts exts ext iblock s h unwritten inside =
    let t = takes_out 0 exts ext s h in
    let taken = t.taken in
    let same : split_unwritten_at exts ext iblock ≡ split_pieces t.rest ext iblock =
      ground (arith, taken) in
    rw same (split_pieces-converts exts ext iblock t unwritten inside)
