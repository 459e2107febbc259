-- ===== src/Files/Round.antt =====
-- One round of `writeExtentData`: what it changes is the bytes of its segment.
use briefs_utils.Base.{
  ℕ, zero, suc, ◌+◌, ◌-◌, ◌≤◌, ◌<◌, ◌==◌, bit_and, if◌then◌else◌, Bool, true, false, get_or,
}
use briefs_utils.Base.{
  none, some, List, ◌≡◌, ◌≢◌, refl, ap, arith, Bool-cases, Option-cases, inl, inr, ◌∙◌, sym,
}
use briefs_utils.Base.Words.{u64}
use briefs_utils.Extents.{
  Extent, extent, extent_flag_unwritten, lookup_extent, insert_extent_sorted,
}
use briefs_utils.Extents.Mapping.{Has, IsExtent, block_at, within}
use briefs_utils.Extents.Insert.{insert_extent_sorted-Adds}
use briefs_utils.Extents.Lookup.{lookup_extent-block_at}
use briefs_utils.Extents.Split.{split_unwritten_at-converts, Has-above}
use briefs_utils.Runs.{add_block}
use briefs_utils.Files.{
  Writing, Written, and_then, Segment, patch, write_block, zero_block, is_unwritten, write_mapped,
  write_hole, write_segment,
}
use briefs_utils.Files.Content.{file_byte, block_byte, IsAllocator, IsMapped, remap_lem}
use briefs_utils.Files.Put.{IsSegment, in_segment, put_lem}

-- The new state has the bytes of the segment, and the old bytes elsewhere.
pub record Wrote {S : Type 0} (bs start : ℕ) (in_use : S → ℕ → Bool) (bytes : List ℕ)
    (seg : Segment) (w w' : Writing S) : Type 0 where
  pub mapped : IsMapped start in_use w'.exts w'.free
  pub content :
      (i : ℕ)
      → file_byte bs w'.exts w'.dev i ≡ (
          if in_segment seg i
          then get_or bytes (seg.pos + (i - seg.seg_start)) 0
          else file_byte bs w.exts w.dev i)

-- Either the write ends in a state with `P`, or the allocator had no block to give.
abbrev pub Ends : {S : Type 0} → (S → S × ℕ) → (Writing S → Type 0) → Written S → Type 0
Ends {S} alloc_block P (Written.done w) = P w
Ends {S} alloc_block P (Written.no_space w) = (s : S) × (alloc_block s ≡ (w.free, 0))

pub Ends-weaken :
    {S : Type 0} (alloc_block : S → S × ℕ) (P Q : Writing S → Type 0) (r : Written S)
    → Ends alloc_block P r
    → ((w : Writing S) → P w → Q w)
    → Ends alloc_block Q r
Ends-weaken alloc_block P Q (Written.done w) p h = h w p
Ends-weaken alloc_block P Q (Written.no_space w) p h = p

pub Ends-and_then :
    {S : Type 0} (alloc_block : S → S × ℕ) (P Q : Writing S → Type 0) (r : Written S)
    (k : Writing S → Written S)
    → Ends alloc_block P r
    → ((w : Writing S) → P w → Ends alloc_block Q (k w))
    → Ends alloc_block Q (and_then r k)
Ends-and_then alloc_block P Q (Written.done w) k p h = h w p
Ends-and_then alloc_block P Q (Written.no_space w) k p h = p

-- The tests on the flags of an extent that has at most the unwritten one.
flag_lem : (f : ℕ) → f ≤ 1 → (bit_and f extent_flag_unwritten == 0) ≡ (f == 0)
flag_lem zero h = refl
flag_lem (suc zero) h = refl
flag_lem (suc (suc f)) h = absurd (omega arith)

module _ {S : Type 0} (start : ℕ) (in_use : S → ℕ → Bool) (alloc_block : S → S × ℕ)
    (allocator : IsAllocator start in_use alloc_block) (bs : ℕ) (sized : 0 < bs) (bytes : List ℕ)
    (seg : Segment) (s : IsSegment bs seg) (w : Writing S)
    (m : IsMapped start in_use w.exts w.free) where
  -- The extent that the search found, as the mapping knows it.
  record FoundExtent (ext : Extent) : Type 0 where
    at_block : block_at w.exts seg.iblock ≡ some (ext.phys + (seg.iblock - ext.offset), ext.flags)
    no_wrap : u64 (ext.phys + (seg.iblock - ext.offset)) ≡ ext.phys + (seg.iblock - ext.offset)
    one_flag : ext.flags ≤ 1

  found_lem : (ext : Extent) → lookup_extent w.exts seg.iblock ≡ some ext → FoundExtent ext
  found_lem ext found =
      let (same, inside) = lookup_extent-block_at w.exts seg.iblock m.sorted in
      let (i, has) = inside ext found in
      let (_, v) = Has-above 0 w.exts ext m.sorted has in
      let at_block : block_at w.exts seg.iblock
          ≡ some (ext.phys + (seg.iblock - ext.offset), ext.flags) =
        ground (arith, same, found) in
      record {
        at_block = at_block;
        no_wrap = ground (arith, v, i);
        one_flag = m.flags seg.iblock _ ext.flags at_block;
      }

  -- The disk block of another block of the file is another one.
  apart_lem :
      (abs f : ℕ)
      → block_at w.exts seg.iblock ≡ some (abs, f)
      → (b p g : ℕ) → (b == seg.iblock) ≡ false
      → block_at w.exts b ≡ some (p, g)
      → p ≢ abs
  apart_lem abs f at_abs b p g other at_p same =
      let e = m.apart b seg.iblock p g f at_p (at_abs ∙ ap (λ (x : ℕ). some (x, f)) (sym same)) in
      ground (arith, e, other)

  overwrite :
      (ext : Extent)
      → FoundExtent ext
      → is_unwritten ext ≡ false
      → Wrote bs start in_use bytes seg w (write_mapped bs bytes seg ext w)
  unfolding write_mapped block_byte
  overwrite ext f written =
      let flag : ext.flags ≡ 0 = ground (arith, flag_lem ext.flags f.one_flag, written) in
      let no_wrap = f.no_wrap in
      let here : block_at w.exts seg.iblock ≡ some (ext.phys + (seg.iblock - ext.offset), 0) =
        f.at_block ∙ ap (λ (x : ℕ). some (ext.phys + (seg.iblock - ext.offset), x)) flag in
      rw (written, no_wrap)
        (record {
          mapped = m;
          content =
              put_lem bs sized bytes seg s w.exts w.exts w.dev _ _ here (λ b _. refl)
                (apart_lem _ _ here)
                (λ k h out. rw (here) (ground (arith, h, out, s.after, s.before, s.ordered)));
        })

  convert :
      (ext : Extent)
      → FoundExtent ext
      → Has ext w.exts
      → within ext seg.iblock ≡ true
      → is_unwritten ext ≡ true
      → Wrote bs start in_use bytes seg w (write_mapped bs bytes seg ext w)
  unfolding write_mapped block_byte
  convert ext f has inside unwritten =
      let flag : ext.flags ≡ 1 = ground (arith, flag_lem ext.flags f.one_flag, unwritten) in
      let no_wrap = f.no_wrap in
      let at_block = f.at_block in
      let (sorted, maps) =
        split_unwritten_at-converts w.exts ext seg.iblock m.sorted has flag inside in
      rw (unwritten, no_wrap)
        (record {
          mapped =
              remap_lem start in_use w.exts _ w.free w.free seg.iblock _ m maps
                (m.owned seg.iblock _ _ at_block).0 (m.owned seg.iblock _ _ at_block).1 (λ x u. u)
                (apart_lem _ _ at_block) sorted;
          content =
              put_lem bs sized bytes seg s w.exts _ w.dev _ _ (ground (arith, maps seg.iblock))
                (λ b other. ground (arith, maps b, other)) (apart_lem _ _ at_block)
                (λ k h out. rw (at_block, flag) refl);
        })

  write_mapped-Wrote :
      (ext : Extent)
      → lookup_extent w.exts seg.iblock ≡ some ext
      → Wrote bs start in_use bytes seg w (write_mapped bs bytes seg ext w)
  write_mapped-Wrote ext found =
      let (_, inside) = lookup_extent-block_at w.exts seg.iblock m.sorted in
      let (i, has) = inside ext found in
      let f = found_lem ext found in
      elim (Bool-cases (is_unwritten ext)) [
        | inl unwritten ↦ convert ext f has i unwritten
        | inr written ↦ overwrite ext f written
      ]

  -- The state after a hole got block `rel`.
  abbrev filled : Writing S
  filled = record {
    exts =
        insert_extent_sorted w.exts (extent seg.iblock (u64 (start + (alloc_block w.free).1)) 1 0);
    dev = write_block w.dev (u64 (start + (alloc_block w.free).1)) (patch bytes seg zero_block);
    free = (alloc_block w.free).0;
    allocated = add_block w.allocated (alloc_block w.free).1;
    rebuild = true;
  }

  fill_hole :
      lookup_extent w.exts seg.iblock ≡ none
      → (alloc_block w.free).1 ≢ 0
      → Wrote bs start in_use bytes seg w filled
  unfolding block_byte
  fill_hole not_found got =
      let (same, _) = lookup_extent-block_at w.exts seg.iblock m.sorted in
      let hole : block_at w.exts seg.iblock ≡ none = ground (arith, same, not_found) in
      let rel = (alloc_block w.free).1 in
      let fits = allocator.fits w.free in
      let abs : u64 (start + rel) ≡ start + rel = omega (arith, fits) in
      let new : Extent = extent seg.iblock (start + rel) 1 0 in
      let v : IsExtent new =
        (omega arith, ground (arith, got), omega (arith, s.fits), omega (arith, fits)) in
      let a =
        insert_extent_sorted-Adds new v w.exts m.sorted
          (λ b i. let e : b ≡ seg.iblock = ground (arith, i) in rw e hole) in
      let maps : (b : ℕ)
          → block_at (insert_extent_sorted w.exts new) b
            ≡ (if b == seg.iblock then some (start + rel, 0) else block_at w.exts b) =
        λ b. a.maps b ∙ ground arith in
      let other : (b p g : ℕ)
          → (b == seg.iblock) ≡ false
          → block_at w.exts b ≡ some (p, g)
          → p ≢ start + rel =
        λ b p g _ at_p same'.
          let (q, u) = m.owned b p g at_p in
          let back : p - start ≡ rel = omega arith in
          cc (u, allocator.fresh w.free got, ap (in_use w.free) back) in
      let used : in_use (alloc_block w.free).0 (start + rel - start) ≡ true =
        let back : start + rel - start ≡ rel = omega arith in
        rw back (allocator.taken w.free got) in
      rw abs (record {
        mapped =
            remap_lem start in_use w.exts _ w.free _ seg.iblock _ m maps (omega arith) used
              (allocator.keeps w.free) other a.sorted;
        content =
            put_lem bs sized bytes seg s w.exts _ w.dev _ _ (ground (arith, maps seg.iblock))
              (λ b e. ground (arith, maps b, e)) other (λ k h out. rw hole refl);
      })

  write_hole-Ends :
      lookup_extent w.exts seg.iblock ≡ none
      → Ends alloc_block
          (Wrote bs start in_use bytes seg w)
          (write_hole alloc_block start bytes seg w)
  unfolding write_hole
  write_hole-Ends not_found = elim (Bool-cases ((alloc_block w.free).1 == 0)) [
    | inl full ↦
        let e : (alloc_block w.free).1 ≡ 0 = ground (arith, full) in
        rw full (w.free, λ i. ((alloc_block w.free).0, e i))
    | inr got ↦ rw got (fill_hole not_found (ground (arith, got)))
  ]

  pub write_segment-Ends :
      Ends alloc_block
        (Wrote bs start in_use bytes seg w)
        (write_segment alloc_block bs start bytes seg w)
  unfolding write_segment
  write_segment-Ends = elim (Option-cases (lookup_extent w.exts seg.iblock)) [
    | inl hole ↦
        let same : write_segment alloc_block bs start bytes seg w
            ≡ write_hole alloc_block start bytes seg w =
          ground (arith, hole) in
        rw same (write_hole-Ends hole)
    | inr (ext, found) ↦
        let same : write_segment alloc_block bs start bytes seg w
            ≡ Written.done (write_mapped bs bytes seg ext w) =
          ground (arith, found) in
        rw same (write_mapped-Wrote ext found)
  ]
