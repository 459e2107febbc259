-- ===== src/Extents/Lookup.antt =====
-- The binary search over a sorted list: `lookupExtent` of fuse/file_ops.go.
use briefs_utils.Base.{ℕ, zero, suc, ◌+◌, ◌-◌, ◌/◌, ◌≤◌, ◌<◌, ◌==◌, ltb, if◌then◌else◌, Bool, true}
use briefs_utils.Base.{
  Option, none, some, List, [], ◌∷◌, length, ◌≡◌, refl, arith, Bool-cases, inl, inr, ◌∙◌, sym,
}
use briefs_utils.Base.Search.{search_range, IsFirstTrue, search_range-first}
use briefs_utils.Extents.{Extent, extent_at, extent_end, lookup_loop, lookup_extent}
use briefs_utils.Extents.Mapping.{
  Has, Block, within, stored, block_at, IsExtent, AreSorted, block_at-below,
}

-- The block that a found extent stores.
abbrev pub found_block : Option Extent → ℕ → Block
found_block none b = none
found_block (some e) b = stored e b

abbrev starts_after : List Extent → ℕ → ℕ → Bool
starts_after exts b i = ltb b (extent_at exts i).offset

lookup_loop_lem :
    (fuel lo hi : ℕ) (exts : List Extent) (b : ℕ)
    → lookup_loop fuel lo hi exts b ≡ search_range fuel lo hi (starts_after exts b)
unfolding lookup_loop search_range
lookup_loop_lem zero lo hi exts b = refl
lookup_loop_lem (suc fuel) lo hi exts b = ground (
  arith,
  lookup_loop_lem fuel ((lo + hi) / 2 + 1) hi exts b,
  lookup_loop_lem fuel lo ((lo + hi) / 2) exts b,
)

offset_above :
    (lo : ℕ) (exts : List Extent) (y : ℕ)
    → AreSorted lo exts
    → y < length exts
    → (lo ≤ (extent_at exts y).offset) × IsExtent (extent_at exts y)
offset_above lo [] y s q = absurd (omega arith)
offset_above lo (e ∷ exts) zero (p, v, s) q = (p, v)
offset_above lo (e ∷ exts) (suc y) (p, v, s) q =
    let (a, w) = offset_above (e.offset + e.len) exts y s (omega arith) in (omega arith, w)

offset_mono :
    (lo : ℕ) (exts : List Extent) (b x y : ℕ)
    → AreSorted lo exts
    → x ≤ y
    → y < length exts
    → starts_after exts b x ≡ true
    → starts_after exts b y ≡ true
offset_mono lo [] b x y s p q t = absurd (omega arith)
offset_mono lo (e ∷ exts) b zero zero s p q t = t
offset_mono lo (e ∷ exts) b zero (suc y) (_, _, s) p q t =
    let (a, w) = offset_above (e.offset + e.len) exts y s (omega arith) in ground (arith, a)
offset_mono lo (e ∷ exts) b (suc x) zero s p q t = absurd (omega arith)
offset_mono lo (e ∷ exts) b (suc x) (suc y) (_, _, s) p q t =
    offset_mono (e.offset + e.len) exts b x y s (omega arith) (omega arith) t

-- What the search looks at, past `r` extents.
abbrev before_index : List Extent → ℕ → ℕ → Block
before_index exts zero b = none
before_index exts (suc r) b =
    let e = extent_at exts r in if ltb b (e.offset + e.len) then stored e b else none

later_index :
    (e : Extent) (exts : List Extent) (b r : ℕ)
    → IsFirstTrue (suc (length exts)) (starts_after (e ∷ exts) b) (suc r)
    → IsFirstTrue (length exts) (starts_after exts b) r
later_index e exts b r f = record {
  within = omega (arith, f.within);
  below = λ x h. f.below (suc x) (omega arith);
  here = λ h. f.here (omega arith);
}

block_at_index :
    (lo : ℕ) (exts : List Extent) (b r : ℕ)
    → AreSorted lo exts
    → IsFirstTrue (length exts) (starts_after exts b) r
    → block_at exts b ≡ before_index exts r b
unfolding block_at
block_at_index lo [] b zero s f = refl
block_at_index lo [] b (suc r) s f = absurd (omega (arith, f.within))
block_at_index lo (e ∷ exts) b zero (p, v, s) f =
    block_at-below (b + 1) (e ∷ exts) b (ground (arith, f.here (omega arith)), v, s) (omega arith)
block_at_index lo (e ∷ exts) b (suc zero) (p, v, s) f = ground (
  arith,
  f.below 0 (omega arith),
  block_at_index (e.offset + e.len) exts b zero s (later_index e exts b zero f),
)
block_at_index lo (e ∷ exts) b (suc (suc r)) (p, v, s) f =
    let ih = block_at_index (e.offset + e.len) exts b (suc r) s (later_index e exts b (suc r) f) in
    let (a, w) = offset_above (e.offset + e.len) exts r s (omega (arith, f.within)) in
    ground (arith, ih, a, f.below (suc r) (omega arith))

extent_at-Has : (exts : List Extent) (y : ℕ) → y < length exts → Has (extent_at exts y) exts
extent_at-Has [] y h = absurd (omega arith)
extent_at-Has (e ∷ exts) zero h = inl refl
extent_at-Has (e ∷ exts) (suc y) h = inr (extent_at-Has exts y (omega arith))

-- The test of the code and the one that does not wrap agree within the list.
before_index-lookup :
    (exts : List Extent) (b r : ℕ)
    → AreSorted 0 exts
    → IsFirstTrue (length exts) (starts_after exts b) r
    → (found_block
          (if r == 0
            then none
            else if ltb b (extent_end (extent_at exts (r - 1)))
            then some (extent_at exts (r - 1))
            else none)
          b
        ≡ before_index exts r b)
      × ((e : Extent)
          → (if r == 0
              then none
              else if ltb b (extent_end (extent_at exts (r - 1)))
              then some (extent_at exts (r - 1))
              else none)
            ≡ some e
          → (within e b ≡ true) × Has e exts)
before_index-lookup exts b zero s f = (refl, λ e i. cc)
before_index-lookup exts b (suc r) s f =
    let (_, v) = offset_above 0 exts r s (omega (arith, f.within)) in
    let fits : extent_end (extent_at exts r) ≡ (extent_at exts r).offset + (extent_at exts r).len =
      omega (arith, v) in
    let same : (suc r) - 1 ≡ r = omega arith in
    rw (same, fits)
      (elim (Bool-cases (ltb b ((extent_at exts r).offset + (extent_at exts r).len))) [
        | inl h ↦ rw h (
          ground arith,
          λ e i.
              let q : extent_at exts r ≡ e = ground (arith, i) in
              (
                ground (arith, q, h, f.below r (omega arith)),
                rw (sym q) (extent_at-Has exts r (omega (arith, f.within))),
              ),
        )
        | inr h ↦ rw h (ground arith, λ e i. ground (arith, h))
      ])

-- On a sorted list the binary search of lookupExtent finds the disk block and the flags that the
-- list maps the block to, and nothing where the list has a hole, and the extent it returns is one
-- of the list and holds the block.
pub lookup_extent-block_at :
    (exts : List Extent) (b : ℕ)
    → AreSorted 0 exts
    → (found_block (lookup_extent exts b) b ≡ block_at exts b)
      × ((e : Extent) → lookup_extent exts b ≡ some e → (within e b ≡ true) × Has e exts)
unfolding lookup_extent
lookup_extent-block_at exts b s =
    let f : IsFirstTrue (length exts) (starts_after exts b)
        (search_range (length exts) 0 (length exts) (starts_after exts b)) =
      search_range-first (length exts) (starts_after exts b)
        (λ x y p q. offset_mono 0 exts b x y s p q) (length exts) 0 (length exts) (omega arith)
        (omega arith) (omega arith) (λ x h. absurd (omega arith)) (λ h. absurd (omega arith)) in
    rw (lookup_loop_lem (length exts) 0 (length exts) exts b) (
      let (same, inside) = before_index-lookup exts b _ s f in
      (same ∙ sym (block_at_index 0 exts b _ s f), inside))
