-- ===== src/Extents/Insert.antt =====
-- Adding an extent to a sorted list, merged with its neighbours: `insertExtentSorted` of
-- fuse/file_ops.go.
use briefs_utils.Base.{ℕ, ◌+◌, ◌≤◌, leb, max, if◌then◌else◌, true}
use briefs_utils.Base.{none, List, [], ◌∷◌, ◌≡◌, refl, arith, Bool-cases, inl, inr, ◌∙◌, ◌⊎◌}
use briefs_utils.Extents.{
  Extent, insert_before, insert_between, insert_after, insert_extent_sorted, adjacent, grown,
}
use briefs_utils.Extents.Mapping.{
  Block, within, stored, block_at, IsExtent, AreSorted, AreSorted-weaken,
}

abbrev pub with_extent : Extent → List Extent → ℕ → Block
with_extent ext exts b = if within ext b then stored ext b else block_at exts b

-- The sorted list `result` maps what `exts` maps, and `ext`.
pub record Adds (lo : ℕ) (exts : List Extent) (ext : Extent) (result : List Extent) : Type 0 where
  pub sorted : AreSorted lo result
  pub maps : (b : ℕ) → block_at result b ≡ with_extent ext exts b

-- Two adjacent extents and the one that they merge into map the same.
record Merges (left right : Extent) : Type 0 where
  is_extent : IsExtent (grown left right)
  same_start : (grown left right).offset ≡ left.offset
  same_end : (grown left right).offset + (grown left right).len ≡ right.offset + right.len
  maps :
      (b : ℕ) (m : Block)
      → (if within (grown left right) b then stored (grown left right) b else m)
        ≡ (if within right b then stored right b else if within left b then stored left b else m)

merge_lem :
    (left right : Extent)
    → IsExtent left
    → IsExtent right
    → adjacent left right ≡ true
    → Merges left right
merge_lem left right v w e = record {
  is_extent = ground (arith, v, w, e);
  same_start = refl;
  same_end = ground (arith, v, w, e);
  maps = λ b m. ground (arith, v, w, e);
}

module _ (ext : Extent) (v : IsExtent ext) where
  insert_before-Adds :
      (lo : ℕ) (exts : List Extent)
      → lo ≤ ext.offset
      → AreSorted (ext.offset + ext.len) exts
      → Adds lo exts ext (insert_before ext exts)
  unfolding block_at
  insert_before-Adds lo [] p s = record { sorted = (p, v, tt); maps = λ b. refl }
  insert_before-Adds lo (right ∷ exts) p (q, w, s) = elim (Bool-cases (adjacent ext right)) [
    | inl e ↦
        rw e (record { sorted = ground (arith, v, w, s, e); maps = λ b. ground (arith, v, w, e) })
    | inr e ↦ rw e (record { sorted = (p, v, (q, w, s)); maps = λ b. refl })
  ]

  insert_between-Adds :
      (lo : ℕ) (left : Extent) (exts : List Extent)
      → lo ≤ left.offset
      → IsExtent left
      → left.offset + left.len ≤ ext.offset
      → AreSorted (ext.offset + ext.len) exts
      → Adds lo (left ∷ exts) ext (insert_between left ext exts)
  unfolding block_at
  insert_between-Adds lo left [] p w q s = elim (Bool-cases (adjacent left ext)) [
    | inl e ↦
        let m = merge_lem left ext w v e in
        rw e (record { sorted = (p, m.is_extent, tt); maps = λ b. m.maps b none })
    | inr e ↦ rw e (record { sorted = (p, w, (q, v, tt)); maps = λ b. ground (arith, w, q) })
  ]
  insert_between-Adds lo left (right ∷ exts) p w q (r, u, s) =
      elim (Bool-cases (adjacent left ext)) [
        | inl e ↦
            let m = merge_lem left ext w v e in
            elim (Bool-cases (adjacent (grown left ext) right)) [
              | inl e' ↦
                  let m' = merge_lem (grown left ext) right m.is_extent u e' in
                  rw (e, e')
                    (record {
                      sorted = (
                        p,
                        m'.is_extent,
                        AreSorted-weaken _ (right.offset + right.len) exts
                            (omega (arith, m'.same_end)) s,
                      );
                      maps = λ b.
                          m'.maps b (block_at exts b)
                          ∙ ground (arith, m.maps b (block_at exts b), q, r);
                    })
              | inr e' ↦
                  rw (e, e')
                    (record {
                      sorted = (p, m.is_extent, (omega (arith, m.same_end), u, s));
                      maps = λ b. m.maps b (block_at (right ∷ exts) b);
                    })
            ]
        | inr e ↦
            let a = insert_before-Adds (left.offset + left.len) (right ∷ exts) q (r, u, s) in
            rw e (record { sorted = (p, w, a.sorted); maps = λ b. ground (arith, a.maps b, w, q) })
      ]

  -- The extent that is added lies outside every extent of the list.
  abbrev pub Apart : List Extent → Type 0
  Apart [] = Unit {0}
  Apart (e ∷ exts) =
      ((ext.offset + ext.len ≤ e.offset) ⊎ (e.offset + e.len ≤ ext.offset)) × Apart exts

  -- Past an extent that follows it, so are the others.
  insert_after-Adds :
      (lo : ℕ) (left : Extent) (exts : List Extent)
      → lo ≤ left.offset
      → IsExtent left
      → left.offset + left.len ≤ ext.offset
      → AreSorted (left.offset + left.len) exts
      → Apart exts
      → Adds lo (left ∷ exts) ext (insert_after left ext exts)
  unfolding insert_after block_at
  insert_after-Adds lo left [] p w q s a = insert_between-Adds lo left [] p w q tt
  insert_after-Adds lo left (right ∷ exts) p w q (r, u, s) (a, as') =
      elim (Bool-cases (leb ext.offset right.offset)) [
        | inl e ↦
            rw e (insert_between-Adds lo left (right ∷ exts) p w q (ground (arith, a, e, u), u, s))
        | inr e ↦
            let b =
              insert_after-Adds (left.offset + left.len) right exts r u (ground (arith, a, e, v)) s
                as' in
            rw e (record { sorted = (p, w, b.sorted); maps = λ y. ground (arith, b.maps y, q) })
      ]

  apart_lem :
      (lo : ℕ) (exts : List Extent)
      → AreSorted lo exts
      → ((b : ℕ) → within ext b ≡ true → block_at exts b ≡ none)
      → Apart exts
  unfolding block_at
  apart_lem lo [] s h = tt
  apart_lem lo (e ∷ exts) (p, w, s) h = (
    ground (arith, h (max e.offset ext.offset), v, w),
    apart_lem (e.offset + e.len) exts s (λ b i. ground (arith, h b i)),
  )

  -- Adding a mapped extent, over blocks that no extent of a sorted list maps, gives a sorted list
  -- that maps what the list maps and the extent's blocks to the extent, with no other change.
  pub insert_extent_sorted-Adds :
      (exts : List Extent)
      → AreSorted 0 exts
      → ((b : ℕ) → within ext b ≡ true → block_at exts b ≡ none)
      → Adds 0 exts ext (insert_extent_sorted exts ext)
  unfolding insert_extent_sorted block_at
  insert_extent_sorted-Adds [] s h = record { sorted = (omega arith, v, tt); maps = λ b. refl }
  insert_extent_sorted-Adds (first ∷ exts) (p, w, s) h =
      let (a, as') = apart_lem 0 (first ∷ exts) (p, w, s) h in
      elim (Bool-cases (leb ext.offset first.offset)) [
        | inl e ↦
            rw e (insert_before-Adds 0 (first ∷ exts) (omega arith) (ground (arith, a, e, w), w, s))
        | inr e ↦ rw e (insert_after-Adds 0 first exts p w (ground (arith, a, e, v)) s as')
      ]
