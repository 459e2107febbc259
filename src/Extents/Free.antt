-- ===== src/Extents/Free.antt =====
-- Punching a hole in an extent list: `freeExtentRange` of fuse/extent_ops.go.
use briefs_utils.Base.{ℕ, ◌+◌, ◌-◌, ◌≤◌, ◌<◌, ltb, leb, min, max, if◌then◌else◌, Bool, true, ◌&&◌}
use briefs_utils.Base.{none, some, List, [], ◌∷◌, ◌++◌, ◌≡◌, arith, Bool-cases, inl, inr, ◌∙◌}
use mathlib.Core.List.{append_assoc}
use briefs_utils.Runs.{BlockRun}
use briefs_utils.Extents.{Extent, free_piece, free_extent_range}
use briefs_utils.Extents.Mapping.{
  within, stored, block_at, IsExtent, AreSorted, in_runs, in_runs-append,
}
use briefs_utils.Extents.Mapping.{block_at-append, block_at-below}
use briefs_utils.Extents.Clip.{
  clip, block_at-clip_down, clip-AreSorted, in_runs-clip_run, free_piece_lem,
}

module _ (s e : ℕ) (ordered : s ≤ e) where
  abbrev pub punched : ℕ → Bool
  punched b = leb s b && ltb b e

  -- The new list is the old one without the range; the freed runs are the disk blocks of the range.
  pub record Punches (lo : ℕ) (exts : List Extent) (result : List Extent × List BlockRun)
      : Type 0 where
    pub sorted : AreSorted lo result.0
    pub kept : (b : ℕ) → block_at result.0 b ≡ (if punched b then none else block_at exts b)
    pub freed_sound :
        (y : ℕ)
        → in_runs result.1 y ≡ true
        → (b : ℕ) × (f : ℕ) × (s ≤ b) × (b < e) × (block_at exts b ≡ some (y, f))
    pub freed_complete :
        (b y f : ℕ) → s ≤ b → b < e → block_at exts b ≡ some (y, f) → in_runs result.1 y ≡ true

  piece_at :
      (x : Extent)
      → IsExtent x
      → (b : ℕ)
      → block_at (free_piece s e x).0 b
        ≡ (if punched b then none else if within x b then stored x b else none)
  piece_at x v b = rw (free_piece_lem x v s e ordered) (
      block_at-append (clip x.offset x.offset (min s (x.offset + x.len)) x) _ b
      ∙ ground (
        arith,
        block_at-clip_down x v x.offset x.offset (min s (x.offset + x.len)) 0 b,
        block_at-clip_down x v (max e x.offset) (max e x.offset) (x.offset + x.len) 0 b,
      ))

  kept_at :
      (lo : ℕ) (exts : List Extent)
      → AreSorted lo exts
      → (b : ℕ)
      → block_at (free_extent_range exts s e).0 b ≡ (if punched b then none else block_at exts b)
  unfolding free_extent_range block_at
  kept_at lo [] h b = ground arith
  kept_at lo (x ∷ exts) (p, v, h) b =
      block_at-append (free_piece s e x).0 _ b
      ∙ ground (
        arith,
        piece_at x v b,
        kept_at (x.offset + x.len) exts h b,
        block_at-below (x.offset + x.len) exts b h,
      )

  kept-AreSorted :
      (lo : ℕ) (exts : List Extent)
      → AreSorted lo exts
      → AreSorted lo (free_extent_range exts s e).0
  unfolding free_extent_range
  kept-AreSorted lo [] h = tt
  kept-AreSorted lo (x ∷ exts) (p, v, h) = sorted (kept-AreSorted (x.offset + x.len) exts h)
    where
      sorted :
          AreSorted (x.offset + x.len) (free_extent_range exts s e).0
          → AreSorted lo ((free_piece s e x).0 ++ (free_extent_range exts s e).0)
      sorted ih =
          rw (free_piece_lem x v s e ordered, append_assoc)
            (clip-AreSorted x v x.offset x.offset (min s (x.offset + x.len)) lo
              (min (max e x.offset) (x.offset + x.len)) _ (omega arith) (omega arith) (omega arith)
              (λ q. (p, omega arith, omega arith))
              (clip-AreSorted x v (max e x.offset) (max e x.offset) (x.offset + x.len) _
                (x.offset + x.len) _ (omega arith) (omega arith) (omega arith)
                (λ q. (omega arith, omega arith, omega arith)) ih))

  -- What the piece frees of one extent: the disk blocks of its blocks in the range.
  piece_freed :
      (x : Extent)
      → IsExtent x
      → (y : ℕ)
      → in_runs (free_piece s e x).1 y
        ≡ (leb x.phys y && ltb y (x.phys + x.len) && punched (x.offset + (y - x.phys)))
  piece_freed x v y =
      rw (free_piece_lem x v s e ordered)
        (ground (arith, in_runs-clip_run x v (max s x.offset) (min e (x.offset + x.len)) y))

  freed_sound :
      (lo : ℕ) (exts : List Extent)
      → AreSorted lo exts
      → (y : ℕ) → in_runs (free_extent_range exts s e).1 y ≡ true
      → (b : ℕ) × (f : ℕ) × (s ≤ b) × (b < e) × (block_at exts b ≡ some (y, f))
  unfolding free_extent_range in_runs block_at
  freed_sound lo [] h y i = cc
  freed_sound lo (x ∷ exts) (p, v, h) y i = by_piece (freed_sound (x.offset + x.len) exts h y)
    where
      by_piece :
          (in_runs (free_extent_range exts s e).1 y ≡ true
            → (b : ℕ) × (f : ℕ) × (s ≤ b) × (b < e) × (block_at exts b ≡ some (y, f)))
          → (b : ℕ) × (f : ℕ) × (s ≤ b) × (b < e) × (block_at (x ∷ exts) b ≡ some (y, f))
      by_piece later = elim (Bool-cases (in_runs (free_piece s e x).1 y)) [
        | inl here ↦ (
          x.offset + (y - x.phys),
          x.flags,
          ground (arith, here, piece_freed x v y),
          ground (arith, here, piece_freed x v y),
          ground (arith, here, piece_freed x v y),
        )
        | inr none_here ↦
            let (b, f, q, r, at_b) = later (
              ground (
                arith,
                i,
                none_here,
                in_runs-append (free_piece s e x).1 (free_extent_range exts s e).1 y,
              )) in
            (b, f, q, r, ground (arith, at_b, block_at-below (x.offset + x.len) exts b h))
      ]

  freed_complete :
      (lo : ℕ) (exts : List Extent)
      → AreSorted lo exts
      → (b y f : ℕ) → s ≤ b
      → b < e
      → block_at exts b ≡ some (y, f)
      → in_runs (free_extent_range exts s e).1 y ≡ true
  unfolding free_extent_range in_runs block_at
  freed_complete lo [] h b y f q r at_b = cc
  freed_complete lo (x ∷ exts) (p, v, h) b y f q r at_b =
      in_runs-append (free_piece s e x).1 (free_extent_range exts s e).1 y
      ∙ elim (Bool-cases (within x b)) [
        | inl here ↦
            let same : x.phys + (b - x.offset) ≡ y = ground (arith, here, at_b) in
            ground (arith, here, piece_freed x v y)
        | inr there ↦
            let later =
              freed_complete (x.offset + x.len) exts h b y f q r (ground (arith, there, at_b)) in
            ground (arith, later)
      ]

  -- On a sorted list freeExtentRange, whose range does not end before it starts, unmaps exactly the
  -- blocks of the range, leaves the others mapped as they were in a sorted list, and the runs that
  -- it frees hold exactly the disk blocks that the range was mapped to.
  pub free_extent_range-Punches :
      (lo : ℕ) (exts : List Extent)
      → AreSorted lo exts
      → Punches lo exts (free_extent_range exts s e)
  free_extent_range-Punches lo exts h = record {
    sorted = kept-AreSorted lo exts h;
    kept = kept_at lo exts h;
    freed_sound = freed_sound lo exts h;
    freed_complete = freed_complete lo exts h;
  }
