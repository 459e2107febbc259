-- ===== src/Extents/Shift.antt =====
-- Collapsing a range of a file, and opening one: `shiftExtents` of fuse/extent_ops.go.
use briefs_utils.Base.{ℕ, ◌+◌, ◌-◌, ◌≤◌, ◌<◌, ◌^◌, ltb, leb, min, max, if◌then◌else◌, true, false}
use briefs_utils.Base.{none, some, List, [], ◌∷◌, ◌++◌, ◌≡◌, refl, ap, arith, ◌∙◌, sym}
use briefs_utils.Base.Bytes.{All}
use mathlib.Core.List.{append_assoc}
use briefs_utils.Runs.{BlockRun}
use briefs_utils.Extents.{
  Extent, collapse_piece, collapse_pieces, insert_piece, insert_pieces, insert_all,
  insert_extent_sorted, shift_extents, free_extent_range,
}
use briefs_utils.Extents.Mapping.{
  within, stored, block_at, IsExtent, AreSorted, AreSorted-weaken, in_runs, or_else,
}
use briefs_utils.Extents.Mapping.{block_at-append, block_at-below}
use briefs_utils.Extents.Clip.{
  clip, clip_run, block_at-clip_down, block_at-clip_up, clip-AreSorted, free_piece_lem,
  collapse_piece_lem, insert_piece_lem,
}
use briefs_utils.Extents.Insert.{insert_extent_sorted-Adds}
use briefs_utils.Extents.Free.{free_extent_range-Punches}

-- Sorted pieces that follow a list are added at its end.
pub insert_all_lem :
    (pieces exts : List Extent) (lo : ℕ)
    → AreSorted 0 exts
    → ((b : ℕ) → lo ≤ b → block_at exts b ≡ none)
    → AreSorted lo pieces
    → AreSorted 0 (insert_all exts pieces)
      × ((b : ℕ)
          → block_at (insert_all exts pieces) b ≡ or_else (block_at exts b) (block_at pieces b))
unfolding insert_all block_at
insert_all_lem [] exts lo s h t = (s, λ b. ground arith)
insert_all_lem (p ∷ pieces) exts lo s h (q, v, t) =
    let a = insert_extent_sorted-Adds p v exts s (λ b i. h b (ground arith)) in
    let (sorted, maps) =
      insert_all_lem pieces (insert_extent_sorted exts p) (p.offset + p.len) a.sorted
        (λ b k. ground (arith, a.maps b, h b)) t in
    (
      sorted,
      λ b. maps b ∙ ground (arith, a.maps b, h b, block_at-below (p.offset + p.len) pieces b t),
    )

module _ (s l : ℕ) (fits : s + l < 2 ^ 64) where
  -- A bound on where the blocks from `lo` on go.
  abbrev down : ℕ → ℕ
  down lo = min lo (max s (lo - l))

  collapsed_sorted :
      (lo : ℕ) (exts : List Extent)
      → AreSorted lo exts
      → AreSorted (down lo) (collapse_pieces s l exts).0
  unfolding collapse_pieces
  collapsed_sorted lo [] h = tt
  collapsed_sorted lo (x ∷ exts) (p, v, h) = sorted (collapsed_sorted (x.offset + x.len) exts h)
    where
      sorted :
          AreSorted (down (x.offset + x.len)) (collapse_pieces s l exts).0
          → AreSorted (down lo) ((collapse_piece s l x).0 ++ (collapse_pieces s l exts).0)
      sorted ih =
          rw (collapse_piece_lem x v s l fits, append_assoc)
            (clip-AreSorted x v x.offset x.offset (min s (x.offset + x.len)) (down lo)
              (max (down lo) (min s (x.offset + x.len))) _ (omega arith) (omega arith) (omega arith)
              (λ q. (omega arith, omega arith, omega arith))
              (clip-AreSorted x v (max (s + l) x.offset - l) (max (s + l) x.offset)
                (x.offset + x.len) _ (down (x.offset + x.len)) _ (omega arith) (omega arith)
                (omega arith) (λ q. (omega arith, omega arith, omega arith)) ih))

  collapsed_piece_at :
      (x : Extent)
      → IsExtent x
      → (b : ℕ)
      → block_at (collapse_piece s l x).0 b
        ≡ (let c = if ltb b s then b else b + l in if within x c then stored x c else none)
  collapsed_piece_at x v b = rw (collapse_piece_lem x v s l fits) (
      block_at-append (clip x.offset x.offset (min s (x.offset + x.len)) x) _ b
      ∙ ground (
        arith,
        block_at-clip_down x v x.offset x.offset (min s (x.offset + x.len)) 0 b,
        block_at-clip_down x v (max (s + l) x.offset - l) (max (s + l) x.offset) (x.offset + x.len)
            l b,
      ))

  collapsed_at :
      (lo : ℕ) (exts : List Extent)
      → AreSorted lo exts
      → (b : ℕ)
      → block_at (collapse_pieces s l exts).0 b ≡ block_at exts (if ltb b s then b else b + l)
  unfolding collapse_pieces block_at
  collapsed_at lo [] h b = refl
  collapsed_at lo (x ∷ exts) (p, v, h) b =
      block_at-append (collapse_piece s l x).0 _ b
      ∙ ground (arith, collapsed_piece_at x v b, collapsed_at (x.offset + x.len) exts h b)

  -- A collapse frees what a punch of the same range frees.
  collapsed_freed :
      (lo : ℕ) (exts : List Extent)
      → AreSorted lo exts
      → (collapse_pieces s l exts).1 ≡ (free_extent_range exts s (s + l)).1
  unfolding collapse_pieces free_extent_range
  collapsed_freed lo [] h = refl
  collapsed_freed lo (x ∷ exts) (p, v, h) =
      rw (collapse_piece_lem x v s l fits, free_piece_lem x v s (s + l) (omega arith))
        (ap
          (λ (r : List BlockRun). clip_run (max s x.offset) (min (s + l) (x.offset + x.len)) x ++ r)
          (collapsed_freed (x.offset + x.len) exts h))

  -- The blocks from `s` on move up by `l`.
  abbrev up : ℕ → ℕ
  up lo = if leb lo s then lo else lo + l

  abbrev pub Fits : Extent → Type 0
  Fits e = e.offset + e.len + l < 2 ^ 64

  opened_sorted :
      (lo : ℕ) (exts : List Extent)
      → AreSorted lo exts
      → All Fits exts
      → AreSorted (up lo) (insert_pieces s l exts)
  unfolding insert_pieces
  opened_sorted lo [] h f = tt
  opened_sorted lo (x ∷ exts) (p, v, h) (f, fs) =
      sorted (opened_sorted (x.offset + x.len) exts h fs)
    where
      sorted :
          AreSorted (up (x.offset + x.len)) (insert_pieces s l exts)
          → AreSorted (up lo) (insert_piece s l x ++ insert_pieces s l exts)
      sorted ih =
          rw (insert_piece_lem x v s l f fits, append_assoc)
            (clip-AreSorted x v x.offset x.offset (min s (x.offset + x.len)) (up lo)
              (max (up lo) (min s (x.offset + x.len))) _ (omega arith) (omega arith) (omega arith)
              (λ q. (ground arith, omega arith, omega arith))
              (clip-AreSorted x v (max s x.offset + l) (max s x.offset) (x.offset + x.len) _
                (up (x.offset + x.len)) _ (omega arith) (omega arith) (ground arith)
                (λ q. (ground arith, ground arith, omega arith)) ih))

  opened_piece_at :
      (x : Extent)
      → IsExtent x
      → Fits x
      → (b : ℕ)
      → block_at (insert_piece s l x) b ≡ (
          if ltb b s
          then (if within x b then stored x b else none)
          else if ltb b (s + l)
          then none
          else if within x (b - l)
          then stored x (b - l)
          else none)
  opened_piece_at x v f b = rw (insert_piece_lem x v s l f fits) (
      block_at-append (clip x.offset x.offset (min s (x.offset + x.len)) x) _ b
      ∙ ground (
        arith,
        block_at-clip_down x v x.offset x.offset (min s (x.offset + x.len)) 0 b,
        block_at-clip_up x v (max s x.offset) (x.offset + x.len) l b,
      ))

  opened_at :
      (lo : ℕ) (exts : List Extent)
      → AreSorted lo exts
      → All Fits exts
      → (b : ℕ)
      → block_at (insert_pieces s l exts) b ≡ (
          if ltb b s
          then block_at exts b
          else if ltb b (s + l)
          then none
          else block_at exts (b - l))
  unfolding insert_pieces block_at
  opened_at lo [] h f b = ground arith
  opened_at lo (x ∷ exts) (p, v, h) (f, fs) b =
      block_at-append (insert_piece s l x) _ b
      ∙ ground (arith, opened_piece_at x v f b, opened_at (x.offset + x.len) exts h fs b)

  pub record Collapses (exts : List Extent) (result : List Extent × List BlockRun) : Type 0 where
    pub sorted : AreSorted 0 result.0
    pub maps : (b : ℕ) → block_at result.0 b ≡ block_at exts (if ltb b s then b else b + l)
    pub freed_sound :
        (y : ℕ)
        → in_runs result.1 y ≡ true
        → (b : ℕ) × (f : ℕ) × (s ≤ b) × (b < s + l) × (block_at exts b ≡ some (y, f))
    pub freed_complete :
        (b y f : ℕ) → s ≤ b → b < s + l → block_at exts b ≡ some (y, f) → in_runs result.1 y ≡ true

  -- On a sorted list, with a range that ends below 2 ^ 64, a collapse gives a sorted list that maps
  -- the blocks before the range as before and each later block as the block that is the range's
  -- length further on was mapped, and the runs that it frees hold exactly the disk blocks that the
  -- range was mapped to.
  pub shift_extents-Collapses :
      (exts : List Extent) → AreSorted 0 exts → Collapses exts (shift_extents exts s l true)
  unfolding shift_extents block_at
  shift_extents-Collapses exts h =
      let (sorted, maps) =
        insert_all_lem (collapse_pieces s l exts).0 [] 0 tt (λ b _. refl)
          (AreSorted-weaken 0 (down 0) _ (omega arith) (collapsed_sorted 0 exts h)) in
      let free = free_extent_range-Punches s (s + l) (omega arith) 0 exts h in
      record {
        sorted = sorted;
        maps = λ b. maps b ∙ collapsed_at 0 exts h b;
        freed_sound = λ y i. free.freed_sound y (rw (sym (collapsed_freed 0 exts h)) i);
        freed_complete =
            λ b y f p q at_b. rw (collapsed_freed 0 exts h) (free.freed_complete b y f p q at_b);
      }

  -- On a sorted list whose extents still end below 2 ^ 64 once moved, with a range that ends there
  -- too, an insertion frees nothing and gives a sorted list that maps the blocks before the range
  -- as before, none in it, and each block after it as the block that is the range's length before
  -- it was mapped.
  pub shift_extents_opens :
      (exts : List Extent)
      → AreSorted 0 exts
      → All Fits exts
      → AreSorted 0 (shift_extents exts s l false).0
        × ((shift_extents exts s l false).1 ≡ [])
        × ((b : ℕ)
            → block_at (shift_extents exts s l false).0 b ≡ (
                if ltb b s
                then block_at exts b
                else if ltb b (s + l)
                then none
                else block_at exts (b - l)))
  unfolding shift_extents block_at
  shift_extents_opens exts h f =
      let (sorted, maps) =
        insert_all_lem (insert_pieces s l exts) [] 0 tt (λ b _. refl)
          (AreSorted-weaken 0 (up 0) _ (omega arith) (opened_sorted 0 exts h f)) in
      (sorted, refl, λ b. maps b ∙ opened_at 0 exts h f b)
