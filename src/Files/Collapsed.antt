-- ===== src/Files/Collapsed.antt =====
-- What collapsing a range makes of the bytes of a file.
use briefs_utils.Base.{
  ℕ, ◌+◌, ◌-◌, ◌*◌, ◌/◌, ◌≤◌, ◌<◌, ◌^◌, ltb, leb, if◌then◌else◌, if_cases, Bool, true, false,
}
use briefs_utils.Base.{some, List, ◌≡◌, ◌⊎◌, refl, ap, arith, Bool-cases, inl, inr, ◌∙◌, sym}
use briefs_utils.Base.Words.{u64}
use briefs_utils.Runs.{BlockRun}
use native.Mathlib.Nat.{div-le_self}
use briefs_utils.Extents.{Extent}
use briefs_utils.Extents.Mapping.{block_at, in_runs}
use briefs_utils.Extents.Shift.{Collapses, shift_extents-Collapses}
use briefs_utils.Files.{Device}
use briefs_utils.Files.Content.{file_byte, block_end, block_end_lem}
use briefs_utils.Files.Inode.{FileInode}
use briefs_utils.Files.Whole.{IsFile}
use briefs_utils.Files.Range.{
  RangeResult, is_unaligned, collapse_range, reindex-IsMapped, move_lem, before_block, aligned_lem,
  block_end_move,
}

module _ {S : Type 0} (start : ℕ) (in_use : S → ℕ → Bool) (bs : ℕ) (sized : 0 < bs)
    (ino : FileInode) (dev : Device) (free : S) (f : IsFile bs start in_use ino dev free)
    (off size : ℕ) where
  -- The bytes of a list that maps the blocks of another one moved down from a boundary on.
  collapsed_byte :
      (exts' : List Extent)
      → is_unaligned bs off size ≡ false
      → ((b : ℕ)
          → block_at exts' b ≡ block_at ino.exts (if ltb b (off / bs) then b else b + size / bs))
      → (i : ℕ)
      → file_byte bs exts' dev i ≡ file_byte bs ino.exts dev (if ltb i off then i else i + size)
  unfolding file_byte
  collapsed_byte exts' aligned maps i =
      let (o, z) = aligned_lem bs sized off size aligned in
      let (block, byte) = move_lem bs sized i (size / bs) in
      let same : ltb (i / bs) (off / bs) ≡ ltb i off =
        before_block bs sized i (off / bs) ∙ ap (ltb i) (sym o) in
      elim (Bool-cases (ltb i off)) [
        | inl low ↦
            let at_b : block_at exts' (i / bs) ≡ block_at ino.exts (i / bs) =
              ground (arith, maps (i / bs), same, low) in
            rw (low, at_b) refl
        | inr high ↦
            let at_b : block_at exts' (i / bs) ≡ block_at ino.exts (i / bs + size / bs) =
              ground (arith, maps (i / bs), same, high) in
            let moved : i + size ≡ i + size / bs * bs = omega (arith, z) in
            rw (high, at_b, moved, block, byte) refl
      ]

  abbrev pub Collapsed : RangeResult → Type 0
  Collapsed (RangeResult.changed ino' freed) =
      IsFile bs start in_use ino' dev free
      × (off + size < ino.file_size)
      × (ino'.file_size ≡ ino.file_size - size)
      × ((i : ℕ)
          → file_byte bs ino'.exts dev i
            ≡ file_byte bs ino.exts dev (if ltb i off then i else i + size))
      × ((y : ℕ)
          → in_runs freed y ≡ true
          → (b : ℕ) × (g : ℕ) × (off / bs ≤ b)
            × (b < off / bs + size / bs)
            × (block_at ino.exts b ≡ some (y, g)))
      × ((b y g : ℕ)
          → off / bs ≤ b
          → b < off / bs + size / bs
          → block_at ino.exts b ≡ some (y, g)
          → in_runs freed y ≡ true)
  Collapsed RangeResult.einval = (is_unaligned bs off size ≡ true) ⊎ (ino.file_size ≤ off + size)
  Collapsed RangeResult.eopnotsupp = ino.inline ≡ true
  Collapsed RangeResult.efbig = 1 ≤ 0

  module _ (no_wrap : off + size < 2 ^ 64) where
    blocks_fit : off / bs + size / bs < 2 ^ 64
    blocks_fit = omega (arith, div-le_self off bs, div-le_self size bs)

    collapsed-IsFile :
        (exts' : List Extent) (freed : List BlockRun)
        → is_unaligned bs off size ≡ false
        → off + size < ino.file_size
        → ino.inline ≡ false
        → Collapses (off / bs) (size / bs) blocks_fit ino.exts (exts', freed)
        → IsFile bs start in_use
            (record ino { exts = exts'; file_size = ino.file_size - size })
            dev
            free
    collapsed-IsFile exts' freed aligned inside large c =
        let m = f.mapped large in
        record {
          small = λ s. cc (s, large);
          fits = omega (arith, f.fits);
          mapped = λ _.
              reindex-IsMapped start in_use free ino.exts exts' m (λ _. false)
                (λ b. if ltb b (off / bs) then b else b + size / bs) c.maps
                (λ b d _ _ e. ground (arith, e)) c.sorted;
          past = λ _ i h.
              let moved : block_end bs (ino.file_size - size) + size ≡ block_end bs ino.file_size =
                block_end_moved in
              collapsed_byte exts' aligned c.maps i
              ∙ ground (
                arith,
                f.past large (i + size),
                h,
                moved,
                block_end_lem bs sized (ino.file_size - size),
              );
        }
      where
        block_end_moved : block_end bs (ino.file_size - size) + size ≡ block_end bs ino.file_size
        block_end_moved =
            let (_, z) = aligned_lem bs sized off size aligned in
            let whole : ino.file_size - size + size / bs * bs ≡ ino.file_size = omega (arith, z) in
            omega (
              arith,
              z,
              block_end_move bs sized (ino.file_size - size) (size / bs),
              ap (block_end bs) whole,
            )

    -- On a well-formed file, with a range that ends below 2 ^ 64, collapseRangeOp refuses with
    -- EINVAL an unaligned range or one that reaches the end of the file, and with EOPNOTSUPP a file
    -- with its bytes in the inode; or it leaves a well-formed file that is shorter by the range and
    -- has its bytes before the range, then those after it, and the freed runs hold exactly the disk
    -- blocks of the range.
    pub collapse_range-Collapsed : Collapsed (collapse_range bs ino off size)
    unfolding collapse_range
    collapse_range-Collapsed =
        let sum : u64 (off + size) ≡ off + size = omega arith in
        if_cases Collapsed (is_unaligned bs off size) _ _ (λ bad. inl bad)
          (λ aligned.
            if_cases Collapsed (leb ino.file_size (u64 (off + size))) _ _
              (λ past. inr (ground (arith, past, sum)))
              (λ inside.
                if_cases Collapsed ino.inline _ _ (λ small. small)
                  (λ large.
                    let c =
                      shift_extents-Collapses (off / bs) (size / bs) blocks_fit ino.exts
                        (f.mapped large).sorted in
                    let fit : off + size < ino.file_size = ground (arith, inside, sum) in
                    (
                      collapsed-IsFile _ _ aligned fit large c,
                      fit,
                      refl,
                      collapsed_byte _ aligned c.maps,
                      c.freed_sound,
                      c.freed_complete,
                    ))))
