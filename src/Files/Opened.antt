-- ===== src/Files/Opened.antt =====
-- What opening a range makes of the bytes of a file.
use briefs_utils.Base.{
  ℕ, ◌+◌, ◌-◌, ◌*◌, ◌/◌, ◌%◌, ◌≤◌, ◌<◌, ◌^◌, ltb, leb, if◌then◌else◌, if_cases, Bool, true, false,
}
use briefs_utils.Base.{none, List, [], ◌≡◌, ◌⊎◌, refl, ap, arith, Bool-cases, inl, inr, ◌∙◌, sym}
use briefs_utils.Base.Words.{u64}
use briefs_utils.Base.Bytes.{All}
use native.Mathlib.Nat.{div-le_self}
use briefs_utils.Extents.{Extent, shift_extents}
use briefs_utils.Extents.Mapping.{block_at}
use briefs_utils.Extents.Shift.{shift_extents_opens}
use briefs_utils.Files.{Device, max_file_size}
use briefs_utils.Files.Content.{file_byte, block_byte, block_end, block_end_lem}
use briefs_utils.Files.Inode.{FileInode}
use briefs_utils.Files.Whole.{IsFile}
use briefs_utils.Files.Range.{
  RangeResult, is_unaligned, insert_range, reindex-IsMapped, move_lem, before_block, aligned_lem,
  block_end_move,
}

module _ {S : Type 0} (start : ℕ) (in_use : S → ℕ → Bool) (bs : ℕ) (sized : 0 < bs)
    (ino : FileInode) (dev : Device) (free : S) (f : IsFile bs start in_use ino dev free)
    (off size : ℕ) where
  -- The bytes of a list that maps the blocks of another one moved up from a boundary on.
  opened_byte :
      (exts' : List Extent)
      → is_unaligned bs off size ≡ false
      → ((b : ℕ)
          → block_at exts' b ≡ (
              if ltb b (off / bs)
              then block_at ino.exts b
              else if ltb b (off / bs + size / bs)
              then none
              else block_at ino.exts (b - size / bs)))
      → (i : ℕ)
      → file_byte bs exts' dev i ≡ (
          if ltb i off
          then file_byte bs ino.exts dev i
          else if ltb i (off + size)
          then 0
          else file_byte bs ino.exts dev (i - size))
  unfolding file_byte block_byte
  opened_byte exts' aligned maps i =
      let (o, z) = aligned_lem bs sized off size aligned in
      let sum : (off / bs + size / bs) * bs ≡ off / bs * bs + size / bs * bs = omega arith in
      let top : (off / bs + size / bs) * bs ≡ off + size = omega (arith, sum, o, z) in
      let same : ltb (i / bs) (off / bs) ≡ ltb i off =
        before_block bs sized i (off / bs) ∙ ap (ltb i) (sym o) in
      let same' : ltb (i / bs) (off / bs + size / bs) ≡ ltb i (off + size) =
        before_block bs sized i (off / bs + size / bs) ∙ ap (ltb i) top in
      elim (Bool-cases (ltb i off)) [
        | inl low ↦
            let at_b : block_at exts' (i / bs) ≡ block_at ino.exts (i / bs) =
              ground (arith, maps (i / bs), same, low) in
            rw (low, at_b) refl
        | inr high ↦ elim (Bool-cases (ltb i (off + size))) [
          | inl inside ↦
              let at_b : block_at exts' (i / bs) ≡ none =
                ground (arith, maps (i / bs), same, same', high, inside) in
              rw (high, inside, at_b) refl
          | inr later ↦
              let (block, byte) = move_lem bs sized (i - size) (size / bs) in
              let moved : i - size + size / bs * bs ≡ i = ground (arith, high, later, z) in
              let b : i / bs ≡ (i - size) / bs + size / bs =
                ap (λ (n : ℕ). n / bs) (sym moved) ∙ block in
              let k : i % bs ≡ (i - size) % bs = ap (λ (n : ℕ). n % bs) (sym moved) ∙ byte in
              let back : i / bs - size / bs ≡ (i - size) / bs = omega (arith, b) in
              let at_b : block_at exts' (i / bs) ≡ block_at ino.exts ((i - size) / bs) =
                ground
                  (arith, maps (i / bs), same, same', high, later, ap (block_at ino.exts) back) in
              rw (high, later, at_b, k) refl
        ]
      ]

  module _ (max_bytes : ℕ) (on_device : ino.file_size ≤ max_bytes)
      (device_fits : max_bytes ≤ max_file_size)
      (extents_fit : All (λ e. e.offset + e.len + size / bs < 2 ^ 64) ino.exts) where
    abbrev pub Opened : RangeResult → Type 0
    Opened (RangeResult.changed ino' freed) =
        IsFile bs start in_use ino' dev free
        × (freed ≡ [])
        × (off < ino.file_size)
        × (ino'.file_size ≡ ino.file_size + size)
        × ((i : ℕ)
            → file_byte bs ino'.exts dev i ≡ (
                if ltb i off
                then file_byte bs ino.exts dev i
                else if ltb i (off + size)
                then 0
                else file_byte bs ino.exts dev (i - size)))
    Opened RangeResult.einval = (is_unaligned bs off size ≡ true) ⊎ (ino.file_size ≤ off)
    Opened RangeResult.efbig = max_bytes < ino.file_size + size
    Opened RangeResult.eopnotsupp = ino.inline ≡ true

    Opened-changed :
        is_unaligned bs off size ≡ false
        → off < ino.file_size
        → ino.file_size + size ≤ max_bytes
        → ino.inline ≡ false
        → Opened (
            RangeResult.changed
              (record ino {
                exts = (shift_extents ino.exts (off / bs) (size / bs) false).0;
                file_size = u64 (ino.file_size + size);
              })
              [])
    Opened-changed aligned inside fit large =
        let m = f.mapped large in
        let blocks : off / bs + size / bs < 2 ^ 64 =
          omega (arith, div-le_self off bs, div-le_self size bs) in
        let (sorted, none_freed, maps) =
          shift_extents_opens (off / bs) (size / bs) blocks ino.exts m.sorted extents_fit in
        let no_wrap : u64 (ino.file_size + size) ≡ ino.file_size + size = omega arith in
        let bytes =
          opened_byte (shift_extents ino.exts (off / bs) (size / bs) false).0 aligned maps in
        let (_, z) = aligned_lem bs sized off size aligned in
        let move : block_end bs (ino.file_size + size) ≡ block_end bs ino.file_size + size =
          ap (λ (n : ℕ). block_end bs (ino.file_size + n)) z
          ∙ block_end_move bs sized ino.file_size (size / bs)
          ∙ ap (λ (n : ℕ). block_end bs ino.file_size + n) (sym z) in
        rw no_wrap (
          record {
            small = λ s. cc (s, large);
            fits = omega arith;
            mapped = λ _.
                reindex-IsMapped start in_use free ino.exts _ m
                  (λ b. if ltb b (off / bs) then false else ltb b (off / bs + size / bs))
                  (λ b. if ltb b (off / bs) then b else b - size / bs) (λ b. ground (arith, maps b))
                  (λ b d x y e. ground (arith, x, y, e)) sorted;
            past = λ _ i h.
                bytes i
                ∙ ground
                    (arith, move, f.past large (i - size), h, block_end_lem bs sized ino.file_size);
          },
          refl,
          inside,
          refl,
          bytes,
        )

    -- On a well-formed file no larger than the device, whose extents still end below 2 ^ 64 once
    -- moved, insertRangeOp refuses with EINVAL an unaligned range or one that starts past the last
    -- byte, with EFBIG one that would make the file larger than the device, and with EOPNOTSUPP a
    -- file with its bytes in the inode; or it frees nothing and leaves a well-formed file that is
    -- longer by the range and has its bytes before it, zeros in it, and then the other bytes.
    pub insert_range-Opened : Opened (insert_range bs max_bytes ino off size)
    unfolding insert_range
    insert_range-Opened =
        if_cases Opened (is_unaligned bs off size) _ _ (λ bad. inl bad)
          (λ aligned.
            if_cases Opened (leb ino.file_size off) _ _ (λ past. inr (ground (arith, past)))
              (λ inside.
                if_cases Opened (ltb (u64 (max_bytes + (2 ^ 64 - ino.file_size))) size) _ _
                  (λ big. ground (arith, big))
                  (λ fit.
                    if_cases Opened ino.inline _ _ (λ small. small)
                      (λ large.
                        Opened-changed aligned (ground (arith, inside)) (ground (arith, fit))
                          large))))
