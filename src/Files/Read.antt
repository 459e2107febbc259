-- ===== src/Files/Read.antt =====
-- `readFileData` returns the bytes of the file.
use briefs_utils.Base.{
  ℕ, ◌+◌, ◌-◌, ◌*◌, ◌/◌, ◌%◌, ◌^◌, ◌≤◌, ◌<◌, ◌==◌, ltb, leb, bit_and, if◌then◌else◌, Bool, true,
  false, ◌&&◌, ◌||◌,
}
use briefs_utils.Base.{none, some, List, [], ◌∷◌, ◌≡◌, refl, ap, arith, Bool-cases, inl, inr, ◌∙◌}
use briefs_utils.Base.Words.{u64, sub64, slt, slt-positive, sle-positive}
use briefs_utils.Base.Bytes.{All}
use briefs_utils.Extents.{Extent, extent_flag_unwritten}
use briefs_utils.Extents.Mapping.{Block, block_at, within, AreSorted, IsExtent, block_at-below}
use briefs_utils.Files.{
  Device, Bytes, is_unwritten, max_file_size, extent_stop, read_run, read_extent, read_extents,
}
use briefs_utils.Files.Content.{file_byte, block_byte, block_start_lem, mul_step}
use native.Mathlib.Nat.{mul-le-mul_right}

-- The byte of a written block, or `d`.
abbrev written_byte : Device → Block → ℕ → ℕ → ℕ
written_byte dev none k d = d
written_byte dev (some (p, flags)) k d =
    if bit_and flags extent_flag_unwritten == 0 then dev p k else d

-- An extent whose first byte and whose number of bytes are int64 values.
abbrev pub IsInRange : ℕ → Extent → Type 0
IsInRange bs x = (x.offset * bs < 2 ^ 63) × (x.len * bs < 2 ^ 63)

-- The round of an extent in range, with nothing wrapped.
abbrev plain_stop : ℕ → Extent → ℕ
plain_stop bs x =
    let stop = x.offset * bs + x.len * bs in if ltb max_file_size stop then max_file_size else stop

abbrev plain_extent : ℕ → Device → ℕ → ℕ → Extent → Bytes → Bytes
plain_extent bs dev off end_off x buf =
    let first = x.offset * bs in
    let read_start = if ltb off first then first else off in
    let read_end = if ltb (plain_stop bs x) end_off then plain_stop bs x else end_off in
    let run =
      read_run bs dev (u64 (x.phys + (read_start - first) / bs)) ((read_start - first) % bs) in
    if leb (plain_stop bs x) off || leb end_off first
    then buf
    else if (x.phys == 0) || is_unwritten x
    then buf
    else (λ j.
        if leb (read_start - off) j && ltb j (read_end - off)
        then run (j - (read_start - off))
        else buf j)

extent_stop-plain : (bs : ℕ) (x : Extent) → IsInRange bs x → extent_stop bs x ≡ plain_stop bs x
extent_stop-plain bs x (h, k) = stop_lem (x.offset * bs) (x.len * bs) h k
  where
    stop_lem :
        (s l : ℕ)
        → s < 2 ^ 63
        → l < 2 ^ 63
        → (if slt (u64 (u64 s + u64 l)) (u64 s) then max_file_size else u64 (u64 s + u64 l))
          ≡ (if ltb max_file_size (s + l) then max_file_size else s + l)
    stop_lem s l h k = ground arith

read_extent-plain :
    (bs : ℕ) (dev : Device) (off end_off : ℕ) (x : Extent) (buf : Bytes)
    → IsInRange bs x
    → off < 2 ^ 63
    → end_off < 2 ^ 63
    → read_extent bs dev off end_off x buf ≡ plain_extent bs dev off end_off x buf
unfolding read_extent
read_extent-plain bs dev off end_off x buf (h, k) p q =
    let first : u64 (x.offset * bs) ≡ x.offset * bs = omega (arith, h) in
    let stop = extent_stop-plain bs x (h, k) in
    let below : plain_stop bs x < 2 ^ 63 = ground arith in
    let start = if ltb off (x.offset * bs) then x.offset * bs else off in
    let ahead : x.offset * bs ≤ start = ground arith in
    let small : start < 2 ^ 63 = ground arith in
    let inside : sub64 start (x.offset * bs) ≡ start - x.offset * bs =
      omega (arith, ahead, small, h) in
    let positive : ltb (start - x.offset * bs) (2 ^ 63) ≡ true = ground (arith, small) in
    rw
      (
        stop,
        first,
        slt-positive off (x.offset * bs) p h,
        slt-positive (plain_stop bs x) end_off below q,
        sle-positive (plain_stop bs x) off below p,
        sle-positive end_off (x.offset * bs) q h,
        inside,
        positive,
      )
      refl

module _ (bs : ℕ) (sized : 0 < bs) where
  pub div_unique : (x q r : ℕ) → x ≡ q * bs + r → r < bs → (x / bs ≡ q) × (x % bs ≡ r)
  div_unique x q r e h =
      let (f, k) = block_start_lem bs sized x in
      let same : x / bs ≡ q =
        ground (arith, f, k, mul_step bs sized (x / bs) q, mul_step bs sized q (x / bs)) in
      (same, omega (arith, f, ap (λ (n : ℕ). n * bs) same))

  -- Reading on from inside a block: the sum of the two divisions is the division of the sum.
  run_lem :
      (a d q k : ℕ)
      → a + d ≡ q * bs + k
      → k < bs
      → (a / bs + (a % bs + d) / bs ≡ q) × ((a % bs + d) % bs ≡ k)
  run_lem a d q k e h =
      let (f, l) = block_start_lem bs sized a in
      let (g, m) = block_start_lem bs sized (a % bs + d) in
      let sum : (a / bs + (a % bs + d) / bs) * bs ≡ a / bs * bs + (a % bs + d) / bs * bs =
        omega arith in
      let (u, v) = div_unique (a + d) q k e h in
      let (w, x) =
        div_unique (a + d) (a / bs + (a % bs + d) / bs) ((a % bs + d) % bs)
          (omega (arith, f, g, sum)) m in
      (omega (arith, u, w), omega (arith, v, x))

  within_lem :
      (e : Extent) (i : ℕ)
      → within e (i / bs) ≡ (leb (e.offset * bs) i && ltb i (e.offset * bs + e.len * bs))
  within_lem e i =
      let (f, k) = block_start_lem bs sized i in
      let sum : (e.offset + e.len) * bs ≡ e.offset * bs + e.len * bs = omega arith in
      ground (
        arith,
        f,
        k,
        sum,
        mul_step bs sized (i / bs) e.offset,
        mul-le-mul_right {m = e.offset} {n = i / bs} bs,
        mul_step bs sized (i / bs) (e.offset + e.len),
        mul-le-mul_right {m = e.offset + e.len} {n = i / bs} bs,
      )

  module _ (dev : Device) (off end_off : ℕ) (fits : end_off ≤ max_file_size) where
    -- The address that one read of a run takes byte `i` from.
    address_lem :
        (x : Extent)
        → IsExtent x
        → (a d i : ℕ) → within x (i / bs) ≡ true
        → x.offset * bs + (a + d) ≡ i
        → read_run bs dev (u64 (x.phys + a / bs)) (a % bs) d
          ≡ dev (x.phys + (i / bs - x.offset)) (i % bs)
    address_lem x v a d i inside e =
        let (f, k) = block_start_lem bs sized i in
        let back : i / bs - x.offset + x.offset ≡ i / bs = ground (arith, inside) in
        let diff : (i / bs - x.offset) * bs + x.offset * bs ≡ i / bs * bs =
          omega (arith, ap (λ (n : ℕ). n * bs) back) in
        let (block, byte) =
          run_lem a d (i / bs - x.offset) (i % bs) (omega (arith, e, f, diff)) k in
        let no_wrap : u64 (x.phys + a / bs) ≡ x.phys + a / bs = ground (arith, v, inside, block) in
        let sum : x.phys + a / bs + (a % bs + d) / bs ≡ x.phys + (i / bs - x.offset) =
          omega (arith, block) in
        rw (no_wrap, sum, byte) refl

    abbrev is_read : Extent → ℕ → Bool
    is_read x i = if within x (i / bs) then (if is_unwritten x then false else true) else false

    plain_extent_lem :
        (x : Extent) (buf : Bytes) (j : ℕ)
        → IsExtent x
        → off + j < end_off
        → plain_extent bs dev off end_off x buf j ≡ (
            if is_read x (off + j)
            then dev (x.phys + ((off + j) / bs - x.offset)) ((off + j) % bs)
            else buf j)
    plain_extent_lem x buf j v h =
        let w = within_lem x (off + j) in
        elim (Bool-cases (is_unwritten x)) [
          | inl unwritten ↦ rw unwritten (ground arith)
          | inr written ↦
              let a = (if ltb off (x.offset * bs) then x.offset * bs else off) - x.offset * bs in
              let d = j - ((if ltb off (x.offset * bs) then x.offset * bs else off) - off) in
              rw written (elim (Bool-cases (within x ((off + j) / bs))) [
                | inl inside ↦
                    let skip : (leb (plain_stop bs x) off || leb end_off (x.offset * bs)) ≡ false =
                      ground (arith, w, inside) in
                    let mapped : (x.phys == 0) ≡ false = ground (arith, v) in
                    let range : (leb
                            ((if ltb off (x.offset * bs) then x.offset * bs else off) - off) j
                          && ltb j (
                              (if ltb (plain_stop bs x) end_off then plain_stop bs x else end_off)
                              - off))
                        ≡ true =
                      ground (arith, w, inside) in
                    rw (inside, skip, mapped, range)
                      (address_lem x v a d (off + j) inside (ground (arith, w, inside)))
                | inr outside ↦
                    elim (Bool-cases (leb (plain_stop bs x) off || leb end_off (x.offset * bs))) [
                      | inl skip ↦ rw (outside, skip) refl
                      | inr no_skip ↦
                          let mapped : (x.phys == 0) ≡ false = ground (arith, v) in
                          let range : (leb
                                  ((if ltb off (x.offset * bs) then x.offset * bs else off) - off) j
                                && ltb j (
                                    (if ltb (plain_stop bs x) end_off
                                      then plain_stop bs x
                                      else end_off)
                                    - off))
                              ≡ false =
                            ground (arith, w, outside, no_skip) in
                          rw (outside, no_skip, mapped, range) refl
                    ]
              ])
        ]

    read_extent_lem :
        (x : Extent) (buf : Bytes) (j : ℕ)
        → IsExtent x
        → IsInRange bs x
        → off + j < end_off
        → read_extent bs dev off end_off x buf j ≡ (
            if is_read x (off + j)
            then dev (x.phys + ((off + j) / bs - x.offset)) ((off + j) % bs)
            else buf j)
    read_extent_lem x buf j v r h =
        ap (λ (b : Bytes). b j)
          (read_extent-plain bs dev off end_off x buf r (omega (arith, fits, h))
            (omega (arith, fits)))
        ∙ plain_extent_lem x buf j v h

    read_extents_lem :
        (lo : ℕ) (exts : List Extent) (buf : Bytes) (j : ℕ)
        → AreSorted lo exts
        → All (IsInRange bs) exts
        → off + j < end_off
        → read_extents bs dev off end_off exts buf j
          ≡ written_byte dev (block_at exts ((off + j) / bs)) ((off + j) % bs) (buf j)
    unfolding read_extents block_at
    read_extents_lem lo [] buf j s r h = refl
    read_extents_lem lo (x ∷ exts) buf j (p, v, s) (q, r) h =
        read_extents_lem (x.offset + x.len) exts (read_extent bs dev off end_off x buf) j s r h
        ∙ elim (Bool-cases (within x ((off + j) / bs))) [
          | inl inside ↦
              let below =
                block_at-below (x.offset + x.len) exts ((off + j) / bs) s
                  (ground (arith, inside)) in
              rw (inside, below) (ground (arith, read_extent_lem x buf j v q h, inside))
          | inr outside ↦
              let same : read_extent bs dev off end_off x buf j ≡ buf j =
                ground (arith, read_extent_lem x buf j v q h, outside) in
              rw (outside, same) refl
        ]

    pub read_extents-file_byte :
        (exts : List Extent) (j : ℕ)
        → AreSorted 0 exts
        → All (IsInRange bs) exts
        → off + j < end_off
        → read_extents bs dev off end_off exts (λ _. 0) j ≡ file_byte bs exts dev (off + j)
    unfolding file_byte block_byte
    read_extents-file_byte exts j s r h =
        read_extents_lem 0 exts (λ _. 0) j s r h ∙ zero_lem (block_at exts ((off + j) / bs))
      where
        zero_lem :
            (m : Block) → written_byte dev m ((off + j) % bs) 0 ≡ block_byte dev m ((off + j) % bs)
        zero_lem none = refl
        zero_lem (some (p, f)) = refl
