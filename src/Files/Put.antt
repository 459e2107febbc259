-- ===== src/Files/Put.antt =====
-- One block of a file is written: the bytes of the segment change, and no others.
use briefs_utils.Base.{
  ℕ, ◌+◌, ◌-◌, ◌*◌, ◌/◌, ◌%◌, ◌≤◌, ◌<◌, ◌^◌, ◌==◌, ltb, leb, if◌then◌else◌, Bool, false, ◌&&◌,
  get_or,
}
use briefs_utils.Base.{some, List, ◌≡◌, ◌≢◌, arith, Bool-cases, Option-cases, inl, inr}
use briefs_utils.Extents.{Extent}
use briefs_utils.Extents.Mapping.{block_at}
use briefs_utils.Files.{Bytes, Device, Segment, patch, write_block}
use briefs_utils.Files.Content.{file_byte, block_byte, block_start_lem, other_block}

-- A segment lies in its block, in the range of int64.
pub record IsSegment (bs : ℕ) (seg : Segment) : Type 0 where
  pub starts : seg.block_start ≡ seg.iblock * bs
  pub after : seg.block_start ≤ seg.seg_start
  pub ordered : seg.seg_start ≤ seg.seg_end
  pub before : seg.seg_end ≤ seg.block_start + bs
  pub fits : seg.iblock + 1 < 2 ^ 64

abbrev pub in_segment : Segment → ℕ → Bool
in_segment seg i = leb seg.seg_start i && ltb i seg.seg_end

module _ (bs : ℕ) (sized : 0 < bs) (bytes : List ℕ) (seg : Segment) (s : IsSegment bs seg) where
  abbrev pub segment_byte : List Extent → Device → ℕ → ℕ
  segment_byte exts dev i =
      if in_segment seg i
      then get_or bytes (seg.pos + (i - seg.seg_start)) 0
      else file_byte bs exts dev i

  -- The block of the segment is stored at `abs` afterwards, and nothing else changes.
  pub put_lem :
      (exts exts' : List Extent) (dev : Device) (abs : ℕ) (buf : Bytes)
      → block_at exts' seg.iblock ≡ some (abs, 0)
      → ((b : ℕ) → (b == seg.iblock) ≡ false → block_at exts' b ≡ block_at exts b)
      → ((b p f : ℕ) → (b == seg.iblock) ≡ false → block_at exts b ≡ some (p, f) → p ≢ abs)
      → ((k : ℕ)
          → k < bs
          → in_segment seg (seg.block_start + k) ≡ false
          → buf k ≡ block_byte dev (block_at exts seg.iblock) k)
      → (i : ℕ)
      → file_byte bs exts' (write_block dev abs (patch bytes seg buf)) i ≡ segment_byte exts dev i
  unfolding file_byte block_byte
  put_lem exts exts' dev abs buf here others apart old i =
      let (e, k) = block_start_lem bs sized i in
      let o = other_block bs sized i seg.iblock in
      elim (Bool-cases (i / bs == seg.iblock)) [
        | inl same ↦
            let b : i / bs ≡ seg.iblock = ground (arith, same) in
            rw (b, here)
              (ground (arith, e, k, o, old (i % bs) k, s.starts, s.after, s.ordered, s.before))
        | inr other ↦ rw (others (i / bs) other) (elim (Option-cases (block_at exts (i / bs))) [
          | inl hole ↦ rw hole (ground (arith, o, other, s.starts, s.after, s.before, hole))
          | inr ((p, f), at_p) ↦ rw at_p (
              ground
                (arith, o, other, s.starts, s.after, s.before, at_p, apart (i / bs) p f other at_p))
        ])
      ]
