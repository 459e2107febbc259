-- ===== src/Files/Write.antt =====
-- `writeExtentData` writes the bytes of the request where it says, and no others.
use briefs_utils.Base.{
  ℕ, zero, suc, ◌+◌, ◌-◌, ◌≤◌, ◌<◌, ltb, leb, if◌then◌else◌, Bool, ◌&&◌, get_or,
}
use briefs_utils.Base.{List, ◌≡◌, refl, arith, Bool-cases, inl, inr}
use briefs_utils.Files.{Writing, next_segment, write_loop, max_file_size}
use native.Mathlib.Nat.{div-le_self}
use briefs_utils.Files.Content.{file_byte, block_start_lem, IsAllocator, IsMapped}
use briefs_utils.Files.Put.{IsSegment}
use briefs_utils.Files.Round.{Wrote, Ends, Ends-and_then, Ends-weaken, write_segment-Ends}

-- The range that the loop has still to write.
pub record WroteRange {S : Type 0} (bs start : ℕ) (in_use : S → ℕ → Bool) (bytes : List ℕ)
    (cur end pos : ℕ) (w w' : Writing S) : Type 0 where
  pub mapped : IsMapped start in_use w'.exts w'.free
  pub content :
      (i : ℕ)
      → file_byte bs w'.exts w'.dev i ≡ (
          if leb cur i && ltb i end
          then get_or bytes (pos + (i - cur)) 0
          else file_byte bs w.exts w.dev i)

-- The segment starts at `cur`, and makes progress up to the end of the block or of the request.
record Cuts (bs end cur pos : ℕ) : Type 0 where
  is_segment : IsSegment bs (next_segment bs end cur pos)
  start : (next_segment bs end cur pos).seg_start ≡ cur
  more : cur < (next_segment bs end cur pos).seg_end
  within : (next_segment bs end cur pos).seg_end ≤ end
  same_pos : (next_segment bs end cur pos).pos ≡ pos

cuts_lem : (bs end cur pos : ℕ) → 0 < bs → cur < end → end ≤ max_file_size → Cuts bs end cur pos
unfolding next_segment
cuts_lem bs end cur pos sized h fits =
    let (e, k) = block_start_lem bs sized cur in
    record {
      is_segment = record {
        starts = refl;
        after = ground (arith, e, k);
        ordered = ground (arith, e, k);
        before = ground (arith, e, k);
        fits = omega (arith, div-le_self cur bs);
      };
      start = ground (arith, e, k);
      more = ground (arith, e, k);
      within = ground (arith, e, k);
      same_pos = refl;
    }

module _ {S : Type 0} (start : ℕ) (in_use : S → ℕ → Bool) (alloc_block : S → S × ℕ)
    (allocator : IsAllocator start in_use alloc_block) (bs : ℕ) (sized : 0 < bs) (bytes : List ℕ)
    (end : ℕ) (fits : end ≤ max_file_size) where
  pub write_loop-Ends :
      (n cur pos : ℕ) (w : Writing S)
      → IsMapped start in_use w.exts w.free
      → end ≤ cur + n
      → Ends alloc_block
          (WroteRange bs start in_use bytes cur end pos w)
          (write_loop alloc_block bs start bytes end n cur pos w)
  unfolding write_loop
  write_loop-Ends zero cur pos w m enough = record { mapped = m; content = λ i. ground arith }
  write_loop-Ends (suc n) cur pos w m enough = elim (Bool-cases (ltb cur end)) [
    | inr done ↦ rw done (record { mapped = m; content = λ i. ground (arith, done) })
    | inl more ↦
        let seg = next_segment bs end cur pos in
        let c = cuts_lem bs end cur pos sized (ground (arith, more)) fits in
        rw more (
          Ends-and_then alloc_block (Wrote bs start in_use bytes seg w)
            (WroteRange bs start in_use bytes cur end pos w) _ _
            (write_segment-Ends start in_use alloc_block allocator bs sized bytes seg c.is_segment w
              m)
            (λ w' a.
              Ends-weaken alloc_block
                (WroteRange bs start in_use bytes seg.seg_end end
                  (pos + (seg.seg_end - seg.seg_start)) w')
                (WroteRange bs start in_use bytes cur end pos w) _
                (write_loop-Ends n seg.seg_end (pos + (seg.seg_end - seg.seg_start)) w' a.mapped
                  (omega (arith, c.more)))
                (λ w'' r. record {
                  mapped = r.mapped;
                  content = λ i.
                      ground
                        (arith, r.content i, a.content i, c.start, c.more, c.within, c.same_pos);
                })))
  ]
