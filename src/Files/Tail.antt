-- ===== src/Files/Tail.antt =====
-- The end of the file's last block, and the whole of `writeExtentData`: a write past the end of the
-- file leaves zeros in between.
use briefs_utils.Base.{
  ℕ, ◌+◌, ◌-◌, ◌*◌, ◌/◌, ◌%◌, ◌≤◌, ◌<◌, ◌==◌, ltb, leb, if◌then◌else◌, Bool, true, false, ◌&&◌,
  get_or, length,
}
use briefs_utils.Base.{
  Option, none, some, List, ◌≡◌, ◌≢◌, refl, ap, arith, Bool-cases, Option-cases, inl, inr, ◌∙◌, sym,
}
use briefs_utils.Base.Words.{u64}
use briefs_utils.Extents.{Extent, lookup_extent}
use briefs_utils.Extents.Mapping.{block_at, AreSorted}
use briefs_utils.Extents.Lookup.{lookup_extent-block_at}
use briefs_utils.Extents.Split.{Has-above}
use briefs_utils.Files.{
  Device, Writing, zero_block_tail, zero_found_tail, zero_eof_tail, write_loop, write_extent_data,
  written_size, max_file_size,
}
use briefs_utils.Files.Content.{
  file_byte, block_byte, block_start_lem, other_block, block_end, block_end_lem, block_end_mono,
  IsAllocator, IsMapped,
}
use briefs_utils.Files.Round.{Ends, Ends-weaken}
use briefs_utils.Files.Write.{WroteRange, write_loop-Ends}

module _ {S : Type 0} (start : ℕ) (in_use : S → ℕ → Bool) (bs : ℕ) (sized : 0 < bs) where
  -- The disk block `abs` of block `n` is zeroed from byte `from` on.
  zeroed_lem :
      (exts : List Extent) (free : S) (dev : Device) (n abs f from : ℕ)
      → IsMapped start in_use exts free
      → block_at exts n ≡ some (abs, f)
      → from < bs
      → (i : ℕ)
      → file_byte bs exts (zero_block_tail bs dev abs from) i
        ≡ (if leb (n * bs + from) i && ltb i (n * bs + bs) then 0 else file_byte bs exts dev i)
  unfolding file_byte block_byte
  zeroed_lem exts free dev n abs f from m here short i =
      let (e, k) = block_start_lem bs sized i in
      let o = other_block bs sized i n in
      elim (Bool-cases (i / bs == n)) [
        | inl same ↦
            let b : i / bs ≡ n = ground (arith, same) in
            rw (b, here) (ground (arith, e, k, o, short))
        | inr other ↦ elim (Option-cases (block_at exts (i / bs))) [
          | inl hole ↦ rw hole (ground (arith, o, other, hole))
          | inr ((p, g), at_p) ↦
              let apart : p ≢ abs = λ q.
                let same =
                  m.apart (i / bs) n p g f at_p (here ∙ ap (λ (x : ℕ). some (x, f)) (sym q)) in
                ground (arith, same, other) in
              rw at_p (ground (arith, o, other, at_p, apart))
        ]
      ]

  hole_tail :
      (exts : List Extent) (dev : Device) (size i : ℕ)
      → AreSorted 0 exts
      → lookup_extent exts (size / bs) ≡ none
      → file_byte bs exts dev i
        ≡ (if leb size i && ltb i (size / bs * bs + bs) then 0 else file_byte bs exts dev i)
  unfolding file_byte block_byte
  hole_tail exts dev size i sorted h =
      let (same, inside) = lookup_extent-block_at exts (size / bs) sorted in
      let hole : block_at exts (size / bs) ≡ none = ground (arith, same, h) in
      let (e, k) = block_start_lem bs sized size in
      let o = other_block bs sized i (size / bs) in
      elim (Bool-cases (i / bs == size / bs)) [
        | inl here ↦
            let b : i / bs ≡ size / bs = ground (arith, here) in rw (b, hole) (ground arith)
        | inr other ↦ ground (arith, o, other, e, k)
      ]

  pub zero_eof_tail_lem :
      (exts : List Extent) (free : S) (dev : Device) (size : ℕ)
      → IsMapped start in_use exts free
      → size % bs ≢ 0
      → (i : ℕ)
      → file_byte bs exts (zero_eof_tail bs exts size dev) i
        ≡ (if leb size i && ltb i (size / bs * bs + bs) then 0 else file_byte bs exts dev i)
  unfolding zero_eof_tail
  zero_eof_tail_lem exts free dev size m partial i =
      let (e, k) = block_start_lem bs sized size in
      let o = other_block bs sized (size - 1) (size / bs) in
      let last : (size - 1) / bs ≡ size / bs = ground (arith, e, k, o, partial) in
      rw last (found_tail (lookup_extent exts (size / bs)) refl)
    where
      found_tail :
          (found : Option Extent)
          → lookup_extent exts (size / bs) ≡ found
          → file_byte bs exts (zero_found_tail bs dev (size / bs) (size % bs) found) i
            ≡ (if leb size i && ltb i (size / bs * bs + bs) then 0 else file_byte bs exts dev i)
      found_tail none h = hole_tail exts dev size i m.sorted h
      found_tail (some ext) h =
          let (same, inside) = lookup_extent-block_at exts (size / bs) m.sorted in
          let (e, k) = block_start_lem bs sized size in
          let (w, has) = inside ext h in
          let (_, v) = Has-above 0 exts ext m.sorted has in
          let no_wrap : u64 (ext.phys + (size / bs - ext.offset))
              ≡ ext.phys + (size / bs - ext.offset) =
            ground (arith, v, w) in
          let z =
            zeroed_lem exts free dev (size / bs) (ext.phys + (size / bs - ext.offset)) ext.flags
              (size % bs) m (ground (arith, same, h)) k i in
          rw no_wrap (z ∙ ground (arith, e))

module _ {S : Type 0} (start : ℕ) (in_use : S → ℕ → Bool) (alloc_block : S → S × ℕ)
    (allocator : IsAllocator start in_use alloc_block) (bs : ℕ) (sized : 0 < bs) (bytes : List ℕ)
    (off old_size : ℕ) (fits : off + length bytes ≤ max_file_size) where
  -- The file has the request's bytes in its range, what it had elsewhere, and zeros in a gap.
  pub record WroteFile (w w' : Writing S) : Type 0 where
    pub mapped : IsMapped start in_use w'.exts w'.free
    pub content :
        (i : ℕ)
        → i < written_size bytes off old_size
        → file_byte bs w'.exts w'.dev i ≡ (
            if leb off i && ltb i (off + length bytes)
            then get_or bytes (i - off) 0
            else if ltb i old_size
            then file_byte bs w.exts w.dev i
            else 0)
    pub past :
        (i : ℕ)
        → block_end bs (written_size bytes off old_size) ≤ i
        → file_byte bs w'.exts w'.dev i ≡ 0

  -- From the state that the loop starts in, which has zeros in the gap.
  from_loop :
      (w w0 : Writing S)
      → ((i : ℕ) → block_end bs old_size ≤ i → file_byte bs w.exts w.dev i ≡ 0)
      → ((i : ℕ)
          → file_byte bs w0.exts w0.dev i ≡ (
              if ltb old_size off && leb old_size i && ltb i (block_end bs old_size)
              then 0
              else file_byte bs w.exts w.dev i))
      → (w' : Writing S) → WroteRange bs start in_use bytes off (off + length bytes) 0 w0 w'
      → WroteFile w w'
  from_loop w w0 past before w' r = record {
    mapped = r.mapped;
    content =
        λ i h. ground (arith, r.content i, before i, past i, h, block_end_lem bs sized old_size);
    past = λ i h. ground (
      arith,
      r.content i,
      before i,
      past i,
      h,
      block_end_lem bs sized (written_size bytes off old_size),
      block_end_mono bs sized old_size (written_size bytes off old_size),
    );
  }

  pub write_extent_data-Ends :
      (w : Writing S)
      → IsMapped start in_use w.exts w.free
      → ((i : ℕ) → block_end bs old_size ≤ i → file_byte bs w.exts w.dev i ≡ 0)
      → Ends alloc_block (WroteFile w) (write_extent_data alloc_block bs start bytes off old_size w)
  unfolding write_extent_data
  write_extent_data-Ends w m past =
      elim (Bool-cases
        (ltb old_size off && ltb 0 old_size && (if old_size % bs == 0 then false else true))) [
          | inl gap ↦
              let w0 : Writing S = record w { dev = zero_eof_tail bs w.exts old_size w.dev } in
              rw gap (
                run w0 m (
                  from_loop w w0 past (λ i.
                    zero_eof_tail_lem start in_use bs sized w.exts w.free w.dev old_size m
                      (ground (arith, gap)) i
                    ∙ ground (arith, gap))))
          | inr no_gap ↦ rw no_gap (
              run w m (
                from_loop w w past
                  (λ i. ground (arith, past i, no_gap, block_end_lem bs sized old_size))))
        ]
    where
      run :
          (w0 : Writing S)
          → IsMapped start in_use w0.exts w0.free
          → ((w' : Writing S)
              → WroteRange bs start in_use bytes off (off + length bytes) 0 w0 w'
              → WroteFile w w')
          → Ends alloc_block
              (WroteFile w)
              (write_loop alloc_block bs start bytes (off + length bytes) (length bytes) off 0 w0)
      run w0 m0 =
          Ends-weaken alloc_block (WroteRange bs start in_use bytes off (off + length bytes) 0 w0)
            (WroteFile w) _
            (write_loop-Ends start in_use alloc_block allocator bs sized bytes (off + length bytes)
              fits (length bytes) off 0 w0 m0 (omega arith))
