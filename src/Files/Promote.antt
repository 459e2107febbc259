-- ===== src/Files/Promote.antt =====
-- `promoteInlineData`: the bytes of a small file move to a block of their own.
use briefs_utils.Base.{
  ℕ, ◌+◌, ◌-◌, ◌*◌, ◌/◌, ◌%◌, ◌≤◌, ◌<◌, ◌==◌, ltb, if◌then◌else◌, Bool, true, false,
}
use briefs_utils.Base.{none, some, [], ◌∷◌, ◌≡◌, ◌≢◌, refl, ap, arith, Bool-cases, inl, inr}
use briefs_utils.Base.Words.{u64}
use briefs_utils.Extents.{extent}
use briefs_utils.Extents.Mapping.{block_at}
use briefs_utils.Runs.{add_block}
use briefs_utils.Files.{Bytes, Device, Writing, write_block}
use briefs_utils.Files.Content.{
  file_byte, block_byte, block_start_lem, other_block, mul_step, block_end, IsAllocator, IsMapped,
  remap_lem,
}
use briefs_utils.Files.Round.{Ends}
use briefs_utils.Files.Inode.{FileInode, Mount, inline_data_max, promote_inline_data}

module _ {S : Type 0} (start : ℕ) (in_use : S → ℕ → Bool) (alloc_block : S → S × ℕ)
    (allocator : IsAllocator start in_use alloc_block) (bs : ℕ) (roomy : inline_data_max ≤ bs)
    (ino : FileInode) (small : ino.file_size ≤ inline_data_max) (m : Mount S) where
  -- The promoted file has the bytes that the inode had.
  pub record Promoted (w : Writing S) : Type 0 where
    pub mapped : IsMapped start in_use w.exts w.free
    pub content : (i : ℕ) → i < ino.file_size → file_byte bs w.exts w.dev i ≡ ino.region i
    pub past : (i : ℕ) → block_end bs ino.file_size ≤ i → file_byte bs w.exts w.dev i ≡ 0

  no_extents : (free : S) → IsMapped start in_use [] free
  unfolding block_at
  no_extents free = record {
    sorted = tt;
    flags = λ b p f h. cc;
    owned = λ b p f h. absurd (ground (arith, h));
    apart = λ b c p f g h i. absurd (ground (arith, h));
  }

  past_first_block : 0 < ino.file_size → bs ≤ block_end bs ino.file_size
  past_first_block h =
      let (e, k) = block_start_lem bs (omega arith) ino.file_size in
      elim (Bool-cases (ino.file_size / bs == 0)) [
        | inl z ↦
            let q : ino.file_size / bs ≡ 0 = ground (arith, z) in
            ground (arith, e, k, ap (λ (n : ℕ). n * bs) q)
        | inr nz ↦ ground (arith, e, k, nz, mul_step bs (omega arith) 0 (ino.file_size / bs))
      ]

  -- The one extent of the promoted file, at disk block `abs`.
  one_block :
      (abs b : ℕ) → block_at (extent 0 abs 1 0 ∷ []) b ≡ (if b == 0 then some (abs, 0) else none)
  unfolding block_at
  one_block abs b = ground arith

  abbrev inline_content : Bytes
  inline_content k = if ltb k ino.file_size then ino.region k else 0

  one_block_byte :
      (dev : Device) (abs i : ℕ)
      → file_byte bs (extent 0 abs 1 0 ∷ []) (write_block dev abs inline_content) i
        ≡ (if ltb i bs then inline_content i else 0)
  unfolding file_byte block_byte
  one_block_byte dev abs i =
      let (e, k) = block_start_lem bs (omega arith) i in
      let o = other_block bs (omega arith) i 0 in
      rw (one_block abs (i / bs)) (elim (Bool-cases (i / bs == 0)) [
        | inl z ↦
            let q : i / bs ≡ 0 = ground (arith, z) in
            let same : i % bs ≡ i = omega (arith, e, ap (λ (n : ℕ). n * bs) q) in
            rw (z, same) (ground (arith, k, same))
        | inr nz ↦ rw nz (ground (arith, o, nz))
      ])

  abbrev moved : Writing S
  moved = record {
    exts = extent 0 (u64 (start + (alloc_block m.free).1)) 1 0 ∷ [];
    dev = write_block m.dev (u64 (start + (alloc_block m.free).1)) inline_content;
    free = (alloc_block m.free).0;
    allocated = add_block [] (alloc_block m.free).1;
    rebuild = false;
  }

  moved-IsMapped : (alloc_block m.free).1 ≢ 0 → IsMapped start in_use moved.exts moved.free
  unfolding block_at
  moved-IsMapped got =
      let rel = (alloc_block m.free).1 in
      let fits = allocator.fits m.free in
      let abs : u64 (start + rel) ≡ start + rel = omega (arith, fits) in
      let used : in_use (alloc_block m.free).0 (start + rel - start) ≡ true =
        let back : start + rel - start ≡ rel = omega arith in
        rw back (allocator.taken m.free got) in
      rw abs (
        remap_lem start in_use [] (extent 0 (start + rel) 1 0 ∷ []) m.free _ 0 (start + rel)
          (no_extents m.free) (one_block (start + rel)) (omega arith) used (allocator.keeps m.free)
          (λ b p g _ h. absurd (ground (arith, h)))
          (omega arith, (omega arith, ground (arith, got), omega arith, omega (arith, fits)), tt))

  moved_lem : 0 < ino.file_size → (alloc_block m.free).1 ≢ 0 → Promoted moved
  moved_lem pos got = record {
    mapped = moved-IsMapped got;
    content =
        λ i h. ground (arith, one_block_byte m.dev (u64 (start + (alloc_block m.free).1)) i, h);
    past = λ i h. ground (
      arith,
      one_block_byte m.dev (u64 (start + (alloc_block m.free).1)) i,
      h,
      past_first_block pos,
    );
  }

  pub promote_inline_data-Ends :
      Ends alloc_block Promoted (promote_inline_data alloc_block start ino m)
  unfolding promote_inline_data file_byte block_byte block_at
  promote_inline_data-Ends = elim (Bool-cases (ino.file_size == 0)) [
    | inl empty ↦ rw empty (record {
      mapped = no_extents m.free;
      content = λ i h. absurd (ground (arith, h, empty));
      past = λ i h. refl;
    })
    | inr sized ↦ elim (Bool-cases ((alloc_block m.free).1 == 0)) [
      | inl full ↦
          let e : (alloc_block m.free).1 ≡ 0 = ground (arith, full) in
          rw (sized, full) (m.free, λ i. ((alloc_block m.free).0, e i))
      | inr got ↦ rw (sized, got) (moved_lem (ground (arith, sized)) (ground (arith, got)))
    ]
  ]
