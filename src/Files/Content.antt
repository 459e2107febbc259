-- ===== src/Files/Content.antt =====
-- The bytes of a file: what a device and an extent list say they are.
use briefs_utils.Base.{
  ℕ, ◌+◌, ◌-◌, ◌*◌, ◌/◌, ◌%◌, ◌≤◌, ◌<◌, ◌^◌, ◌==◌, ltb, leb, bit_and, if◌then◌else◌, Bool, true,
  false, ◌&&◌,
}
use briefs_utils.Base.{none, some, List, ◌≡◌, ◌≢◌, ap, arith, Bool-cases, inl, inr, sym}
use briefs_utils.Extents.{Extent, extent_flag_unwritten}
use briefs_utils.Extents.Mapping.{Block, block_at, AreSorted}
use briefs_utils.Files.{Device}
use native.Mathlib.Nat.{mul-le-mul_right, mod-lt, div-add-mod'}

-- Byte `k` of a block of the file: holes and unwritten blocks read as 0.
unfoldable pub block_byte : Device → Block → ℕ → ℕ
block_byte dev none k = 0
block_byte dev (some (p, flags)) k = if bit_and flags extent_flag_unwritten == 0 then dev p k else 0

unfoldable pub file_byte : ℕ → List Extent → Device → ℕ → ℕ
file_byte bs exts dev i = block_byte dev (block_at exts (i / bs)) (i % bs)

-- The first block boundary that is not before the end of the file.
abbrev pub block_end : ℕ → ℕ → ℕ
block_end bs size = if size % bs == 0 then size else size / bs * bs + bs

module _ (bs : ℕ) (sized : 0 < bs) where
  pub mul_step : (a b : ℕ) → a < b → a * bs + bs ≤ b * bs
  mul_step a b h =
      let next : (a + 1) * bs ≡ a * bs + bs = omega arith in
      omega (arith, next, mul-le-mul_right {m = a + 1} {n = b} bs (omega arith))

  -- Byte `i` is in block `i / bs`, and in no other.
  pub block_start_lem : (i : ℕ) → (i ≡ i / bs * bs + i % bs) × (i % bs < bs)
  block_start_lem i = (omega (arith, div-add-mod' i bs), mod-lt i sized)

  pub other_block : (i b : ℕ) → (i / bs == b) ≡ (leb (b * bs) i && ltb i (b * bs + bs))
  other_block i b =
      let (e, k) = block_start_lem i in
      ground (arith, e, k, mul_step (i / bs) b, mul_step b (i / bs))

  pub block_end_lem :
      (size : ℕ) → (size ≤ block_end bs size) × (size % bs ≡ 0 → block_end bs size ≡ size)
  block_end_lem size =
      let (e, k) = block_start_lem size in (ground (arith, e, k), λ h. ground (arith, h))

  pub block_end_mono : (a b : ℕ) → a ≤ b → block_end bs a ≤ block_end bs b
  block_end_mono a b h =
      let (e, k) = block_start_lem a in
      let (f, l) = block_start_lem b in
      elim (Bool-cases (a / bs == b / bs)) [
        | inl same ↦
            let q : a / bs ≡ b / bs = ground (arith, same) in
            ground (arith, e, k, f, l, h, ap (λ (x : ℕ). x * bs) q)
        | inr other ↦
            ground
              (arith, e, k, f, l, h, other, mul_step (a / bs) (b / bs), mul_step (b / bs) (a / bs))
      ]

-- The allocator hands out blocks that are not in use, and they are in use from then on.
pub record IsAllocator {S : Type 0} (start : ℕ) (in_use : S → ℕ → Bool) (alloc_block : S → S × ℕ)
    : Type 0 where
  pub fresh : (s : S) → (alloc_block s).1 ≢ 0 → in_use s (alloc_block s).1 ≡ false
  pub taken : (s : S) → (alloc_block s).1 ≢ 0 → in_use (alloc_block s).0 (alloc_block s).1 ≡ true
  pub keeps : (s : S) (x : ℕ) → in_use s x ≡ true → in_use (alloc_block s).0 x ≡ true
  pub fits : (s : S) → start + (alloc_block s).1 + 1 < 2 ^ 64

-- The extents of a file are in order, each block has a disk block of its own that the allocator
-- counts as in use, and no flag but the unwritten one is set.
pub record IsMapped {S : Type 0} (start : ℕ) (in_use : S → ℕ → Bool) (exts : List Extent) (free : S)
    : Type 0 where
  pub sorted : AreSorted 0 exts
  pub flags : (b p f : ℕ) → block_at exts b ≡ some (p, f) → f ≤ 1
  pub owned :
      (b p f : ℕ) → block_at exts b ≡ some (p, f) → (start ≤ p) × (in_use free (p - start) ≡ true)
  pub apart :
      (b c p f g : ℕ) → block_at exts b ≡ some (p, f) → block_at exts c ≡ some (p, g) → b ≡ c

-- One block gets a disk block of its own, or keeps it; the others stay.
module _ {S : Type 0} (start : ℕ) (in_use : S → ℕ → Bool) (exts exts' : List Extent)
    (free free' : S) (n abs : ℕ) (m : IsMapped start in_use exts free)
    (maps : (b : ℕ) → block_at exts' b ≡ (if b == n then some (abs, 0) else block_at exts b))
    (above : start ≤ abs) (used : in_use free' (abs - start) ≡ true)
    (keeps : (x : ℕ) → in_use free x ≡ true → in_use free' x ≡ true)
    (other : (b p g : ℕ) → (b == n) ≡ false → block_at exts b ≡ some (p, g) → p ≢ abs) where
  remap_flags : (b p f : ℕ) → block_at exts' b ≡ some (p, f) → f ≤ 1
  remap_flags b p f h = elim (Bool-cases (b == n)) [
    | inl e ↦ ground (arith, maps b, h, e)
    | inr e ↦ ground (arith, m.flags b p f, maps b, h, e)
  ]

  remap_owned :
      (b p f : ℕ) → block_at exts' b ≡ some (p, f) → (start ≤ p) × (in_use free' (p - start) ≡ true)
  remap_owned b p f h = elim (Bool-cases (b == n)) [
    | inl e ↦ let same : abs ≡ p = ground (arith, maps b, h, e) in rw (sym same) (above, used)
    | inr e ↦ let (q, u) = m.owned b p f (ground (arith, maps b, h, e)) in (q, keeps (p - start) u)
  ]

  remap_apart :
      (b c p f g : ℕ) → block_at exts' b ≡ some (p, f) → block_at exts' c ≡ some (p, g) → b ≡ c
  remap_apart b c p f g h i = elim (Bool-cases (b == n)) [
    | inl e ↦ elim (Bool-cases (c == n)) [
      | inl d ↦ ground (arith, e, d)
      | inr d ↦ absurd (ground (arith, other c p g d, maps b, maps c, h, i, e, d))
    ]
    | inr e ↦ elim (Bool-cases (c == n)) [
      | inl d ↦ absurd (ground (arith, other b p f e, maps b, maps c, h, i, e, d))
      | inr d ↦ m.apart b c p f g (ground (arith, maps b, h, e)) (ground (arith, maps c, i, d))
    ]
  ]

  pub remap_lem : AreSorted 0 exts' → IsMapped start in_use exts' free'
  remap_lem sorted = record {
    sorted = sorted;
    flags = remap_flags;
    owned = remap_owned;
    apart = remap_apart;
  }
