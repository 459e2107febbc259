-- ===== src/Layout/Inodes.antt =====
-- The slots of the inode table do not overlap: InodeLocation of briefs/superblock.go.
use briefs_utils.Base.{ℕ, ◌+◌, ◌-◌, ◌*◌, ◌/◌, ◌%◌, ◌^◌, ◌<◌, ◌≤◌}
use briefs_utils.Base.{◌≡◌, ◌≢◌, arith, ap, ◌==◌, Bool-cases, ◌⊎◌, inl, inr, Option, some}
use briefs_utils.Layout.{Superblock, inode_location}
use native.Mathlib.Nat.{
  mul-le-mul_right, mod-lt, div-mul-le_self, div-add-mod', div-le_self, le-div_iff_mul-le,
}

-- One slot ends where a later one begins, or before it.
slots : (r q size : ℕ) → r < q → r * size + size ≤ q * size
slots r q size h =
    let next : (r + 1) * size ≡ r * size + size = omega arith in
    omega (arith, next, mul-le-mul_right {m = r + 1} {n = q} size (omega arith))

-- What InodeLocation says of two inodes.
pub record Disjoint (sb : Superblock) (l l' : Option (ℕ × ℕ)) : Type 0 where
  pub block : ℕ
  pub offset : ℕ
  pub block' : ℕ
  pub offset' : ℕ
  pub first : l ≡ some (block, offset)
  pub second : l' ≡ some (block', offset')
  pub inside : (offset + sb.inode_size ≤ sb.block_size) × (offset' + sb.inode_size ≤ sb.block_size)
  pub apart : (block ≢ block') ⊎ (offset + sb.inode_size ≤ offset')

-- The block and the byte offset of an inode, without the wrap-around.
abbrev slot_block : Superblock → ℕ → ℕ
slot_block sb ino = sb.inode_table_offset + (ino - 1) / (sb.block_size / sb.inode_size)

abbrev slot_offset : Superblock → ℕ → ℕ
slot_offset sb ino = (ino - 1) % (sb.block_size / sb.inode_size) * sb.inode_size

module _ (sb : Superblock) (sized : 0 < sb.inode_size) (fits : sb.inode_size ≤ sb.block_size)
    (word : sb.block_size < 2 ^ 64) where
  per_block-pos : 0 < sb.block_size / sb.inode_size
  per_block-pos = (le-div_iff_mul-le {x = 1} {y = sb.block_size} sized).1 (omega arith)

  slot-fits : (ino : ℕ) → slot_offset sb ino + sb.inode_size ≤ sb.block_size
  slot-fits ino = omega (
    arith,
    slots ((ino - 1) % (sb.block_size / sb.inode_size)) (sb.block_size / sb.inode_size)
        sb.inode_size (mod-lt (ino - 1) per_block-pos),
    div-mul-le_self sb.block_size sb.inode_size,
  )

  located :
      (ino : ℕ)
      → 0 < ino
      → ino < 2 ^ 64
      → sb.inode_table_offset + ino ≤ 2 ^ 64
      → inode_location sb ino ≡ some (slot_block sb ino, slot_offset sb ino)
  unfolding inode_location
  located ino pos small table =
      let idx : (ino + (2 ^ 64 - 1)) % 2 ^ 64 ≡ ino - 1 = omega arith in
      rw idx (
        ground (
          arith,
          per_block-pos,
          slot-fits ino,
          div-le_self (ino - 1) (sb.block_size / sb.inode_size),
        ))

  -- Two inode numbers have their slots in different blocks, or at ranges of one block that do not
  -- overlap.
  apart :
      (i j : ℕ)
      → 0 < i
      → i < j
      → (slot_block sb i ≢ slot_block sb j) ⊎ (slot_offset sb i + sb.inode_size ≤ slot_offset sb j)
  apart i j pos h = elim (same_block ((i - 1) / per) ((j - 1) / per)) [
    | inl e ↦ inr (slots ((i - 1) % per) ((j - 1) % per) sb.inode_size (ordered e))
    | inr ne ↦ inl (λ e. ne (omega arith))
  ]
    where
      per : ℕ
      per = sb.block_size / sb.inode_size

      same_block : (a b : ℕ) → (a ≡ b) ⊎ (a ≢ b)
      same_block a b = elim (Bool-cases (a == b)) [
        | inl e ↦ inl (ground arith)
        | inr e ↦ inr (ground arith)
      ]

      ordered : (i - 1) / per ≡ (j - 1) / per → (i - 1) % per < (j - 1) % per
      ordered e =
          omega
            (arith, div-add-mod' (i - 1) per, div-add-mod' (j - 1) per, ap (λ (q : ℕ). q * per) e)

  -- With an inode size that is positive and at most the block size, and a table that ends below 2 ^
  -- 64, InodeLocation does not divide by zero, the slot lies inside its block, and the slots of two
  -- inode numbers do not overlap.
  pub inode_location-Disjoint :
      (i j : ℕ)
      → 0 < i
      → i < j
      → j < 2 ^ 64
      → sb.inode_table_offset + j ≤ 2 ^ 64
      → Disjoint sb (inode_location sb i) (inode_location sb j)
  inode_location-Disjoint i j pos h small table = record {
    block = slot_block sb i;
    offset = slot_offset sb i;
    block' = slot_block sb j;
    offset' = slot_offset sb j;
    first = located i pos (omega arith) (omega arith);
    second = located j (omega arith) small table;
    inside = (slot-fits i, slot-fits j);
    apart = apart i j pos h;
  }
