-- ===== src/Layout/Refs.antt =====
-- References to trie nodes pack a block and a slot without loss: briefs/briefs.go.
use briefs_utils.Base.{ℕ, zero, suc, ◌+◌, ◌*◌, ◌/◌, ◌%◌, ◌^◌, ◌<◌, ◌≤◌, bit_and, bit_or}
use briefs_utils.Base.{◌≡◌, arith, ◌∙◌, ap, ◌↔◌}
use native.Mathlib.Nat.{pow-suc}
use briefs_utils.Base.Bits.{
  bit_and_step, bit_or_step, bit_or-zero, bit_and-zero, and_not, bit_and-le,
}
use briefs_utils.Layout.{trie_make_ref, trie_ref_block, trie_ref_slot}
use briefs_utils.Layout.{
  default_journal_blocks, Superblock, read_superblock_gate, accepted, magic_superblock,
}

bit_and-low1 : (x : ℕ) → bit_and x 1 ≡ x % 2
bit_and-low1 x = omega (arith, bit_and_step x 1, bit_and-zero (x / 2))

-- One more digit of the mask.
bit_and-low_step :
    (m n x : ℕ) → ((y : ℕ) → bit_and y m ≡ y % n) → bit_and x (m * 2 + 1) ≡ x / 2 % n * 2 + x % 2
bit_and-low_step m n x h =
    let half : (m * 2 + 1) / 2 ≡ m = omega arith in
    bit_and_step x (m * 2 + 1) ∙ rw half (omega (arith, h (x / 2)))

bit_and-low2 : (x : ℕ) → bit_and x 3 ≡ x % 4
bit_and-low2 x = omega (arith, bit_and-low_step 1 2 x bit_and-low1)

bit_and-low3 : (x : ℕ) → bit_and x 7 ≡ x % 8
bit_and-low3 x = omega (arith, bit_and-low_step 3 4 x bit_and-low2)

bit_and-low4 : (x : ℕ) → bit_and x 15 ≡ x % 16
bit_and-low4 x = omega (arith, bit_and-low_step 7 8 x bit_and-low3)

bit_and-low5 : (x : ℕ) → bit_and x 31 ≡ x % 32
bit_and-low5 x = omega (arith, bit_and-low_step 15 16 x bit_and-low4)

pub bit_and-low6 : (x : ℕ) → bit_and x 63 ≡ x % 64
bit_and-low6 x = omega (arith, bit_and-low_step 31 32 x bit_and-low5)

-- Below a multiple of a power, `|` adds.
pub bit_or-above : (n x y : ℕ) → y < 2 ^ n → bit_or (x * 2 ^ n) y ≡ x * 2 ^ n + y
bit_or-above zero x y h =
    let none_left : y ≡ 0 = omega arith in rw none_left (bit_or-zero (x * 1) ∙ omega arith)
bit_or-above (suc n) x y h =
    let double : x * 2 ^ suc n ≡ x * 2 ^ n * 2 =
      omega (arith, ap (λ (t : ℕ). x * t) (pow-suc 2 n)) in
    let half : x * 2 ^ n * 2 / 2 ≡ x * 2 ^ n = omega arith in
    rw double (
      bit_or_step (x * 2 ^ n * 2) y
      ∙ rw half (omega (arith, bit_or-above n x (y / 2) (omega (arith, pow-suc 2 n)))))

-- A reference made of a block below 2 ^ 58 and a slot below 64 gives both back, and every 64-bit
-- reference is made of its block and its slot.
trie_ref-make :
    ((block slot : ℕ)
      → block < 2 ^ 58
      → slot < 64
      → (trie_ref_block (trie_make_ref block slot) ≡ block)
        × (trie_ref_slot (trie_make_ref block slot) ≡ slot))
    × ((ref : ℕ) → ref < 2 ^ 64 → trie_make_ref (trie_ref_block ref) (trie_ref_slot ref) ≡ ref)
unfolding trie_make_ref trie_ref_block trie_ref_slot
trie_ref-make = (
  (λ block slot p q.
      let made : bit_or ((block * 2 ^ 6) % 2 ^ 64) (bit_and slot 63) ≡ block * 64 + slot =
        packed block slot p q in
      (
        omega (arith, made),
        omega (arith, made, bit_and-low6 (block * 64 + slot), ap (λ (r : ℕ). bit_and r 63) made),
      )),
  λ ref h.
      let low : bit_and (bit_and ref 63) 63 ≡ bit_and ref 63 =
        omega (arith, bit_and-low6 (bit_and ref 63), bit_and-low6 ref) in
      omega (
        arith,
        packed (ref / 64) (bit_and ref 63) (omega arith) (omega (arith, bit_and-low6 ref)),
        bit_and-low6 ref,
      ),
)
  where
    packed :
        (block slot : ℕ)
        → block < 2 ^ 58
        → slot < 64
        → bit_or ((block * 2 ^ 6) % 2 ^ 64) (bit_and slot 63) ≡ block * 64 + slot
    packed block slot p q =
        let fits : (block * 2 ^ 6) % 2 ^ 64 ≡ block * 2 ^ 6 = omega arith in
        let kept : bit_and slot 63 ≡ slot = omega (arith, bit_and-low6 slot) in
        rw (fits, kept) (bit_or-above 6 block slot (omega arith))

-- The journal has between 64 and 4096 blocks, never more for a smaller volume, and one block per
-- 4096 between the bounds.
pub default_journal_blocks-bounds :
    (total : ℕ)
    → (64 ≤ default_journal_blocks total)
      × (default_journal_blocks total ≤ 4096)
      × ((less : ℕ) → less ≤ total → default_journal_blocks less ≤ default_journal_blocks total)
      × (64 * 4096 ≤ total → total ≤ 4096 * 4096 → default_journal_blocks total ≡ total / 4096)
unfolding default_journal_blocks
default_journal_blocks-bounds total =
    (ground arith, ground arith, (λ less h. ground arith), λ p q. ground arith)

-- ReadSuperblock accepts a layout exactly when it has the magic, minor version 9, and the B-tree
-- bit as its only incompatible feature.
pub read_superblock_gate_iff :
    (sb : Superblock)
    → (read_superblock_gate sb ≡ accepted)
      ↔ ((sb.magic ≡ magic_superblock) × (sb.minor_ver ≡ 9) × (sb.feat_incompat ≡ 1))
unfolding read_superblock_gate and_not
read_superblock_gate_iff sb =
    ground (arith, bit_and-low1 sb.feat_incompat, bit_and-le sb.feat_incompat 1)
