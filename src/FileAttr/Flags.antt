-- ===== src/FileAttr/Flags.antt =====
-- The bits of the flag words and of their translations: fuse/fileattr.go.
use briefs_utils.Base.{ℕ, zero, suc, ◌+◌, ◌-◌, ◌<◌, ◌≤◌, ◌==◌, Bool, true, ◌&&◌, ltb, leb}
use briefs_utils.Base.{◌≡◌, refl, arith, bit_and, bit_or, min, max, ==_iff, Bool-cases, inl, inr}
use briefs_utils.Base.Bits.{
  and_not, bit, bit-le, bit-bit_and, bit-bit_or, bit-and_not, eq_of_bits, bit_above, bit-zero,
  lt_of_bits, bit-mask_lt,
}
use briefs_utils.Base.{ap, ◌∙◌, leb→le, ltb→lt}
use briefs_utils.FileAttr.{user_flags_to_xflags, xflags_to_user_flags}

-- A test of every number below `n`.
unfoldable pub all_below : ℕ → (ℕ → Bool) → Bool
all_below zero p = true
all_below (suc n) p = p n && all_below n p

pub all_below_sound : (n : ℕ) (p : ℕ → Bool) (x : ℕ) → all_below n p ≡ true → x < n → p x ≡ true
unfolding all_below
all_below_sound zero p x h less = absurd (omega arith)
all_below_sound (suc n) p x h less = ground (arith, all_below_sound n p x)

table : all_below 256 (λ x. user_flags_to_xflags (xflags_to_user_flags x) == and_not x 7) ≡ true
unfolding all_below user_flags_to_xflags xflags_to_user_flags and_not
table = refl

within_table :
    all_below 256 (λ x. bit_and (xflags_to_user_flags x) 0x100F8 == xflags_to_user_flags x) ≡ true
unfolding all_below xflags_to_user_flags
within_table = refl

masked-le : (w m : ℕ) → and_not w m ≡ 0 → (k : ℕ) → bit k w ≤ bit k m
masked-le w m h k = omega (arith, bit-and_not k w m, h, bit-zero k, bit-le k w, ap (bit k) h)

-- A word without bits outside a mask is its own masked part.
pub masked_self : (w m : ℕ) → and_not w m ≡ 0 → bit_and w m ≡ w
masked_self w m h = eq_of_bits _ w λ k. omega (arith, bit-bit_and k w m, masked-le w m h k)

supported-lt : (xf : ℕ) → and_not xf 0xF8 ≡ 0 → xf < 256
supported-lt xf h =
    lt_of_bits 8 xf λ k p. omega (arith, masked-le xf 0xF8 h k, bit_above 8 k 0xF8 (omega arith) p)

pub xflags_to_user_flags-within :
    (xf : ℕ)
    → and_not xf 0xF8 ≡ 0
    → bit_and (xflags_to_user_flags xf) 0x100F8 ≡ xflags_to_user_flags xf
xflags_to_user_flags-within xf h =
    (==_iff _ _).0 (all_below_sound 256 _ xf within_table (supported-lt xf h))

low_table : all_below 8 (λ j. leb (bit j 7 + bit j 0xF8) 1) ≡ true
unfolding all_below bit
low_table = refl

-- Every supported FS_XFLAG_* word is what its translation to user flags translates back to.
pub user_flags_to_xflags-xflags_to_user_flags :
    (xf : ℕ) → and_not xf 0xF8 ≡ 0 → user_flags_to_xflags (xflags_to_user_flags xf) ≡ xf
user_flags_to_xflags-xflags_to_user_flags xf h =
    (==_iff _ _).0 (all_below_sound 256 _ xf table (supported-lt xf h)) ∙ kept
  where
    low : (k : ℕ) → bit k 7 + bit k 0xF8 ≤ 1
    low k = elim (Bool-cases (ltb k 8)) [
      | inl e ↦
          leb→le _ _
            (all_below_sound 8 (λ j. leb (bit j 7 + bit j 0xF8) 1) k low_table (ltb→lt k 8 e))
      | inr e ↦ omega (
        arith,
        bit_above 8 k 7 (omega arith) (ground arith),
        bit_above 8 k 0xF8 (omega arith) (ground arith),
      )
    ]

    kept : and_not xf 7 ≡ xf
    kept =
        eq_of_bits _ xf
          λ k. omega (arith, bit-and_not k xf 7, masked-le xf 0xF8 h k, bit-le k 7, low k)

-- Replacing the bits of a mask keeps the others.
pub masked-replace :
    (old w m : ℕ)
    → bit_and w m ≡ w
    → (bit_and (bit_or (and_not old m) w) m ≡ w)
      × (and_not (bit_or (and_not old m) w) m ≡ and_not old m)
masked-replace old w m h = (
  (eq_of_bits _ w λ k. omega (
    arith,
    bit-bit_and k (bit_or (and_not old m) w) m,
    joined k,
    inside k,
    bit-le k old,
    bit-le k m,
    bit-le k w,
  )),
  eq_of_bits _ (and_not old m) λ k. omega (
    arith,
    bit-and_not k (bit_or (and_not old m) w) m,
    joined k,
    inside k,
    bit-and_not k old m,
    bit-le k old,
    bit-le k m,
    bit-le k w,
  ),
)
  where
    joined :
        (k : ℕ)
        → bit k (bit_or (and_not old m) w) ≡ max (bit k old - min (bit k old) (bit k m)) (bit k w)
    joined k = omega (arith, bit-bit_or k (and_not old m) w, bit-and_not k old m)

    inside : (k : ℕ) → bit k w ≤ bit k m
    inside k = omega (arith, bit-bit_and k w m, ap (bit k) h)

-- Clearing a bit that is not there changes nothing.
pub clear-absent : (w m d : ℕ) → bit_and w d ≡ 0 → and_not (bit_and w m) d ≡ bit_and w m
clear-absent w m d h = eq_of_bits _ _ λ k. omega (
  arith,
  bit-and_not k (bit_and w m) d,
  bit-bit_and k w m,
  bit-bit_and k w d,
  ap (bit k) h,
  bit-zero k,
)

-- A word of user flags and one of xflags with the same five attributes: sync, immutable, append,
-- nodump and noatime, by the bits that the kernel's headers give them.
abbrev pub SameAttributes : ℕ → ℕ → Type 0
SameAttributes flags xflags =
    (bit 3 flags ≡ bit 5 xflags)
    × (bit 4 flags ≡ bit 3 xflags)
    × (bit 5 flags ≡ bit 4 xflags)
    × (bit 6 flags ≡ bit 7 xflags)
    × (bit 7 flags ≡ bit 6 xflags)

attributes_table :
    all_below 256 (λ f.
      let x = user_flags_to_xflags f in
      bit 3 f == bit 5 x
      && (bit 4 f == bit 3 x && (bit 5 f == bit 4 x && (bit 6 f == bit 7 x && bit 7 f == bit 6 x))))
    ≡ true
unfolding all_below bit user_flags_to_xflags
attributes_table = refl

low_bits : (f m : ℕ) → and_not m 0xFF ≡ 0 → bit_and (bit_and f 0xFF) m ≡ bit_and f m
low_bits f m h = eq_of_bits _ _ λ k. omega (
  arith,
  bit-bit_and k (bit_and f 0xFF) m,
  bit-bit_and k f 0xFF,
  bit-bit_and k f m,
  masked-le m 0xFF h k,
  bit-le k f,
  bit-le k m,
)

user_flags_to_xflags-low : (f : ℕ) → user_flags_to_xflags (bit_and f 0xFF) ≡ user_flags_to_xflags f
unfolding user_flags_to_xflags and_not
user_flags_to_xflags-low f =
    rw
      (
        low_bits f 0x08 refl,
        low_bits f 0x10 refl,
        low_bits f 0x20 refl,
        low_bits f 0x40 refl,
        low_bits f 0x80 refl,
      )
      refl

-- The translation keeps the attributes, whatever other bits there are.
pub user_flags_to_xflags-SameAttributes : (f : ℕ) → SameAttributes f (user_flags_to_xflags f)
user_flags_to_xflags-SameAttributes f =
    let low = bit_and f 0xFF in
    let small : low < 256 =
      lt_of_bits 8 low λ k h.
        omega (arith, bit-bit_and k f 0xFF, bit_above 8 k 0xFF (omega arith) h, bit-le k f) in
    let all = all_below_sound 256 _ low attributes_table small in
    let facts : SameAttributes low (user_flags_to_xflags low) = ground (arith, all) in
    rw
      (
        ← user_flags_to_xflags-low f,
        ← same_bit 3 (bit-mask_lt 3 8 (omega arith)),
        ← same_bit 4 (bit-mask_lt 4 8 (omega arith)),
        ← same_bit 5 (bit-mask_lt 5 8 (omega arith)),
        ← same_bit 6 (bit-mask_lt 6 8 (omega arith)),
        ← same_bit 7 (bit-mask_lt 7 8 (omega arith)),
      )
      facts
  where
    same_bit : (k : ℕ) → bit k 0xFF ≡ 1 → bit k (bit_and f 0xFF) ≡ bit k f
    same_bit k one = omega (arith, bit-bit_and k f 0xFF, one, bit-le k f)

dirsync_table : all_below 256 (λ x. bit_and (xflags_to_user_flags x) 0x10000 == 0) ≡ true
unfolding all_below xflags_to_user_flags
dirsync_table = refl

-- No xflag is the one of directories.
pub xflags_to_user_flags-dirsync :
    (xf : ℕ) → and_not xf 0xF8 ≡ 0 → bit_and (xflags_to_user_flags xf) 0x10000 ≡ 0
xflags_to_user_flags-dirsync xf h =
    (==_iff _ _).0 (all_below_sound 256 _ xf dirsync_table (supported-lt xf h))

pub masked-within : (w m : ℕ) → and_not (bit_and w m) m ≡ 0
masked-within w m = eq_of_bits _ _ λ k.
    omega
      (arith, bit-and_not k (bit_and w m) m, bit-bit_and k w m, bit-zero k, bit-le k w, bit-le k m)
