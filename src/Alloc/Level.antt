-- ===== src/Alloc/Level.antt =====
-- One bit of a level cleared or set, in a level that has the word, and the same change carried to
-- the summary over the level.
use briefs_utils.Base.{ℕ, ◌/◌, ◌%◌, ◌^◌, ◌<◌, get_elem?-eq-get_or}
use briefs_utils.Base.{◌==◌, if◌then◌else◌, get_or, set, length, get_or-set}
use briefs_utils.Base.{◌≡◌, arith, List, bit_or, Bool-cases, inl, inr, some}
use briefs_utils.Base.Bits.{and_not}
use briefs_utils.Alloc.{clear_bit, set_bit}
use briefs_utils.Alloc.Bitmap.{bit_at, bit-clear, bit-raise}

unfoldable pub cleared : List ℕ → ℕ → List ℕ
cleared l i = set l (i / 64) (and_not (get_or l (i / 64) 0) (2 ^ (i % 64)))

unfoldable pub raised : List ℕ → ℕ → List ℕ
raised l i = set l (i / 64) (bit_or (get_or l (i / 64) 0) (2 ^ (i % 64)))

module _ (l : List ℕ) (i : ℕ) (inside : i / 64 < length l) where
  pub clear_bit_lem : clear_bit l i ≡ some (cleared l i, get_or (cleared l i) (i / 64) 0)
  unfolding clear_bit cleared
  clear_bit_lem =
      rw
        (
          get_elem?-eq-get_or l (i / 64) 0 inside,
          get_or-set l (i / 64) (i / 64) (and_not (get_or l (i / 64) 0) (2 ^ (i % 64))) 0 inside,
        )
        (ground arith)

  pub set_bit_lem : set_bit l i ≡ some (raised l i, get_or (raised l i) (i / 64) 0)
  unfolding set_bit raised
  set_bit_lem =
      rw
        (
          get_elem?-eq-get_or l (i / 64) 0 inside,
          get_or-set l (i / 64) (i / 64) (bit_or (get_or l (i / 64) 0) (2 ^ (i % 64))) 0 inside,
        )
        (ground arith)

  pub get_or-cleared :
      (j : ℕ)
      → get_or (cleared l i) j 0
        ≡ (if i / 64 == j then and_not (get_or l (i / 64) 0) (2 ^ (i % 64)) else get_or l j 0)
  unfolding cleared
  get_or-cleared j = get_or-set l (i / 64) j _ 0 inside

  pub get_or-raised :
      (j : ℕ)
      → get_or (raised l i) j 0
        ≡ (if i / 64 == j then bit_or (get_or l (i / 64) 0) (2 ^ (i % 64)) else get_or l j 0)
  unfolding raised
  get_or-raised j = get_or-set l (i / 64) j _ 0 inside

  pub bit_at-cleared : (j : ℕ) → bit_at (cleared l i) j ≡ (if i == j then 0 else bit_at l j)
  unfolding bit_at
  bit_at-cleared j = elim (Bool-cases (i / 64 == j / 64)) [
    | inl e ↦
        let same : i / 64 ≡ j / 64 = ground arith in
        rw (get_or-cleared (j / 64), e, bit-clear (j % 64) (i % 64) (get_or l (i / 64) 0), same)
          (ground arith)
    | inr e ↦ rw (get_or-cleared (j / 64), e) (ground arith)
  ]

  pub bit_at-raised : (j : ℕ) → bit_at (raised l i) j ≡ (if i == j then 1 else bit_at l j)
  unfolding bit_at
  bit_at-raised j = elim (Bool-cases (i / 64 == j / 64)) [
    | inl e ↦
        let same : i / 64 ≡ j / 64 = ground arith in
        rw (get_or-raised (j / 64), e, bit-raise (j % 64) (i % 64) (get_or l (i / 64) 0), same)
          (ground arith)
    | inr e ↦ rw (get_or-raised (j / 64), e) (ground arith)
  ]
