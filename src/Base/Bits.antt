-- ===== src/Base/Bits.antt =====
-- The laws of Go's `&`, `|`, `^` and `&^` on words, digit by digit and at a single bit.
use Prim.Native.Nat.{ℕ, zero, suc, ◌+◌, ◌-◌, ◌*◌, ◌/◌, ◌%◌, ◌^◌, ◌≤◌, ◌<◌, min, max}
use Prim.Native.Nat.{
  bit_and, bit_or, digits, bitwise, bit_and-bitwise, bit_or-bitwise, bit_xor, bit_xor-bitwise,
  differ,
}
use mathlib.Core.Path.{◌≡◌, refl, ap, ◌∙◌}
use mathlib.Core.Logic.{◌≢◌, ◌⊎◌, inl, inr}
use native.Mathlib.Nat.{le_refl, pow-suc, one-le-pow}
use native.Mathlib.Omega.{arith}

ℕ-cases : (n : ℕ) → (n ≡ 0) ⊎ ((m : ℕ) × (n ≡ suc m))
ℕ-cases zero = inl refl
ℕ-cases (suc n) = inr (n, refl)

-- The native operations are a recursion on binary digits, with the first operand as the fuel; fuel
-- beyond what the operand needs changes nothing.
module _ (edge : ℕ → ℕ) (digit : ℕ → ℕ → ℕ) where
  digits-suc :
      (fuel x y : ℕ) → x ≤ fuel → digits edge digit (suc fuel) x y ≡ digits edge digit fuel x y
  digits-suc fuel zero y enough = elim (ℕ-cases fuel) [
    | inl e ↦ rw e refl
    | inr (less, e) ↦ rw e refl
  ]
  digits-suc zero (suc x) y enough = absurd (omega arith)
  digits-suc (suc fuel) (suc x) y enough =
      ap (λ (rest : ℕ). rest * 2 + digit (suc x % 2) (y % 2))
        (digits-suc fuel (suc x / 2) (y / 2) (omega arith))

  digits-plus : (extra x y : ℕ) → digits edge digit (extra + x) x y ≡ digits edge digit x x y
  digits-plus zero x y = let none_extra : zero + x ≡ x = omega arith in rw none_extra
  digits-plus (suc extra) x y =
      let moved : suc extra + x ≡ suc (extra + x) = omega arith in
      rw moved (digits-suc (extra + x) x y (omega arith) ∙ digits-plus extra x y)

  halves :
      (x y : ℕ)
      → x ≢ 0
      → bitwise edge digit x y ≡ bitwise edge digit (x / 2) (y / 2) * 2 + digit (x % 2) (y % 2)
  halves zero y positive = absurd (positive refl)
  halves (suc x) y positive =
      let spare : x ≡ (x - suc x / 2) + suc x / 2 = omega arith in
      let run_down : digits edge digit x (suc x / 2) (y / 2)
          ≡ bitwise edge digit (suc x / 2) (y / 2) =
        ap (λ (fuel : ℕ). digits edge digit fuel (suc x / 2) (y / 2)) spare
        ∙ digits-plus (x - suc x / 2) (suc x / 2) (y / 2) in
      ap (λ (rest : ℕ). rest * 2 + digit (suc x % 2) (y % 2)) run_down

pub bit_or_step : (a b : ℕ) → bit_or a b ≡ bit_or (a / 2) (b / 2) * 2 + max (a % 2) (b % 2)
bit_or_step a b = simp bit_or-bitwise (elim (ℕ-cases a) [
  | inl e ↦ rw e (omega arith)
  | inr (less, e) ↦ halves (λ y. y) max a b (λ none_left. absurd (omega arith))
])

pub bit_and_step : (a b : ℕ) → bit_and a b ≡ bit_and (a / 2) (b / 2) * 2 + min (a % 2) (b % 2)
bit_and_step a b = simp bit_and-bitwise (elim (ℕ-cases a) [
  | inl e ↦ rw e (omega arith)
  | inr (less, e) ↦ halves (λ y. 0) min a b (λ none_left. absurd (omega arith))
])

bit_and-zero_below : (n a : ℕ) → a ≤ n → bit_and a 0 ≡ 0
bit_and-zero_below n zero h = refl
bit_and-zero_below zero (suc a) h = absurd (omega arith)
bit_and-zero_below (suc n) (suc a) h =
    omega (arith, bit_and_step (suc a) 0, bit_and-zero_below n (suc a / 2) (omega arith))

pub bit_and-zero : (a : ℕ) → bit_and a 0 ≡ 0
bit_and-zero a = bit_and-zero_below a a (le_refl a)

bit_or-zero_below : (n a : ℕ) → a ≤ n → bit_or a 0 ≡ a
bit_or-zero_below n zero h = refl
bit_or-zero_below zero (suc a) h = absurd (omega arith)
bit_or-zero_below (suc n) (suc a) h =
    omega (arith, bit_or_step (suc a) 0, bit_or-zero_below n (suc a / 2) (omega arith))

pub bit_or-zero : (a : ℕ) → bit_or a 0 ≡ a
bit_or-zero a = bit_or-zero_below a a (le_refl a)

-- `a &^ b`: the bits of `a` that `b` lacks.
unfoldable pub and_not : ℕ → ℕ → ℕ
and_not a b = a - bit_and a b

bit_and-le_below : (n a b : ℕ) → a ≤ n → bit_and a b ≤ a
bit_and-le_below n zero b h = omega (arith, bit_and-bitwise 0 b)
bit_and-le_below zero (suc a) b h = absurd (omega arith)
bit_and-le_below (suc n) (suc a) b h =
    omega (arith, bit_and_step (suc a) b, bit_and-le_below n (suc a / 2) (b / 2) (omega arith))

pub bit_and-le : (a b : ℕ) → bit_and a b ≤ a
bit_and-le a b = bit_and-le_below a a b (le_refl a)

pub and_not_step :
    (a b : ℕ) → and_not a b ≡ and_not (a / 2) (b / 2) * 2 + (a % 2 - min (a % 2) (b % 2))
unfolding and_not
and_not_step a b = omega (arith, bit_and_step a b, bit_and-le (a / 2) (b / 2))

-- Bit `k` of a word, as 0 or 1.
unfoldable pub bit : ℕ → ℕ → ℕ
bit zero a = a % 2
bit (suc k) a = bit k (a / 2)

pub bit-le : (k a : ℕ) → bit k a ≤ 1
unfolding bit
bit-le zero a = omega arith
bit-le (suc k) a = bit-le k (a / 2)

pub bit-zero : (k : ℕ) → bit k 0 ≡ 0
unfolding bit
bit-zero zero = refl
bit-zero (suc k) = bit-zero k

pub bit-ne_zero : (k a : ℕ) → bit k a ≡ 1 → a ≢ 0
bit-ne_zero k a h e = omega (arith, h, bit-zero k, ap (bit k) e)

-- An operation that works digit by digit does so at every bit.
module _ (op : ℕ → ℕ → ℕ) (f : ℕ → ℕ → ℕ)
    (step : (a b : ℕ) → op a b ≡ op (a / 2) (b / 2) * 2 + f (a % 2) (b % 2))
    (small : (x y : ℕ) → x ≤ 1 → y ≤ 1 → f x y ≤ 1) where
  bit-digits : (k a b : ℕ) → bit k (op a b) ≡ f (bit k a) (bit k b)
  unfolding bit
  bit-digits zero a b = omega (arith, step a b, small (a % 2) (b % 2) (omega arith) (omega arith))
  bit-digits (suc k) a b =
      let half : op a b / 2 ≡ op (a / 2) (b / 2) =
        omega (arith, step a b, small (a % 2) (b % 2) (omega arith) (omega arith)) in
      rw half (bit-digits k (a / 2) (b / 2))

pub bit-bit_or : (k a b : ℕ) → bit k (bit_or a b) ≡ max (bit k a) (bit k b)
bit-bit_or = bit-digits bit_or max bit_or_step (λ x y p q. omega arith)

pub bit-bit_and : (k a b : ℕ) → bit k (bit_and a b) ≡ min (bit k a) (bit k b)
bit-bit_and = bit-digits bit_and min bit_and_step (λ x y p q. omega arith)

pub bit-and_not : (k a b : ℕ) → bit k (and_not a b) ≡ bit k a - min (bit k a) (bit k b)
bit-and_not = bit-digits and_not (λ x y. x - min x y) and_not_step (λ x y p q. omega arith)

-- Words are equal when their bits are.
eq_of_bits_below : (n a b : ℕ) → a ≤ n → b ≤ n → ((k : ℕ) → bit k a ≡ bit k b) → a ≡ b
unfolding bit
eq_of_bits_below zero a b p q h = omega arith
eq_of_bits_below (suc n) a b p q h =
    omega
      (arith, h 0, eq_of_bits_below n (a / 2) (b / 2) (omega arith) (omega arith) (λ k. h (suc k)))

pub eq_of_bits : (a b : ℕ) → ((k : ℕ) → bit k a ≡ bit k b) → a ≡ b
eq_of_bits a b h = eq_of_bits_below (a + b) a b (omega arith) (omega arith) h

-- A word fits `w` bits exactly when the bits from `w` on are clear.
pub bit_above : (w k a : ℕ) → a < 2 ^ w → w ≤ k → bit k a ≡ 0
unfolding bit
bit_above zero k a h p = let e : a ≡ 0 = omega arith in rw e (bit-zero k)
bit_above (suc w) zero a h p = absurd (omega arith)
bit_above (suc w) (suc k) a h p = bit_above w k (a / 2) (omega (arith, pow-suc 2 w)) (omega arith)

pub lt_of_bits : (w a : ℕ) → ((k : ℕ) → w ≤ k → bit k a ≡ 0) → a < 2 ^ w
unfolding bit
lt_of_bits zero a h =
    omega (arith, eq_of_bits a 0 (λ k. omega (arith, h k (omega arith), bit-zero k)))
lt_of_bits (suc w) a h =
    omega (arith, pow-suc 2 w, lt_of_bits w (a / 2) (λ k p. h (suc k) (omega arith)))

pub bit-pow_self : (k : ℕ) → bit k (2 ^ k) ≡ 1
unfolding bit
bit-pow_self zero = refl
bit-pow_self (suc k) =
    let half : 2 ^ suc k / 2 ≡ 2 ^ k = omega (arith, pow-suc 2 k) in rw half (bit-pow_self k)

pub bit-pow_ne : (j k : ℕ) → j ≢ k → bit j (2 ^ k) ≡ 0
unfolding bit
bit-pow_ne zero zero h = absurd (h refl)
bit-pow_ne zero (suc k) h = omega (arith, pow-suc 2 k)
bit-pow_ne (suc j) zero h = bit-zero j
bit-pow_ne (suc j) (suc k) h =
    let half : 2 ^ suc k / 2 ≡ 2 ^ k = omega (arith, pow-suc 2 k) in
    rw half (bit-pow_ne j k (λ e. h (ap suc e)))

-- Bit `j` of the mask `(1 << n) - 1`.
pub bit-mask_lt : (j n : ℕ) → j < n → bit j (2 ^ n - 1) ≡ 1
unfolding bit
bit-mask_lt j zero h = absurd (omega arith)
bit-mask_lt zero (suc n) h = omega (arith, pow-suc 2 n, one-le-pow n 2)
bit-mask_lt (suc j) (suc n) h =
    let half : (2 ^ suc n - 1) / 2 ≡ 2 ^ n - 1 = omega (arith, pow-suc 2 n, one-le-pow n 2) in
    rw half (bit-mask_lt j n (omega arith))

pub bit-mask_ge : (j n : ℕ) → n ≤ j → bit j (2 ^ n - 1) ≡ 0
bit-mask_ge j n h = bit_above n j (2 ^ n - 1) (omega (arith, one-le-pow n 2)) h

-- The operations keep words of `w` bits.
pub and_not-lt : (w a b : ℕ) → a < 2 ^ w → and_not a b < 2 ^ w
unfolding and_not
and_not-lt w a b h = omega arith

pub bit_or-lt : (w a b : ℕ) → a < 2 ^ w → b < 2 ^ w → bit_or a b < 2 ^ w
bit_or-lt w a b p q =
    lt_of_bits w (bit_or a b)
      λ k h. omega (arith, bit-bit_or k a b, bit_above w k a p h, bit_above w k b q h)

pub pow-lt : (k w : ℕ) → k < w → 2 ^ k < 2 ^ w
pow-lt k w h = lt_of_bits w (2 ^ k) λ j p. bit-pow_ne j k (λ e. absurd (omega arith))

pub and_not-le : (a b : ℕ) → and_not a b ≤ a
unfolding and_not
and_not-le a b = omega arith

pub bit_or-ne_zero : (a b : ℕ) → a ≢ 0 → bit_or a b ≢ 0
bit_or-ne_zero a b h e =
    h (eq_of_bits a 0 λ k. omega (arith, bit-bit_or k a b, ap (bit k) e, bit-zero k))

pub bit_or-ne_zero_right : (a b : ℕ) → b ≢ 0 → bit_or a b ≢ 0
bit_or-ne_zero_right a b h e =
    h (eq_of_bits b 0 λ k. omega (arith, bit-bit_or k a b, ap (bit k) e, bit-zero k))

-- A shift left moves the bits up.
pub bit-shl : (n k j x : ℕ) → j ≡ n + k → bit j (x * 2 ^ n) ≡ bit k x
unfolding bit
bit-shl zero k j x e =
    let same : j ≡ k = omega arith in let one : x * 2 ^ 0 ≡ x = omega arith in rw (same, one)
bit-shl (suc n) k zero x e = absurd (omega arith)
bit-shl (suc n) k (suc j) x e =
    let half : x * 2 ^ suc n / 2 ≡ x * 2 ^ n = omega (arith, ap (λ (t : ℕ). x * t) (pow-suc 2 n)) in
    rw half (bit-shl n k j x (omega arith))

pub bit_xor_step : (a b : ℕ) → bit_xor a b ≡ bit_xor (a / 2) (b / 2) * 2 + differ (a % 2) (b % 2)
bit_xor_step a b = simp bit_xor-bitwise (elim (ℕ-cases a) [
  | inl e ↦ rw e (even_odd (b % 2) (b / 2) b (omega arith) (omega arith))
  | inr (less, e) ↦ halves (λ y. y) differ a b (λ none_left. absurd (omega arith))
])
  where
    even_odd : (r q x : ℕ) → r ≤ 1 → x ≡ q * 2 + r → x ≡ q * 2 + differ 0 r
    even_odd zero q x h e = e
    even_odd (suc zero) q x h e = e
    even_odd (suc (suc r)) q x h e = absurd (omega arith)

differ-le : (x y : ℕ) → x ≤ 1 → y ≤ 1 → differ x y ≤ 1
differ-le zero zero p q = omega arith
differ-le zero (suc y) p q = omega arith
differ-le (suc x) zero p q = omega arith
differ-le (suc zero) (suc zero) p q = omega arith
differ-le (suc (suc x)) (suc y) p q = absurd (omega arith)
differ-le (suc zero) (suc (suc y)) p q = absurd (omega arith)

pub bit_xor-lt : (w a b : ℕ) → a < 2 ^ w → b < 2 ^ w → bit_xor a b < 2 ^ w
bit_xor-lt zero a b p q =
    let a0 : a ≡ 0 = omega arith in let b0 : b ≡ 0 = omega arith in rw (a0, b0) (omega arith)
bit_xor-lt (suc w) a b p q = omega (
  arith,
  pow-suc 2 w,
  bit_xor_step a b,
  differ-le (a % 2) (b % 2) (omega arith) (omega arith),
  bit_xor-lt w (a / 2) (b / 2) (omega (arith, pow-suc 2 w)) (omega (arith, pow-suc 2 w)),
)
