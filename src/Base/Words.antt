-- ===== src/Base/Words.antt =====
-- Machine words: what wraps is written out. An int64 is its word in two's complement.
use Prim.Native.Nat.{ℕ, ◌+◌, ◌-◌, ◌/◌, ◌%◌, ◌^◌, ◌<◌}
use mathlib.Core.Path.{◌≡◌}
use mathlib.Core.Bool.{Bool}
use native.Mathlib.Omega.{arith}
use briefs_utils.Base.Tests.{ltb, leb, if◌then◌else◌}

abbrev pub u16 : ℕ → ℕ
u16 n = n % 2 ^ 16

abbrev pub u32 : ℕ → ℕ
u32 n = n % 2 ^ 32

abbrev pub u64 : ℕ → ℕ
u64 n = n % 2 ^ 64

-- `x--` on a uint64.
abbrev pub dec64 : ℕ → ℕ
dec64 n = (n + (2 ^ 64 - 1)) % 2 ^ 64

-- `x++` on a uint64.
abbrev pub inc64 : ℕ → ℕ
inc64 n = (n + 1) % 2 ^ 64

abbrev pub IsByte : ℕ → Type 0
IsByte n = n < 2 ^ 8

-- `-` on 64-bit words.
abbrev pub sub64 : ℕ → ℕ → ℕ
sub64 a b = u64 (a + (2 ^ 64 - b))

-- `<` and `<=` on int64.
abbrev pub slt : ℕ → ℕ → Bool
slt a b = ltb (u64 (a + 2 ^ 63)) (u64 (b + 2 ^ 63))

abbrev pub sle : ℕ → ℕ → Bool
sle a b = leb (u64 (a + 2 ^ 63)) (u64 (b + 2 ^ 63))

-- `/` and `%` of an int64 by a positive one: they cut towards 0.
abbrev pub quot64 : ℕ → ℕ → ℕ
quot64 a n = if ltb a (2 ^ 63) then a / n else u64 (2 ^ 64 - (2 ^ 64 - a) / n)

abbrev pub rem64 : ℕ → ℕ → ℕ
rem64 a n = if ltb a (2 ^ 63) then a % n else u64 (2 ^ 64 - (2 ^ 64 - a) % n)

pub slt-positive : (a b : ℕ) → a < 2 ^ 63 → b < 2 ^ 63 → slt a b ≡ ltb a b
slt-positive a b h k = ground arith

pub sle-positive : (a b : ℕ) → a < 2 ^ 63 → b < 2 ^ 63 → sle a b ≡ leb a b
sle-positive a b h k = ground arith
