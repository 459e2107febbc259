-- ===== src/Base/Bytes.antt =====
-- Byte strings and Go's little-endian integer codecs (encoding/binary).
use Prim.Native.Nat.{ℕ, ◌+◌, ◌*◌, ◌/◌, ◌%◌}
use mathlib.Core.List.{List, [], ◌∷◌}
use briefs_utils.Base.Lists.{get_or}

abbrev pub byte_at : List ℕ → ℕ → ℕ
byte_at b i = get_or b i 0

-- `binary.LittleEndian.Uint16` of two bytes, and of four.
abbrev pub le16 : ℕ → ℕ → ℕ
le16 b0 b1 = b0 + 256 * b1

abbrev pub le32 : ℕ → ℕ → ℕ → ℕ → ℕ
le32 b0 b1 b2 b3 = b0 + 256 * (b1 + 256 * (b2 + 256 * b3))

abbrev pub put_le16 : ℕ → List ℕ → List ℕ
put_le16 x rest = (x % 256) ∷ (x / 256 % 256) ∷ rest

abbrev pub put_le32 : ℕ → List ℕ → List ℕ
put_le32 x rest = (x % 256) ∷ (x / 256 % 256) ∷ (x / 65536 % 256) ∷ (x / 16777216 % 256) ∷ rest

abbrev pub All {ℓ κ} : {A : Type ℓ} → (A → Type κ) → List A → Type κ
All P [] = Unit {κ}
All P (x ∷ xs) = P x × All P xs
