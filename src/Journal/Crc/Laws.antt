-- ===== src/Journal/Crc/Laws.antt =====
-- The checksum of chunks is the checksum of their concatenation: briefs/crc32c.go.
use briefs_utils.Base.{ℕ, zero, suc, ◌/◌, ◌^◌, ◌<◌, bit_and, bit_xor, ◌==◌}
use briefs_utils.Base.{
  if◌then◌else◌, true, false, List, [], ◌∷◌, ◌++◌, length, ◌≡◌, refl, ◌∙◌, arith, Bool-cases, inl,
  inr, sym,
}
use briefs_utils.Base.Bits.{bit_xor-lt, bit_and-le}
use briefs_utils.Base.Words.{u32}
use briefs_utils.Base.Bytes.{put_le32, All}
use briefs_utils.Base.Words.{IsByte}
use briefs_utils.Journal.Crc.{
  table_rounds, crc32c_table, complement32, crc_step, crc_loop, crc32c, crc32c_polynomial,
}
use briefs_utils.Journal.Crc.{compute_journal_record_checksum, verify_journal_record_checksum}

table_rounds-lt : (k crc : ℕ) → crc < 2 ^ 32 → table_rounds k crc < 2 ^ 32
unfolding table_rounds
table_rounds-lt zero crc h = h
table_rounds-lt (suc k) crc h = table_rounds-lt k _ (elim (Bool-cases (bit_and crc 1 == 0)) [
  | inl e ↦ rw e (omega arith)
  | inr e ↦ rw e (bit_xor-lt 32 (crc / 2) crc32c_polynomial (omega arith) (omega arith))
])

crc_step-lt : (crc b : ℕ) → crc < 2 ^ 32 → b < 2 ^ 8 → crc_step crc b < 2 ^ 32
unfolding crc_step crc32c_table
crc_step-lt crc b h k = bit_xor-lt 32 (crc / 2 ^ 8) _ (omega arith) (
    table_rounds-lt 8 _
      (omega (arith, bit_and-le (bit_xor crc b) 0xFF, bit_xor-lt 32 crc b h (omega arith))))

crc_loop-lt :
    (crc : ℕ) (bytes : List ℕ) → crc < 2 ^ 32 → All IsByte bytes → crc_loop crc bytes < 2 ^ 32
unfolding crc_loop
crc_loop-lt crc [] h k = h
crc_loop-lt crc (b ∷ bytes) h (k, ks) =
    crc_loop-lt (crc_step crc b) bytes (crc_step-lt crc b h k) ks

crc_loop-append :
    (crc : ℕ) (bytes more : List ℕ)
    → crc_loop crc (bytes ++ more) ≡ crc_loop (crc_loop crc bytes) more
unfolding crc_loop
crc_loop-append crc [] more = refl
crc_loop-append crc (b ∷ bytes) more = crc_loop-append (crc_step crc b) bytes more

-- The test for no data changes nothing.
crc32c-eq :
    (crc : ℕ) (bytes : List ℕ)
    → crc < 2 ^ 32
    → crc32c crc bytes ≡ complement32 (crc_loop (complement32 crc) bytes)
unfolding crc32c crc_loop
crc32c-eq crc [] h = omega arith
crc32c-eq crc (b ∷ bytes) h =
    let some_bytes : (suc (length bytes) == 0) ≡ false = ground arith in rw some_bytes refl

pub crc32c-lt : (crc : ℕ) (bytes : List ℕ) → crc < 2 ^ 32 → crc32c crc bytes < 2 ^ 32
crc32c-lt crc bytes h = omega (arith, crc32c-eq crc bytes h)

-- On 32-bit checksums and bytes, the checksum of one chunk carried into the next is the checksum of
-- the two chunks together.
crc32c-append :
    (crc : ℕ) (bytes more : List ℕ)
    → crc < 2 ^ 32
    → All IsByte bytes
    → crc32c (crc32c crc bytes) more ≡ crc32c crc (bytes ++ more)
crc32c-append crc bytes more h k =
    let twice : complement32 (crc32c crc bytes) ≡ crc_loop (complement32 crc) bytes =
      omega (arith, crc32c-eq crc bytes h, crc_loop-lt (complement32 crc) bytes (omega arith) k) in
    crc32c-eq (crc32c crc bytes) more (crc32c-lt crc bytes h)
    ∙ rw (twice, ← crc_loop-append (complement32 crc) bytes more)
        (sym (crc32c-eq crc (bytes ++ more) h))

put_le32-AreBytes : (x : ℕ) → All IsByte (put_le32 x [])
put_le32-AreBytes x = (omega arith, (omega arith, (omega arith, (omega arith, tt))))

pub compute_journal_record_checksum-lt :
    (record_type flags : ℕ) (bytes : List ℕ)
    → compute_journal_record_checksum record_type flags bytes < 2 ^ 32
unfolding compute_journal_record_checksum
compute_journal_record_checksum-lt record_type flags bytes =
    let s0 : 0 < 2 ^ 32 = omega arith in
    crc32c-lt _ bytes (crc32c-lt _ _ (crc32c-lt _ _ (crc32c-lt 0 (put_le32 record_type []) s0)))

-- The bytes that a record's checksum covers: type, flags and length, and the data.
abbrev pub record_bytes : ℕ → ℕ → List ℕ → List ℕ
record_bytes record_type flags bytes =
    put_le32 record_type [] ++ (put_le32 flags [] ++ (put_le32 (u32 (length bytes)) [] ++ bytes))

-- A record's checksum is the one checksum of its type, flags, length and data in a row, and
-- VerifyJournalRecordChecksum accepts a stored value exactly when it is 0 or that checksum.
pub journal_record_checksum_lem :
    (record_type flags : ℕ) (bytes : List ℕ)
    → (compute_journal_record_checksum record_type flags bytes
        ≡ crc32c 0 (record_bytes record_type flags bytes))
      × ((stored : ℕ)
          → verify_journal_record_checksum record_type flags bytes stored ≡ (
              if stored == 0
              then true
              else crc32c 0 (record_bytes record_type flags bytes) == stored))
unfolding verify_journal_record_checksum compute_journal_record_checksum
journal_record_checksum_lem record_type flags bytes = (joined, λ stored. rw joined)
  where
    joined :
        compute_journal_record_checksum record_type flags bytes
        ≡ crc32c 0 (record_bytes record_type flags bytes)
    joined =
        let t = put_le32 record_type [] in
        let f = put_le32 flags [] in
        let l = put_le32 (u32 (length bytes)) [] in
        let s0 : 0 < 2 ^ 32 = omega arith in
        let s1 = crc32c-lt 0 t s0 in
        let s2 = crc32c-lt _ f s1 in
        crc32c-append _ l bytes s2 (put_le32-AreBytes _)
        ∙ crc32c-append _ f (l ++ bytes) s1 (put_le32-AreBytes _)
        ∙ crc32c-append 0 t (f ++ (l ++ bytes)) s0 (put_le32-AreBytes _)
