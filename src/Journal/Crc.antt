-- ===== src/Journal/Crc.antt =====
-- CRC32C as briefs/crc32c.go computes it, over chunks and over a record; the checksum test of
-- briefs/journal_replay.go and of an extent block.
pub mod Laws
use briefs_utils.Base.{ℕ, zero, suc, ◌+◌, ◌-◌, ◌*◌, ◌/◌, ◌%◌, ◌^◌, bit_and, bit_xor, ◌==◌, ltb}
use briefs_utils.Base.{if◌then◌else◌, Bool, true, ◌||◌, List, [], ◌∷◌, length, take}
use briefs_utils.Base.Words.{u32}
use briefs_utils.Base.Bytes.{put_le32}

abbrev pub crc32c_polynomial : ℕ
crc32c_polynomial = 0x1EDC6F41

-- `k` rounds of the inner loop that fills the table.
unfoldable pub table_rounds : ℕ → ℕ → ℕ
table_rounds zero crc = crc
table_rounds (suc k) crc =
    table_rounds k (if bit_and crc 1 == 0 then crc / 2 else bit_xor (crc / 2) crc32c_polynomial)

-- crc32cTable[i].
unfoldable pub crc32c_table : ℕ → ℕ
crc32c_table i = table_rounds 8 i

-- Go's `^crc` on a uint32.
abbrev pub complement32 : ℕ → ℕ
complement32 x = 2 ^ 32 - 1 - x

unfoldable pub crc_step : ℕ → ℕ → ℕ
crc_step crc b = bit_xor (crc / 2 ^ 8) (crc32c_table (bit_and (bit_xor crc b) 0xFF))

unfoldable pub crc_loop : ℕ → List ℕ → ℕ
crc_loop crc [] = crc
crc_loop crc (b ∷ bytes) = crc_loop (crc_step crc b) bytes

unfoldable pub crc32c : ℕ → List ℕ → ℕ
crc32c crc bytes =
    if length bytes == 0 then crc else complement32 (crc_loop (complement32 crc) bytes)

unfoldable pub compute_journal_record_checksum : ℕ → ℕ → List ℕ → ℕ
compute_journal_record_checksum record_type flags bytes =
    let c0 = crc32c 0 (put_le32 record_type []) in
    let c1 = crc32c c0 (put_le32 flags []) in
    let c2 = crc32c c1 (put_le32 (u32 (length bytes)) []) in crc32c c2 bytes

unfoldable pub verify_journal_record_checksum : ℕ → ℕ → List ℕ → ℕ → Bool
verify_journal_record_checksum record_type flags bytes stored =
    let computed = compute_journal_record_checksum record_type flags bytes in
    if stored == 0 then true else computed == stored

-- ExtentChainChecksumOffset.
abbrev pub chain_checksum_offset : ℕ
chain_checksum_offset = 4080

unfoldable pub compute_chain_checksum : List ℕ → ℕ → ℕ
compute_chain_checksum buf block_size =
    let checksum = crc32c 0 (take chain_checksum_offset buf) in
    if ltb (length buf) block_size || ltb block_size chain_checksum_offset then 0 else checksum
