-- ===== src/Journal/Block.antt =====
-- One block of the journal as bytes: its header and its records, as MarshalJournalBlockHeader,
-- ParseRecordHeader and IterateJournalBlockRecords of briefs/journal_replay.go, the codecs of
-- briefs/gen_disk.go, and the writer of briefs/journal_write.go lay them out.
-- A buffer is a function from an index to a byte; `copy_at` writes no further than the bytes it
-- is given, and its callers have made sure that they fit; an offset in a block stays far below
-- 2 ^ 64.
pub mod Records
pub mod Framed
use briefs_utils.Base.{ℕ, zero, suc, ◌+◌, ◌-◌, ◌/◌, ◌%◌, ◌^◌, ltb}
use briefs_utils.Base.{if◌then◌else◌, Option, none, some, List, [], ◌∷◌, length, get_or}
use briefs_utils.Base.Words.{u32}
use briefs_utils.Base.Bytes.{le32, put_le32}
use briefs_utils.Journal.Crc.{compute_journal_record_checksum}
use briefs_utils.Journal.Ring.{magic_journal, magic_checkpoint}

abbrev pub Buffer : Type 0
Buffer = ℕ → ℕ

-- `make([]byte, n)`.
abbrev pub zeroes : Buffer
zeroes i = 0

-- `copy(buf[off:], bytes)`.
unfoldable pub copy_at : Buffer → ℕ → List ℕ → Buffer
copy_at buf off bytes i = if ltb i off then buf i else get_or bytes (i - off) (buf i)

-- `buf[off : off+n]`.
unfoldable pub slice : Buffer → ℕ → ℕ → List ℕ
slice buf off zero = []
slice buf off (suc n) = buf off ∷ slice buf (off + 1) n

unfoldable pub uint32_at : Buffer → ℕ → ℕ
uint32_at buf off = le32 (buf off) (buf (off + 1)) (buf (off + 2)) (buf (off + 3))

pub record JournalBlockHeader : Type 0 where
  pub magic : ℕ
  pub block_seq : ℕ
  pub record_count : ℕ
  pub reserved : ℕ

pub record RecordHeader : Type 0 where
  pub record_type : ℕ
  pub flags : ℕ
  pub data_len : ℕ
  pub checksum : ℕ

-- Both headers are four 32-bit words.
unfoldable pub marshal_block_header : JournalBlockHeader → List ℕ
marshal_block_header h =
    put_le32 h.magic (put_le32 h.block_seq (put_le32 h.record_count (put_le32 h.reserved [])))

unfoldable pub marshal_record_header : RecordHeader → List ℕ
marshal_record_header h =
    put_le32 h.record_type (put_le32 h.flags (put_le32 h.data_len (put_le32 h.checksum [])))

unfoldable pub parse_block_header : Buffer → JournalBlockHeader
unfolding uint32_at
parse_block_header buf = record {
  magic = uint32_at buf 0;
  block_seq = uint32_at buf 4;
  record_count = uint32_at buf 8;
  reserved = uint32_at buf 12;
}

unfoldable pub parse_record_header : Buffer → ℕ → RecordHeader
unfolding uint32_at
parse_record_header buf off = record {
  record_type = uint32_at buf off;
  flags = uint32_at buf (off + 4);
  data_len = uint32_at buf (off + 8);
  checksum = uint32_at buf (off + 12);
}

abbrev pub journal_block_hdr_size : ℕ
journal_block_hdr_size = 16

abbrev pub journal_record_hdr_size : ℕ
journal_record_hdr_size = 16

abbrev pub journal_block_size : ℕ
journal_block_size = 4096

-- How the walk of a block's records ends, with the visitor's state and the record it ended at.
pub data Iterated {ℓ} (S : Type ℓ) : Type ℓ where
  iterated : S → Iterated S
  overflowed visit_stopped : ℕ → S → Iterated S

module _ {ℓ} {S : Type ℓ} (buf : Buffer) (block_size : ℕ)
    (visit : ℕ → RecordHeader → List ℕ → S → Option S) where
  -- The loop with `left` records to go, at record `i` and offset `off`.
  unfoldable pub iterate_from : ℕ → ℕ → ℕ → S → Iterated S
  iterate_from zero i off s = iterated s
  iterate_from (suc left) i off s =
      let hdr = parse_record_header buf off in
      let stop = off + journal_record_hdr_size + hdr.data_len in
      let payload = slice buf (off + journal_record_hdr_size) hdr.data_len in
      let visited : Iterated S = elim (visit i hdr payload s) [
        | none ↦ visit_stopped i s
        | some s' ↦ iterate_from left (i + 1) stop s'
      ] in
      if ltb block_size (off + journal_record_hdr_size)
      then iterated s
      else if ltb block_size stop
      then overflowed i s
      else visited

  unfoldable pub iterate_journal_block_records : ℕ → S → Iterated S
  unfolding iterate_from
  iterate_journal_block_records record_count s =
      iterate_from record_count 0 journal_block_hdr_size s

-- The fresh header of `initCurBlock`.
unfoldable pub init_block : ℕ → Buffer
init_block seq = copy_at zeroes 0 (
    marshal_block_header
      (record { magic = magic_journal; block_seq = seq; record_count = 0; reserved = 0 }))

unfoldable pub record_header : ℕ → List ℕ → RecordHeader
record_header record_type bytes = record {
  record_type = record_type;
  flags = 0;
  data_len = u32 (length bytes);
  checksum = compute_journal_record_checksum record_type 0 bytes;
}

-- The header's `bh.RecordCount++`.
unfoldable pub count_record : Buffer → Buffer
count_record buf =
    let bh = parse_block_header buf in
    copy_at buf 0 (marshal_block_header (record bh { record_count = u32 (bh.record_count + 1) }))

-- The record's bytes and the new count, as the end of `writeRecordLocked` writes them at `off`.
unfoldable pub append_record : Buffer → ℕ → ℕ → List ℕ → Buffer
append_record buf off record_type bytes =
    let with_header = copy_at buf off (marshal_record_header (record_header record_type bytes)) in
    count_record (copy_at with_header (off + journal_record_hdr_size) bytes)

pub record Checkpoint : Type 0 where
  pub seq : ℕ
  pub record_count : ℕ
  pub log_sequence_end : ℕ
  pub trie_root_node : ℕ
  pub free_data_count : ℕ
  pub free_inode_count : ℕ

unfoldable pub put_le64 : ℕ → List ℕ → List ℕ
put_le64 x rest = put_le32 x (put_le32 (x / 2 ^ 32) rest)

-- Checkpoint.MarshalBinary, with both reserved fields 0.
unfoldable pub marshal_checkpoint : Checkpoint → List ℕ
unfolding put_le64
marshal_checkpoint cp = put_le64 cp.seq (
    put_le32 cp.record_count (
      put_le32 0 (
        put_le64 cp.log_sequence_end (
          put_le64 cp.trie_root_node
            (put_le64 cp.free_data_count (put_le64 cp.free_inode_count (put_le64 0 [])))))))

abbrev pub jrn_checkpoint : ℕ
jrn_checkpoint = 8

unfoldable pub write_checkpoint_block : Buffer → ℕ → Checkpoint → Buffer
write_checkpoint_block buf seq cp =
    let bytes = marshal_checkpoint cp in
    let header = copy_at buf 0 (
      marshal_block_header
        (record { magic = magic_checkpoint; block_seq = seq; record_count = 1; reserved = 0 })) in
    copy_at
      (copy_at header journal_block_hdr_size
        (marshal_record_header (record_header jrn_checkpoint bytes)))
      (journal_block_hdr_size + journal_record_hdr_size) bytes
