-- ===== src/Journal/Block/Framed.antt =====
-- A journal block between two appends, and its walk: `initCurBlock` and the end of
-- `writeRecordLocked` of briefs/journal_write.go, and IterateJournalBlockRecords of
-- briefs/journal_replay.go.
use briefs_utils.Base.{ℕ, ◌+◌, ◌^◌, ◌≤◌, ◌<◌, ltb}
use briefs_utils.Base.{
  false, Option, none, some, List, [], ◌∷◌, ◌++◌, length, length-append, ◌≡◌, refl, ◌∙◌, ap, arith,
  Option-cases, inl, inr,
}
use briefs_utils.Base.Words.{u32}
use briefs_utils.Journal.Ring.{magic_journal}
use briefs_utils.Journal.Block.{
  Buffer, zeroes, copy_at, slice, RecordHeader, JournalBlockHeader, marshal_block_header,
  marshal_record_header, parse_block_header, parse_record_header, Iterated, iterated, visit_stopped,
  iterate_from, iterate_journal_block_records, init_block, count_record, append_record,
  journal_block_hdr_size, journal_record_hdr_size, journal_block_size,
}
use briefs_utils.Journal.Block.Records.{
  LogRecord, header_of, extent_of, extent_of-append, RecordsAt, RecordsAt-same, RecordsAt-append,
  copy_at-before, copy_at-after, slice-copy_at, slice-same, word-copy_at, parse_block_header-same,
  length-le-extent_of, data_len-record_header, header_of-copy_at, parse_record_header-same,
}

abbrev pub journal_header : ℕ → ℕ → JournalBlockHeader
journal_header seq count = record {
  magic = magic_journal;
  block_seq = seq;
  record_count = count;
  reserved = 0;
}

-- A journal block with these records, and nothing counted beside them.
pub record IsBlock (buf : Buffer) (seq : ℕ) (rs : List LogRecord) : Type 0 where
  pub header : parse_block_header buf ≡ journal_header seq (length rs)
  pub held : RecordsAt buf journal_block_hdr_size rs
  pub fits : journal_block_hdr_size + extent_of rs ≤ journal_block_size

parse_block_header-copy_at :
    (buf : Buffer) (seq count : ℕ)
    → seq < 2 ^ 32
    → count < 2 ^ 32
    → parse_block_header (copy_at buf 0 (marshal_block_header (journal_header seq count)))
      ≡ journal_header seq count
unfolding parse_block_header marshal_block_header
parse_block_header-copy_at buf seq count s c =
    let b = marshal_block_header (journal_header seq count) in
    rw
      (
        word-copy_at buf 0 0 b magic_journal (omega arith) (λ d. refl) (λ d. refl) (λ d. refl)
            (λ d. refl),
        word-copy_at buf 0 4 b seq s (λ d. refl) (λ d. refl) (λ d. refl) (λ d. refl),
        word-copy_at buf 0 8 b count c (λ d. refl) (λ d. refl) (λ d. refl) (λ d. refl),
        word-copy_at buf 0 12 b 0 (omega arith) (λ d. refl) (λ d. refl) (λ d. refl) (λ d. refl),
      )
      refl

-- A fresh block holds nothing.
pub init_block-IsBlock : (seq : ℕ) → seq < 2 ^ 32 → IsBlock (init_block seq) seq []
unfolding init_block
init_block-IsBlock seq h = record {
  header = parse_block_header-copy_at zeroes seq 0 h (omega arith);
  held = tt;
  fits = omega arith;
}

count_record-after : (buf : Buffer) (i : ℕ) → 16 ≤ i → count_record buf i ≡ buf i
unfolding count_record marshal_block_header
count_record-after buf i h = copy_at-after buf 0 _ i (omega arith)

count_record-counts :
    (buf : Buffer) (seq count : ℕ)
    → seq < 2 ^ 32
    → parse_block_header buf ≡ journal_header seq count
    → parse_block_header (count_record buf) ≡ journal_header seq (u32 (count + 1))
unfolding count_record
count_record-counts buf seq count s h =
    rw h (parse_block_header-copy_at buf seq (u32 (count + 1)) s (omega arith))

-- A record that fits behind the records of a block, with a sequence number and a type of 32 bits,
-- is appended to them: the block then holds them and the new one, and its header counts them.
pub append_record-IsBlock :
    (buf : Buffer) (seq record_type : ℕ) (bytes : List ℕ) (rs : List LogRecord)
    → IsBlock buf seq rs
    → seq < 2 ^ 32
    → record_type < 2 ^ 32
    → journal_block_hdr_size + extent_of rs + journal_record_hdr_size + length bytes
      ≤ journal_block_size
    → IsBlock
        (append_record buf (journal_block_hdr_size + extent_of rs) record_type bytes)
        seq
        (rs ++ record { record_type = record_type; bytes = bytes } ∷ [])
unfolding append_record
append_record-IsBlock buf seq record_type bytes rs b s t fit = record {
  header =
      rw (length-append rs (r ∷ []))
        (counted ∙ ap (journal_header seq) (omega (arith, length-le-extent_of rs)));
  held =
      RecordsAt-append out 16 rs (r ∷ [])
        (RecordsAt-same buf out 16 rs (λ i lo hi. frame i lo hi) b.held) (head, payload, tt);
  fits = omega (arith, extent_of-append rs (r ∷ []));
}
  where
    r : LogRecord
    r = record { record_type = record_type; bytes = bytes }

    off : ℕ
    off = journal_block_hdr_size + extent_of rs

    with_header : Buffer
    with_header = copy_at buf off (marshal_record_header (header_of r))

    with_bytes : Buffer
    with_bytes = copy_at with_header (off + journal_record_hdr_size) bytes

    out : Buffer
    out = append_record buf off record_type bytes

    out-at : (i : ℕ) → 16 ≤ i → out i ≡ with_bytes i
    out-at i h = count_record-after with_bytes i h

    before : (i : ℕ) → i < off → with_bytes i ≡ buf i
    before i h =
        copy_at-before with_header _ bytes i (omega arith)
        ∙ copy_at-before buf off (marshal_record_header (header_of r)) i h

    frame : (i : ℕ) → 16 ≤ i → i < off → out i ≡ buf i
    frame i lo hi = out-at i lo ∙ before i hi

    head : parse_record_header out off ≡ header_of r
    head =
        parse_record_header-same out with_header off
          (λ i lo hi. out-at i (omega arith) ∙ copy_at-before with_header _ bytes i hi)
        ∙ header_of-copy_at buf off r t

    payload : slice out (off + journal_record_hdr_size) (length bytes) ≡ bytes
    payload =
        slice-same out with_bytes _ (length bytes) (λ i lo hi. out-at i (omega arith))
        ∙ slice-copy_at with_header _ bytes

    counted : parse_block_header out ≡ journal_header seq (u32 (length rs + 1))
    counted =
        count_record-counts with_bytes seq (length rs) s
          (parse_block_header-same with_bytes buf (λ i lo hi. before i (omega arith)) ∙ b.header)

-- What a walk over the records does, with a visitor.
unfoldable pub visit_all {ℓ} :
    {S : Type ℓ} → (ℕ → RecordHeader → List ℕ → S → Option S) → ℕ → List LogRecord → S → Iterated S
visit_all visit i [] s = iterated s
visit_all visit i (r ∷ rs) s = elim (visit i (header_of r) r.bytes s) [
  | none ↦ visit_stopped i s
  | some s' ↦ visit_all visit (i + 1) rs s'
]

iterate_from-visits {ℓ} :
    {S : Type ℓ} (buf : Buffer) (block_size : ℕ) (visit : ℕ → RecordHeader → List ℕ → S → Option S)
    (rs : List LogRecord) (i off : ℕ) (s : S)
    → RecordsAt buf off rs
    → off + extent_of rs ≤ block_size
    → block_size < 2 ^ 32
    → iterate_from buf block_size visit (length rs) i off s ≡ visit_all visit i rs s
unfolding iterate_from visit_all
iterate_from-visits buf block_size visit [] i off s h fit small = refl
iterate_from-visits buf block_size visit (r ∷ rs) i off s (head, payload, rest) fit small =
    let len = data_len-record_header r.record_type r.bytes (omega arith) in
    let stop : off + journal_record_hdr_size + (header_of r).data_len
        ≡ off + journal_record_hdr_size + length r.bytes =
      omega (arith, len) in
    let room : ltb block_size (off + journal_record_hdr_size) ≡ false = ground arith in
    let whole : ltb block_size (off + journal_record_hdr_size + length r.bytes) ≡ false =
      ground arith in
    let next : off + journal_record_hdr_size + (parse_record_header buf off).data_len
        ≡ off + journal_record_hdr_size + length r.bytes =
      rw head stop in
    let bytes : slice buf (off + journal_record_hdr_size) (parse_record_header buf off).data_len
        ≡ r.bytes =
      rw (head, len) payload in
    rw (next, room, whole, bytes, head)
      (elim (Option-cases (visit i (header_of r) r.bytes s)) [
        | inl e ↦ rw (e, visit_all) refl
        | inr (s', e) ↦
            rw (e, next, visit_all)
              (iterate_from-visits buf block_size visit rs (i + 1)
                (off + journal_record_hdr_size + length r.bytes) s' rest (omega arith) small)
      ])

-- On a block that holds a list of records, of a size of at least 4096 and below 2 ^ 32,
-- IterateJournalBlockRecords with the count of the block's header visits exactly these records, in
-- order, each with its index, header and bytes, up to the first that the visitor refuses.
pub iterate_journal_block_records-visits {ℓ} :
    {S : Type ℓ} (buf : Buffer) (block_size seq : ℕ)
    (visit : ℕ → RecordHeader → List ℕ → S → Option S) (rs : List LogRecord) (s : S)
    → IsBlock buf seq rs
    → journal_block_size ≤ block_size
    → block_size < 2 ^ 32
    → iterate_journal_block_records buf block_size visit (parse_block_header buf).record_count s
      ≡ visit_all visit 0 rs s
unfolding iterate_journal_block_records
iterate_journal_block_records-visits buf block_size seq visit rs s b large small =
    rw b.header
      (iterate_from-visits buf block_size visit rs 0 16 s b.held (omega (arith, b.fits)) small)
