-- ===== src/Journal/Block/Records.antt =====
-- What a journal block holds, and how its walk and its writer agree on it: the record framing of
-- briefs/journal_write.go and briefs/journal_replay.go.
use briefs_utils.Base.{ℕ, zero, suc, ◌+◌, ◌-◌, ◌*◌, ◌/◌, ◌%◌, ◌^◌, ◌≤◌, ◌<◌, ltb}
use briefs_utils.Base.{
  false, List, [], ◌∷◌, ◌++◌, length, get_or, get_or-out, ◌≡◌, refl, ◌∙◌, arith,
}
use briefs_utils.Base.Bytes.{le32}
use briefs_utils.Journal.Crc.Laws.{compute_journal_record_checksum-lt}
use briefs_utils.Journal.Block.{
  Buffer, copy_at, slice, uint32_at, RecordHeader, marshal_record_header, parse_block_header,
  parse_record_header, record_header, journal_record_hdr_size,
}

-- A record as its writer is given it.
pub record LogRecord : Type 0 where
  pub record_type : ℕ
  pub bytes : List ℕ

abbrev pub header_of : LogRecord → RecordHeader
header_of r = record_header r.record_type r.bytes

-- The bytes that a list of records takes.
abbrev pub extent_of : List LogRecord → ℕ
extent_of [] = 0
extent_of (r ∷ rs) = journal_record_hdr_size + length r.bytes + extent_of rs

-- The buffer holds the records, one after the other from `off`.
abbrev pub RecordsAt : Buffer → ℕ → List LogRecord → Type 0
RecordsAt buf off [] = Unit {0}
RecordsAt buf off (r ∷ rs) =
    (parse_record_header buf off ≡ header_of r)
    × (slice buf (off + journal_record_hdr_size) (length r.bytes) ≡ r.bytes)
    × RecordsAt buf (off + journal_record_hdr_size + length r.bytes) rs

-- Two buffers with the same bytes in a range.
abbrev pub SameIn : Buffer → Buffer → ℕ → ℕ → Type 0
SameIn buf buf' lo hi = (i : ℕ) → lo ≤ i → i < hi → buf i ≡ buf' i

pub uint32_at-same :
    (buf buf' : Buffer) (off : ℕ)
    → SameIn buf buf' off (off + 4)
    → uint32_at buf off ≡ uint32_at buf' off
unfolding uint32_at
uint32_at-same buf buf' off h = ground (
  arith,
  h off (omega arith) (omega arith),
  h (off + 1) (omega arith) (omega arith),
  h (off + 2) (omega arith) (omega arith),
  h (off + 3) (omega arith) (omega arith),
)

pub slice-same :
    (buf buf' : Buffer) (off n : ℕ)
    → SameIn buf buf' off (off + n)
    → slice buf off n ≡ slice buf' off n
unfolding slice
slice-same buf buf' off zero h = refl
slice-same buf buf' off (suc n) h =
    rw
      (
        h off (omega arith) (omega arith),
        slice-same buf buf' (off + 1) n (λ i lo hi. h i (omega arith) (omega arith)),
      )
      refl

pub parse_record_header-same :
    (buf buf' : Buffer) (off : ℕ)
    → SameIn buf buf' off (off + journal_record_hdr_size)
    → parse_record_header buf off ≡ parse_record_header buf' off
unfolding parse_record_header
parse_record_header-same buf buf' off h =
    rw
      (
        uint32_at-same buf buf' off (λ i lo hi. h i (omega arith) (omega arith)),
        uint32_at-same buf buf' (off + 4) (λ i lo hi. h i (omega arith) (omega arith)),
        uint32_at-same buf buf' (off + 8) (λ i lo hi. h i (omega arith) (omega arith)),
        uint32_at-same buf buf' (off + 12) (λ i lo hi. h i (omega arith) (omega arith)),
      )
      refl

pub RecordsAt-same :
    (buf buf' : Buffer) (off : ℕ) (rs : List LogRecord)
    → SameIn buf' buf off (off + extent_of rs)
    → RecordsAt buf off rs
    → RecordsAt buf' off rs
RecordsAt-same buf buf' off [] h k = tt
RecordsAt-same buf buf' off (r ∷ rs) h (head, payload, rest) = (
  parse_record_header-same buf' buf off (λ i lo hi. h i (omega arith) (omega arith)) ∙ head,
  slice-same buf' buf _ (length r.bytes) (λ i lo hi. h i (omega arith) (omega arith)) ∙ payload,
  RecordsAt-same buf buf' (off + journal_record_hdr_size + length r.bytes) rs
      (λ i lo hi. h i (omega arith) (omega arith)) rest,
)

pub extent_of-append : (rs ss : List LogRecord) → extent_of (rs ++ ss) ≡ extent_of rs + extent_of ss
extent_of-append [] ss = omega arith
extent_of-append (r ∷ rs) ss = omega (arith, extent_of-append rs ss)

pub RecordsAt-append :
    (buf : Buffer) (off : ℕ) (rs ss : List LogRecord)
    → RecordsAt buf off rs
    → RecordsAt buf (off + extent_of rs) ss
    → RecordsAt buf off (rs ++ ss)
RecordsAt-append buf off [] ss h k = let e : off + 0 ≡ off = omega arith in rw e at k
RecordsAt-append buf off (r ∷ rs) ss (head, payload, rest) k =
    let e : off + (journal_record_hdr_size + length r.bytes + extent_of rs)
        ≡ off + journal_record_hdr_size + length r.bytes + extent_of rs =
      omega arith in
    (
      head,
      payload,
      RecordsAt-append buf (off + journal_record_hdr_size + length r.bytes) rs ss rest (rw e at k),
    )

pub copy_at-before :
    (buf : Buffer) (off : ℕ) (bytes : List ℕ) (i : ℕ) → i < off → copy_at buf off bytes i ≡ buf i
unfolding copy_at
copy_at-before buf off bytes i h = ground arith

pub copy_at-at :
    (buf : Buffer) (off : ℕ) (bytes : List ℕ) (k : ℕ)
    → copy_at buf off bytes (off + k) ≡ get_or bytes k (buf (off + k))
unfolding copy_at
copy_at-at buf off bytes k =
    let after : ltb (off + k) off ≡ false = ground arith in
    let e : off + k - off ≡ k = omega arith in rw (after, e) refl

pub copy_at-after :
    (buf : Buffer) (off : ℕ) (bytes : List ℕ) (i : ℕ)
    → off + length bytes ≤ i
    → copy_at buf off bytes i ≡ buf i
unfolding copy_at
copy_at-after buf off bytes i h =
    let after : ltb i off ≡ false = ground arith in
    rw after (get_or-out bytes (i - off) (buf i) (omega arith))

slice-eq :
    (buf : Buffer) (off : ℕ) (bytes : List ℕ) (d : ℕ → ℕ)
    → ((k : ℕ) → buf (off + k) ≡ get_or bytes k (d k))
    → slice buf off (length bytes) ≡ bytes
unfolding slice
slice-eq buf off [] d h = refl
slice-eq buf off (b ∷ bytes) d h =
    let here : off + 0 ≡ off = omega arith in
    let first : buf off ≡ b = rw here at (h 0) in
    rw
      (
        first,
        slice-eq buf (off + 1) bytes (λ k. d (suc k))
            (λ k. let e : off + 1 + k ≡ off + suc k = omega arith in rw e (h (suc k))),
      )
      refl

-- What was copied is read back.
pub slice-copy_at :
    (buf : Buffer) (off : ℕ) (bytes : List ℕ)
    → slice (copy_at buf off bytes) off (length bytes) ≡ bytes
slice-copy_at buf off bytes =
    slice-eq (copy_at buf off bytes) off bytes (λ k. buf (off + k)) (copy_at-at buf off bytes)

le32_put :
    (x : ℕ) → x < 2 ^ 32 → le32 (x % 256) (x / 256 % 256) (x / 65536 % 256) (x / 16777216 % 256) ≡ x
le32_put x h = omega arith

-- A word of a header that was copied is read back.
pub word-copy_at :
    (buf : Buffer) (off k : ℕ) (bytes : List ℕ) (x : ℕ)
    → x < 2 ^ 32
    → ((d : ℕ) → get_or bytes k d ≡ x % 256)
    → ((d : ℕ) → get_or bytes (k + 1) d ≡ x / 256 % 256)
    → ((d : ℕ) → get_or bytes (k + 2) d ≡ x / 65536 % 256)
    → ((d : ℕ) → get_or bytes (k + 3) d ≡ x / 16777216 % 256)
    → uint32_at (copy_at buf off bytes) (off + k) ≡ x
unfolding uint32_at
word-copy_at buf off k bytes x h b0 b1 b2 b3 =
    let e1 : off + k + 1 ≡ off + (k + 1) = omega arith in
    let e2 : off + k + 2 ≡ off + (k + 2) = omega arith in
    let e3 : off + k + 3 ≡ off + (k + 3) = omega arith in
    rw
      (
        e1,
        e2,
        e3,
        copy_at-at buf off bytes k,
        copy_at-at buf off bytes (k + 1),
        copy_at-at buf off bytes (k + 2),
        copy_at-at buf off bytes (k + 3),
        b0,
        b1,
        b2,
        b3,
      )
      (le32_put x h)

pub parse_record_header-copy_at :
    (buf : Buffer) (off : ℕ) (h : RecordHeader)
    → h.record_type < 2 ^ 32
    → h.flags < 2 ^ 32
    → h.data_len < 2 ^ 32
    → h.checksum < 2 ^ 32
    → parse_record_header (copy_at buf off (marshal_record_header h)) off ≡ h
unfolding parse_record_header marshal_record_header
parse_record_header-copy_at buf off h t f l c =
    let b = marshal_record_header h in
    let here : off + 0 ≡ off = omega arith in
    let w0 : uint32_at (copy_at buf off b) off ≡ h.record_type =
      rw here at (
        word-copy_at buf off 0 b h.record_type t (λ d. refl) (λ d. refl) (λ d. refl) (λ d. refl)) in
    rw
      (
        w0,
        word-copy_at buf off 4 b h.flags f (λ d. refl) (λ d. refl) (λ d. refl) (λ d. refl),
        word-copy_at buf off 8 b h.data_len l (λ d. refl) (λ d. refl) (λ d. refl) (λ d. refl),
        word-copy_at buf off 12 b h.checksum c (λ d. refl) (λ d. refl) (λ d. refl) (λ d. refl),
      )
      refl

pub parse_block_header-same :
    (buf buf' : Buffer) → SameIn buf buf' 0 16 → parse_block_header buf ≡ parse_block_header buf'
unfolding parse_block_header
parse_block_header-same buf buf' h =
    rw
      (
        uint32_at-same buf buf' 0 (λ i lo hi. h i (omega arith) (omega arith)),
        uint32_at-same buf buf' 4 (λ i lo hi. h i (omega arith) (omega arith)),
        uint32_at-same buf buf' 8 (λ i lo hi. h i (omega arith) (omega arith)),
        uint32_at-same buf buf' 12 (λ i lo hi. h i (omega arith) (omega arith)),
      )
      refl

pub length-le-extent_of : (rs : List LogRecord) → 16 * length rs ≤ extent_of rs
length-le-extent_of [] = omega arith
length-le-extent_of (r ∷ rs) = omega (arith, length-le-extent_of rs)

pub data_len-record_header :
    (record_type : ℕ) (bytes : List ℕ)
    → length bytes < 2 ^ 32
    → (record_header record_type bytes).data_len ≡ length bytes
unfolding record_header
data_len-record_header record_type bytes h = omega arith

-- A record's header is read back where it was copied.
pub header_of-copy_at :
    (buf : Buffer) (off : ℕ) (r : LogRecord)
    → r.record_type < 2 ^ 32
    → parse_record_header (copy_at buf off (marshal_record_header (header_of r))) off ≡ header_of r
unfolding record_header
header_of-copy_at buf off r t =
    parse_record_header-copy_at buf off (header_of r) t (omega arith) (omega arith)
      (compute_journal_record_checksum-lt r.record_type 0 r.bytes)
