-- ===== src/Journal/Replay/Applied.antt =====
-- What the walk of fuse/journal_replay.go does with one block that the writer of
-- briefs/journal_write.go has built, and what a replay of its records should do.
use briefs_utils.Base.{ℕ, zero, suc, ◌+◌, ◌^◌, ◌≤◌, ◌<◌, ◌==◌, leb}
use briefs_utils.Base.{
  if◌then◌else◌, true, false, ◌||◌, ◌>>=◌, Option, none, some, List, [], ◌∷◌, length, get_or, ◌≡◌,
  refl, ◌∙◌, ap, arith,
}
use briefs_utils.Base.Bytes.{All, byte_at}
use briefs_utils.Journal.Crc.{verify_journal_record_checksum, compute_journal_record_checksum}
use briefs_utils.Journal.Ring.{is_journal_block, header_magic}
use briefs_utils.Journal.Block.{
  Buffer, slice, uint32_at, parse_block_header, record_header, jrn_checkpoint, journal_block_size,
  Iterated, visit_stopped, iterate_journal_block_records,
}
use briefs_utils.Journal.Block.Records.{
  LogRecord, header_of, RecordsAt-same, parse_block_header-same,
}
use briefs_utils.Journal.Block.Framed.{IsBlock, visit_all, iterate_journal_block_records-visits}
use briefs_utils.Journal.State.{jrn_end}
use briefs_utils.Journal.Replay.{tolerate, iterated_state, replay_record}

-- The types that the writer takes.
abbrev pub AreKnown : List LogRecord → Type 0
AreKnown = All (λ r. (0 < r.record_type) × (r.record_type < jrn_end))

module _ {S : Type 0} (apply_record : ℕ → List ℕ → S → S × Option ℕ) where
  abbrev pub apply_one : LogRecord → S → Option S
  apply_one r s =
      if r.record_type == jrn_checkpoint
      then some s
      else tolerate (apply_record r.record_type r.bytes s)

  -- The records in order, up to the first that fails.
  abbrev pub apply_all : List LogRecord → S → Option S
  apply_all [] s = some s
  apply_all (r ∷ rs) s = apply_one r s >>= apply_all rs

  -- The blocks' records, the last block first.
  abbrev pub apply_past : List (List LogRecord) → S → Option S
  apply_past [] s = some s
  apply_past (rs ∷ rss) s = apply_past rss s >>= apply_all rs

  own_checksum :
      (t : ℕ) (bytes : List ℕ)
      → verify_journal_record_checksum t 0 bytes (compute_journal_record_checksum t 0 bytes) ≡ true
  unfolding verify_journal_record_checksum
  own_checksum t bytes = ground arith

  replay_record-header_of :
      (i : ℕ) (r : LogRecord) (s : S)
      → 0 < r.record_type
      → r.record_type < jrn_end
      → replay_record apply_record i (header_of r) r.bytes s ≡ apply_one r s
  unfolding replay_record record_header
  replay_record-header_of i r s lo hi =
      let known : (r.record_type == 0 || leb jrn_end r.record_type) ≡ false = ground arith in
      rw (known, own_checksum r.record_type r.bytes) refl

  visited_state :
      (o : Option S) (i : ℕ) (s : S) (rest : S → Iterated S) (onward : S → Option S)
      → ((s' : S) → iterated_state (rest s') ≡ onward s')
      → iterated_state (elim o [ none ↦ visit_stopped i s | some s' ↦ rest s' ]) ≡ (o >>= onward)
  unfolding iterated_state
  visited_state none i s rest onward h = refl
  visited_state (some s') i s rest onward h = h s'

  visit_all-applies :
      (i : ℕ) (rs : List LogRecord) (s : S)
      → AreKnown rs
      → iterated_state (visit_all (replay_record apply_record) i rs s) ≡ apply_all rs s
  unfolding iterated_state visit_all
  visit_all-applies i [] s k = refl
  visit_all-applies i (r ∷ rs) s ((lo, hi), k) =
      visited_state (replay_record apply_record i (header_of r) r.bytes s) i s
        (visit_all (replay_record apply_record) (i + 1) rs) (apply_all rs)
        (λ s'. visit_all-applies (i + 1) rs s' k)
      ∙ ap (λ o. o >>= apply_all rs) (replay_record-header_of i r s lo hi)

get_or-slice : (buf : Buffer) (off n i : ℕ) → i < n → get_or (slice buf off n) i 0 ≡ buf (off + i)
unfolding slice
get_or-slice buf off zero i h = absurd (omega arith)
get_or-slice buf off (suc n) zero h = let e : off + 0 ≡ off = omega arith in rw e refl
get_or-slice buf off (suc n) (suc i) h =
    let e : off + 1 + i ≡ off + suc i = omega arith in
    get_or-slice buf (off + 1) n i (omega arith) ∙ ap buf e

length-slice : (buf : Buffer) (off n : ℕ) → length (slice buf off n) ≡ n
unfolding slice
length-slice buf off zero = refl
length-slice buf off (suc n) = ap suc (length-slice buf (off + 1) n)

-- A block read from the device is the same block.
pub slice-IsBlock :
    (buf : Buffer) (size seq : ℕ) (rs : List LogRecord)
    → journal_block_size ≤ size
    → IsBlock buf seq rs
    → IsBlock (byte_at (slice buf 0 size)) seq rs
slice-IsBlock buf size seq rs large b = record {
  header =
      parse_block_header-same (byte_at (slice buf 0 size)) buf (λ i lo hi. same i (omega arith))
      ∙ b.header;
  held =
      RecordsAt-same buf (byte_at (slice buf 0 size)) 16 rs
        (λ i lo hi. same i (omega (arith, b.fits))) b.held;
  fits = b.fits;
}
  where
    same : (i : ℕ) → i < size → byte_at (slice buf 0 size) i ≡ buf i
    same i h = get_or-slice buf 0 size i h ∙ ap buf (omega arith)

pub IsBlock-headed :
    (buf : Buffer) (size seq : ℕ) (rs : List LogRecord)
    → journal_block_size ≤ size
    → IsBlock buf seq rs
    → is_journal_block (slice buf 0 size) ≡ true
unfolding is_journal_block header_magic parse_block_header uint32_at
IsBlock-headed buf size seq rs large b =
    let read = slice-IsBlock buf size seq rs large b in
    let magic = ap (λ h. h.magic) read.header in ground (arith, length-slice buf 0 size, magic)

-- On a journal block with known records, of a size of at least 4096 and below 2 ^ 32, the walk of
-- the records that are read applies them in order.
pub iterate-applies :
    {S : Type 0} (apply_record : ℕ → List ℕ → S → S × Option ℕ) (buf : Buffer) (size seq : ℕ)
    (rs : List LogRecord) (s : S)
    → journal_block_size ≤ size
    → size < 2 ^ 32
    → AreKnown rs
    → IsBlock buf seq rs
    → iterated_state (
        iterate_journal_block_records
          (byte_at (slice buf 0 size))
          size
          (replay_record apply_record)
          (parse_block_header (byte_at (slice buf 0 size))).record_count
          s)
      ≡ apply_all apply_record rs s
iterate-applies apply_record buf size seq rs s large small known b =
    ap iterated_state (
      iterate_journal_block_records-visits (byte_at (slice buf 0 size)) size seq
        (replay_record apply_record) rs s (slice-IsBlock buf size seq rs large b) large small)
    ∙ visit_all-applies apply_record 0 rs s known
