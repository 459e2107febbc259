-- ===== src/Files.antt =====
-- Reading and writing a file's blocks: `readFileData`, `writeExtentData` and their helpers, of
-- fuse/file_ops.go, on the extent list that `collectExtentTree` returns.
-- A device is its bytes, by block and index in the block; its reads and writes succeed. The
-- offsets of a request are int64 values that are not negative; a sum that passes 2 ^ 63 - 1 is
-- tested for, as in the source.
pub mod Content
pub mod Put
pub mod Round
pub mod Write
pub mod Tail
pub mod Read
pub mod Inode
pub mod Promote
pub mod Whole
pub mod Answer
pub mod Range
pub mod Collapsed
pub mod Opened
use briefs_utils.Base.{ℕ, zero, suc, ◌+◌, ◌-◌, ◌*◌, ◌/◌, ◌%◌, ◌^◌, ◌==◌, ltb, leb, bit_and, min}
use briefs_utils.Base.{
  if◌then◌else◌, Bool, true, false, ◌&&◌, ◌||◌, Option, none, some, List, [], ◌∷◌, length, get_or,
}
use briefs_utils.Base.Words.{u64, sub64, slt, sle, quot64, rem64}
use briefs_utils.Extents.{
  Extent, extent, extent_flag_unwritten, lookup_extent, insert_extent_sorted, split_unwritten_at,
}
use briefs_utils.Runs.{BlockRun, add_block}

abbrev pub Bytes : Type 0
Bytes = ℕ → ℕ

abbrev pub Device : Type 0
Device = ℕ → Bytes

abbrev pub zero_block : Bytes
zero_block k = 0

abbrev pub write_block : Device → ℕ → Bytes → Device
write_block dev abs buf x = if x == abs then buf else dev x

-- `copy(buf[start:], data[pos:pos+n])`.
abbrev pub copy : Bytes → ℕ → List ℕ → ℕ → ℕ → Bytes
copy buf start bytes pos n k =
    if leb start k && ltb k (start + n) then get_or bytes (pos + (k - start)) 0 else buf k

abbrev pub max_file_size : ℕ
max_file_size = 2 ^ 63 - 1

abbrev pub is_unwritten : Extent → Bool
is_unwritten ext = if bit_and ext.flags extent_flag_unwritten == 0 then false else true

abbrev pub zero_block_range : ℕ → ℕ → Bytes → Bytes
zero_block_range from to buf k = if leb from k && ltb k to then 0 else buf k

-- `zeroBlockRange` up to the end of the block, as `zeroBlockTail` calls it.
abbrev pub zero_block_tail : ℕ → Device → ℕ → ℕ → Device
zero_block_tail bs dev abs from =
    if leb bs from then dev else write_block dev abs (zero_block_range from bs (dev abs))

-- The end of `zeroEofTail`, on what `lookupExtent` found.
abbrev pub zero_found_tail : ℕ → Device → ℕ → ℕ → Option Extent → Device
zero_found_tail bs dev blk from none = dev
zero_found_tail bs dev blk from (some ext) =
    zero_block_tail bs dev (u64 (ext.phys + (blk - ext.offset))) from

unfoldable pub zero_eof_tail : ℕ → List Extent → ℕ → Device → Device
zero_eof_tail bs exts old_size dev =
    let eof_block = (old_size - 1) / bs in
    zero_found_tail bs dev eof_block (old_size % bs) (lookup_extent exts eof_block)

-- What one write changes: `free` is the allocator's state, `allocated` the blocks to roll back.
pub record Writing (S : Type 0) : Type 0 where
  pub exts : List Extent
  pub dev : Device
  pub free : S
  pub allocated : List BlockRun
  pub rebuild : Bool

pub data Written (S : Type 0) : Type 0 where
  done : Writing S → Written S
  no_space : Writing S → Written S

-- An error returns at once.
abbrev pub and_then : {S : Type 0} → Written S → (Writing S → Written S) → Written S
and_then (done w) k = k w
and_then (no_space w) k = no_space w

-- The data that one round writes: `[seg_start, seg_end)` of the file, from `pos` of the request on.
pub record Segment : Type 0 where
  pub iblock : ℕ
  pub block_start : ℕ
  pub seg_start : ℕ
  pub seg_end : ℕ
  pub pos : ℕ

unfoldable pub next_segment : ℕ → ℕ → ℕ → ℕ → Segment
next_segment bs end cur pos =
    let iblock = cur / bs in
    let block_start = iblock * bs in
    let block_end = if ltb max_file_size (block_start + bs) then end else block_start + bs in
    record {
      iblock = iblock;
      block_start = block_start;
      seg_start = if ltb cur block_start then block_start else cur;
      seg_end = if ltb block_end end then block_end else end;
      pos = pos;
    }

abbrev pub patch : List ℕ → Segment → Bytes → Bytes
patch bytes seg buf =
    copy buf (seg.seg_start - seg.block_start) bytes seg.pos (seg.seg_end - seg.seg_start)

-- A mapped block: `buf` before the copy.
abbrev pub old_bytes : ℕ → Segment → Extent → Device → ℕ → Bytes
old_bytes bs seg ext dev abs =
    if is_unwritten ext
    then zero_block
    else if (seg.seg_start == seg.block_start) && (seg.seg_end - seg.seg_start == bs)
    then zero_block
    else dev abs

unfoldable pub write_mapped : {S : Type 0} → ℕ → List ℕ → Segment → Extent → Writing S → Writing S
write_mapped bs bytes seg ext w =
    let abs = u64 (ext.phys + (seg.iblock - ext.offset)) in
    let dev = write_block w.dev abs (patch bytes seg (old_bytes bs seg ext w.dev abs)) in
    if is_unwritten ext
    then record w { dev = dev; exts = split_unwritten_at w.exts ext seg.iblock; rebuild = true }
    else record w { dev = dev }

unfoldable pub write_hole :
    {S : Type 0} → (S → S × ℕ) → ℕ → List ℕ → Segment → Writing S → Written S
write_hole alloc_block start bytes seg w =
    let (free, rel) = alloc_block w.free in
    let abs = u64 (start + rel) in
    if rel == 0
    then no_space (record w { free = free })
    else done (record {
      exts = insert_extent_sorted w.exts (extent seg.iblock abs 1 0);
      dev = write_block w.dev abs (patch bytes seg zero_block);
      free = free;
      allocated = add_block w.allocated rel;
      rebuild = true;
    })

unfoldable pub write_segment :
    {S : Type 0} → (S → S × ℕ) → ℕ → ℕ → List ℕ → Segment → Writing S → Written S
write_segment alloc_block bs start bytes seg w = elim (lookup_extent w.exts seg.iblock) [
  | none ↦ write_hole alloc_block start bytes seg w
  | some ext ↦ done (write_mapped bs bytes seg ext w)
]

-- The loop, with at most `n` rounds left.
unfoldable pub write_loop :
    {S : Type 0} → (S → S × ℕ) → ℕ → ℕ → List ℕ → ℕ → ℕ → ℕ → ℕ → Writing S → Written S
write_loop alloc_block bs start bytes end zero cur pos w = done w
write_loop {S} alloc_block bs start bytes end (suc n) cur pos w =
    let seg = next_segment bs end cur pos in
    let wrote = write_segment alloc_block bs start bytes seg w in
    let pos' = pos + (seg.seg_end - seg.seg_start) in
    let rest = and_then wrote (write_loop alloc_block bs start bytes end n seg.seg_end pos') in
    if ltb cur end then rest else done w

-- `writeExtentData` up to the rebuild, for a request that starts at `off`. Every round of the loop
-- writes a byte at least.
unfoldable pub write_extent_data :
    {S : Type 0} → (S → S × ℕ) → ℕ → ℕ → List ℕ → ℕ → ℕ → Writing S → Written S
write_extent_data alloc_block bs start bytes off old_size w =
    let zeroed = record w { dev = zero_eof_tail bs w.exts old_size w.dev } in
    let gap = ltb old_size off && ltb 0 old_size && (if old_size % bs == 0 then false else true) in
    write_loop alloc_block bs start bytes (off + length bytes) (length bytes) off 0
      (if gap then zeroed else w)

abbrev pub written_size : List ℕ → ℕ → ℕ → ℕ
written_size bytes off old_size =
    if ltb old_size (off + length bytes) then off + length bytes else old_size

-- `ReadRun`: the bytes of consecutive disk blocks, from byte `from` of block `first` on.
abbrev pub read_run : ℕ → Device → ℕ → ℕ → Bytes
read_run bs dev first from j = dev (first + (from + j) / bs) ((from + j) % bs)

-- The end of an extent as an int64, where each product and the sum wrap.
abbrev pub extent_stop : ℕ → Extent → ℕ
extent_stop bs ext =
    let ext_start = u64 (ext.offset * bs) in
    let stop = u64 (ext_start + u64 (ext.len * bs)) in
    if slt stop ext_start then max_file_size else stop

-- One round of the loop of `readFileData`: `buf` is `read_buf`, which starts at byte `off`. The
-- offset of an extent that is out of an int64's range can be negative.
unfoldable pub read_extent : ℕ → Device → ℕ → ℕ → Extent → Bytes → Bytes
read_extent bs dev off end_off ext buf =
    let ext_start = u64 (ext.offset * bs) in
    let ext_end = extent_stop bs ext in
    let read_start = if slt off ext_start then ext_start else off in
    let read_end = if slt ext_end end_off then ext_end else end_off in
    let in_ext = sub64 read_start ext_start in
    let run = read_run bs dev (u64 (ext.phys + quot64 in_ext bs)) (rem64 in_ext bs) in
    if sle ext_end off || sle end_off ext_start
    then buf
    else if (ext.phys == 0) || is_unwritten ext
    then buf
    else (λ j.
        if leb (read_start - off) j && ltb j (read_end - off)
        then run (j - (read_start - off))
        else buf j)

unfoldable pub read_extents : ℕ → Device → ℕ → ℕ → List Extent → Bytes → Bytes
read_extents bs dev off end_off [] buf = buf
read_extents bs dev off end_off (ext ∷ exts) buf =
    read_extents bs dev off end_off exts (read_extent bs dev off end_off ext buf)
