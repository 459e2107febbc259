-- ===== src/Files/Inode.antt =====
-- A file's inode: `readFileData`, `writeFileData`, `writeInlineData` and `promoteInlineData` of
-- fuse/file_ops.go. A small file has its bytes in the inode; in the source the extents of a larger one
-- take the same 256 bytes, and here each has a field. `removePrivs` and the commit of the inode are
-- not part of it.
use briefs_utils.Base.{
  ℕ, ◌+◌, ◌-◌, ◌==◌, ltb, leb, bit_and, if◌then◌else◌, Bool, true, false, ◌&&◌, ◌||◌,
}
use briefs_utils.Base.{Option, none, some, List, [], ◌∷◌, length}
use briefs_utils.Base.Words.{u64}
use briefs_utils.Extents.{Extent, extent}
use briefs_utils.Runs.{BlockRun, add_block}
use briefs_utils.FileAttr.{fs_immutable_fl, fs_append_fl}
use briefs_utils.Files.{
  Bytes, Device, Writing, Written, and_then, write_block, zero_block, copy, max_file_size,
  read_extents, write_extent_data, written_size,
}

abbrev pub inline_data_max : ℕ
inline_data_max = 256

pub record FileInode : Type 0 where
  pub file_size : ℕ
  pub user_flags : ℕ
  pub inline : Bool
  pub region : Bytes
  pub exts : List Extent

-- The number of bytes, and the bytes; `none` for a slice out of range, which panics.
unfoldable pub read_file_data : ℕ → Device → FileInode → ℕ → ℕ → Option (ℕ × Bytes)
read_file_data bs dev ino len off =
    let sum = off + len in
    let capped = if ltb max_file_size sum then max_file_size else sum in
    let end_off = if ltb ino.file_size capped then ino.file_size else capped in
    let inlined : Option (ℕ × Bytes) =
      if ltb inline_data_max end_off
      then none
      else some (end_off - off, λ j. ino.region (off + j)) in
    if leb ino.file_size off
    then some (0, zero_block)
    else if ino.inline
    then inlined
    else some (end_off - off, read_extents bs dev off end_off ino.exts zero_block)

pub data Errno : Type 0 where
  eio : Errno
  erofs : Errno
  eperm : Errno
  efbig : Errno
  enospc : Errno

-- The mount, as far as a write reads and changes it.
pub record Mount (S : Type 0) : Type 0 where
  pub dev : Device
  pub free : S
  pub shutdown : Bool
  pub read_only : Bool

pub data Result (S : Type 0) : Type 0 where
  wrote : FileInode → Mount S → Result S
  refused : Errno → Mount S → Result S

-- `region` with the hole up to `off` zeroed, and the request.
unfoldable pub write_inline_data : FileInode → List ℕ → ℕ → FileInode
write_inline_data ino bytes off =
    let total_size = off + length bytes in
    let zeroed : Bytes = λ i. if leb ino.file_size i && ltb i off then 0 else ino.region i in
    record ino {
      region = copy zeroed off bytes 0 (length bytes);
      inline = true;
      file_size = if ltb ino.file_size total_size then total_size else ino.file_size;
    }

-- The write that `promoteInlineData` starts: the extents and the device after it.
unfoldable pub promote_inline_data :
    {S : Type 0} → (S → S × ℕ) → ℕ → FileInode → Mount S → Written S
promote_inline_data alloc_block start ino m =
    let (free, rel) = alloc_block m.free in
    let abs = u64 (start + rel) in
    let content : Bytes = λ k. if ltb k ino.file_size then ino.region k else 0 in
    let empty : Writing _ = record {
      exts = [];
      dev = m.dev;
      free = m.free;
      allocated = [];
      rebuild = false;
    } in
    if ino.file_size == 0
    then Written.done empty
    else if rel == 0
    then Written.no_space (record empty { free = free })
    else Written.done (record {
      exts = extent 0 abs 1 0 ∷ [];
      dev = write_block m.dev abs content;
      free = free;
      allocated = add_block [] rel;
      rebuild = false;
    })

-- `rollbackAlloc`, over the runs of the accumulator.
abbrev pub rollback_alloc : {S : Type 0} → (S → ℕ → ℕ → S) → List BlockRun → S → S
rollback_alloc free_run [] s = s
rollback_alloc free_run (run ∷ runs) s = rollback_alloc free_run runs (free_run s run.first run.n)

-- The inode and the mount after the extent-backed write.
abbrev pub extent_result :
    {S : Type 0} → (S → ℕ → ℕ → S) → FileInode → Mount S → List ℕ → ℕ → Written S → Result S
extent_result free_run ino m bytes off (Written.done w) =
    Result.wrote (record ino { exts = w.exts; file_size = written_size bytes off ino.file_size })
      (record m { dev = w.dev; free = w.free })
extent_result free_run ino m bytes off (Written.no_space w) =
    Result.refused Errno.enospc
      (record m { dev = w.dev; free = rollback_alloc free_run w.allocated w.free })

abbrev pub is_immutable : FileInode → Bool
is_immutable ino = if bit_and ino.user_flags fs_immutable_fl == 0 then false else true

abbrev pub is_append_only : FileInode → Bool
is_append_only ino = if bit_and ino.user_flags fs_append_fl == 0 then false else true

-- The two paths of `writeFileData`, past its checks.
unfoldable pub write_bytes :
    {S : Type 0}
    → (S → S × ℕ)
    → (S → ℕ → ℕ → S)
    → ℕ
    → ℕ
    → FileInode
    → Mount S
    → List ℕ
    → ℕ
    → Result S
write_bytes alloc_block free_run bs start ino m bytes off =
    let write = write_extent_data alloc_block bs start bytes off ino.file_size in
    let extents =
      write
        (record { exts = ino.exts; dev = m.dev; free = m.free; allocated = []; rebuild = false }) in
    let promoted = and_then (promote_inline_data alloc_block start ino m) write in
    let promoted_ino = record ino { inline = false; region = zero_block } in
    if ino.inline || ((ino.file_size == 0) && (length ino.exts == 0))
    then (if leb (off + length bytes) inline_data_max
        then Result.wrote (write_inline_data ino bytes off) m
        else extent_result free_run promoted_ino m bytes off promoted)
    else extent_result free_run ino m bytes off extents

unfoldable pub write_file_data :
    {S : Type 0}
    → (S → S × ℕ)
    → (S → ℕ → ℕ → S)
    → ℕ
    → ℕ
    → FileInode
    → Mount S
    → List ℕ
    → ℕ
    → Result S
write_file_data alloc_block free_run bs start ino m bytes off =
    if length bytes == 0
    then Result.wrote ino m
    else if m.shutdown
    then Result.refused Errno.eio m
    else if m.read_only
    then Result.refused Errno.erofs m
    else if is_immutable ino
    then Result.refused Errno.eperm m
    else if is_append_only ino && (if off == ino.file_size then false else true)
    then Result.refused Errno.eperm m
    else if ltb max_file_size off || ltb (max_file_size - off) (length bytes)
    then Result.refused Errno.efbig m
    else write_bytes alloc_block free_run bs start ino m bytes off
