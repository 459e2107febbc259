-- ===== src/Files/Range.antt =====
-- Collapsing and opening a range of a file: `collapseRangeOp` and `insertRangeOp` of
-- fuse/extent_ops.go, up to the commit, which frees the runs that are returned.
use briefs_utils.Base.{
  ℕ, ◌+◌, ◌-◌, ◌*◌, ◌/◌, ◌%◌, ◌<◌, ◌^◌, ◌==◌, ltb, leb, if◌then◌else◌, Bool, true, false, ◌&&◌,
}
use briefs_utils.Base.{none, some, List, [], ◌≡◌, arith}
use briefs_utils.Base.Words.{u64}
use briefs_utils.Runs.{BlockRun}
use native.Mathlib.Nat.{mul-le-mul_right}
use briefs_utils.Extents.{Extent, shift_extents}
use briefs_utils.Extents.Mapping.{block_at, AreSorted}
use briefs_utils.Files.Content.{block_start_lem, mul_step, block_end, IsMapped}
use briefs_utils.Files.Read.{div_unique}
use briefs_utils.Files.Inode.{FileInode}

pub data RangeResult : Type 0 where
  changed : FileInode → List BlockRun → RangeResult
  einval : RangeResult
  efbig : RangeResult
  eopnotsupp : RangeResult

abbrev pub is_unaligned : ℕ → ℕ → ℕ → Bool
is_unaligned bs off size = if (off % bs == 0) && (size % bs == 0) then false else true

unfoldable pub collapse_range : ℕ → FileInode → ℕ → ℕ → RangeResult
collapse_range bs ino off size =
    let (exts, freed) = shift_extents ino.exts (off / bs) (size / bs) true in
    if is_unaligned bs off size
    then RangeResult.einval
    else if leb ino.file_size (u64 (off + size))
    then RangeResult.einval
    else if ino.inline
    then RangeResult.eopnotsupp
    else RangeResult.changed (record ino { exts = exts; file_size = ino.file_size - size }) freed

-- `max_bytes` is the size of the device.
unfoldable pub insert_range : ℕ → ℕ → FileInode → ℕ → ℕ → RangeResult
insert_range bs max_bytes ino off size =
    let (exts, freed) = shift_extents ino.exts (off / bs) (size / bs) false in
    if is_unaligned bs off size
    then RangeResult.einval
    else if leb ino.file_size off
    then RangeResult.einval
    else if ltb (u64 (max_bytes + (2 ^ 64 - ino.file_size))) size
    then RangeResult.efbig
    else if ino.inline
    then RangeResult.eopnotsupp
    else RangeResult.changed (record ino { exts = exts; file_size = u64 (ino.file_size + size) }) []

-- Extents that map the blocks of another list, moved, are well formed like them.
module _ {S : Type 0} (start : ℕ) (in_use : S → ℕ → Bool) (free : S) (exts exts' : List Extent)
    (m : IsMapped start in_use exts free) (hole : ℕ → Bool) (from : ℕ → ℕ)
    (maps : (b : ℕ) → block_at exts' b ≡ (if hole b then none else block_at exts (from b)))
    (one : (b c : ℕ) → hole b ≡ false → hole c ≡ false → from b ≡ from c → b ≡ c) where
  came_from :
      (b p f : ℕ)
      → block_at exts' b ≡ some (p, f)
      → (hole b ≡ false) × (block_at exts (from b) ≡ some (p, f))
  came_from b p f h = (ground (arith, maps b, h), ground (arith, maps b, h))

  pub reindex-IsMapped : AreSorted 0 exts' → IsMapped start in_use exts' free
  reindex-IsMapped sorted = record {
    sorted = sorted;
    flags = λ b p f h. m.flags (from b) p f (came_from b p f h).1;
    owned = λ b p f h. m.owned (from b) p f (came_from b p f h).1;
    apart = λ b c p f g h i.
        let (x, u) = came_from b p f h in
        let (y, v) = came_from c p g i in one b c x y (m.apart (from b) (from c) p f g u v);
  }

module _ (bs : ℕ) (sized : 0 < bs) where
  -- Moving by whole blocks.
  pub move_lem : (i l : ℕ) → ((i + l * bs) / bs ≡ i / bs + l) × ((i + l * bs) % bs ≡ i % bs)
  move_lem i l =
      let (e, k) = block_start_lem bs sized i in
      let sum : (i / bs + l) * bs ≡ i / bs * bs + l * bs = omega arith in
      div_unique bs sized (i + l * bs) (i / bs + l) (i % bs) (omega (arith, e, sum)) k

  pub before_block : (i s : ℕ) → ltb (i / bs) s ≡ ltb i (s * bs)
  before_block i s =
      let (e, k) = block_start_lem bs sized i in
      ground (arith, e, k, mul_step bs sized (i / bs) s, mul-le-mul_right {m = s} {n = i / bs} bs)

  pub aligned_lem :
      (off size : ℕ)
      → is_unaligned bs off size ≡ false
      → (off ≡ off / bs * bs) × (size ≡ size / bs * bs)
  aligned_lem off size h =
      let (e, _) = block_start_lem bs sized off in
      let (f, _) = block_start_lem bs sized size in (ground (arith, h, e), ground (arith, h, f))

  pub block_end_move : (n l : ℕ) → block_end bs (n + l * bs) ≡ block_end bs n + l * bs
  block_end_move n l =
      let (block, byte) = move_lem n l in
      let sum : (n / bs + l) * bs ≡ n / bs * bs + l * bs = omega arith in
      rw (block, byte) (ground (arith, sum))
