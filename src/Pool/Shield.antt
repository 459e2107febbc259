-- ===== src/Pool/Shield.antt =====
-- The metadata reserve of unwritten extents: fuse/meta_shield.go, and AdjustShield of fuse/fs.go.
-- The map of unwritten counts is an association list with one entry per inode; a missing key is 0.
pub mod Sum
use briefs_utils.Base.{ℕ, zero, suc, ◌+◌, ◌-◌, ◌*◌, ◌/◌, ◌%◌, ◌^◌, ◌==◌, ltb, leb, bit_and}
use briefs_utils.Base.{if◌then◌else◌, Bool, true, false, List, [], ◌∷◌}
use briefs_utils.Base.Words.{u64}
use briefs_utils.Extents.{Extent}

-- BtreeLeafFanout and BtreeIdxFanout.
abbrev pub btree_leaf_fanout : ℕ
btree_leaf_fanout = 126

abbrev pub btree_idx_fanout : ℕ
btree_idx_fanout = 253

unfoldable pub meta_reserve_size : ℕ → ℕ
meta_reserve_size n =
    let leaves = u64 (n + (btree_leaf_fanout - 1)) / btree_leaf_fanout in
    let internals = u64 (leaves + (btree_idx_fanout - 1)) / btree_idx_fanout in
    if n == 0 then 0 else u64 (leaves + internals + 1)

-- `n` is the sum so far.
unfoldable pub count_unwritten_from : ℕ → List Extent → ℕ
count_unwritten_from n [] = n
count_unwritten_from n (e ∷ exts) =
    count_unwritten_from (if bit_and e.flags 1 == 0 then n else u64 (n + e.len)) exts

unfoldable pub count_unwritten_blocks : List Extent → ℕ
count_unwritten_blocks exts = count_unwritten_from 0 exts

pub record Entry : Type 0 where
  pub ino : ℕ
  pub blocks : ℕ

unfoldable pub lookup : List Entry → ℕ → ℕ
lookup [] ino = 0
lookup (e ∷ m) ino = if e.ino == ino then e.blocks else lookup m ino

unfoldable pub delete : List Entry → ℕ → List Entry
delete [] ino = []
delete (e ∷ m) ino = let rest = delete m ino in if e.ino == ino then rest else e ∷ rest

-- `m[ino] = n`.
unfoldable pub store : List Entry → ℕ → ℕ → List Entry
store m ino n = record { ino = ino; blocks = n } ∷ delete m ino

pub record Reserve : Type 0 where
  pub unwritten_res : List Entry
  pub meta_shield : ℕ

-- AdjustShield with the delta `new - old` of two sizes: an int64 as its sign and its size.
unfoldable pub adjust_shield : ℕ → ℕ → ℕ → ℕ
adjust_shield shield new old =
    if leb old new then u64 (shield + (new - old)) else u64 (shield + (2 ^ 64 - (old - new)))

unfoldable pub set_unwritten_res : Reserve → ℕ → ℕ → Reserve
set_unwritten_res r ino n =
    let old = lookup r.unwritten_res ino in
    let m = if n == 0 then delete r.unwritten_res ino else store r.unwritten_res ino n in
    let shield = adjust_shield r.meta_shield (meta_reserve_size n) (meta_reserve_size old) in
    if n == old then r else record { unwritten_res = m; meta_shield = shield }

unfoldable pub update_unwritten_res : Reserve → ℕ → List Extent → Reserve
update_unwritten_res r ino exts = set_unwritten_res r ino (count_unwritten_blocks exts)
