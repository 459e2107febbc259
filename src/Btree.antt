-- ===== src/Btree.antt =====
-- The bulk build of a file's B+tree of extents: briefs/btree_build.go. A node is its fields; its bytes
-- and its checksum are the codec's. An allocation is a step on the caller's state, and `none` is its error.
pub mod Holds
pub mod Build
pub mod Levels
pub mod Tree
pub mod Rebuild
use briefs_utils.Base.{ℕ, zero, suc, ◌+◌, ◌-◌, ◌*◌, ◌/◌, ◌%◌, ◌==◌, ltb, leb}
use briefs_utils.Base.{
  if◌then◌else◌, Bool, true, false, Option, none, some, List, [], ◌∷◌, ◌++◌, length, take, drop,
}
use briefs_utils.Base.Words.{u16}
use briefs_utils.Extents.{Extent}
use briefs_utils.Pool.Shield.{btree_leaf_fanout, btree_idx_fanout}

-- A child of an index node: its block, and the smallest offset in it.
pub record Child : Type 0 where
  pub block : ℕ
  pub min_key : ℕ

pub record IdxEntry : Type 0 where
  pub child : ℕ
  pub high_key : ℕ

pub data Node : Type 0 where
  leaf : List Extent → ℕ → Node
  index : ℕ → List IdxEntry → ℕ → Node

-- A node and the block that it is written to.
pub record Placed : Type 0 where
  pub block : ℕ
  pub node : Node

-- One chunk in a round, and at most `n` rounds.
unfoldable pub chunk_loop : ℕ → List Extent → List (List Extent)
chunk_loop zero extents = []
chunk_loop (suc n) extents =
    let rest = chunk_loop n (drop btree_leaf_fanout extents) in
    if length extents == 0 then [] else take btree_leaf_fanout extents ∷ rest

unfoldable pub chunk_btree_extents : List Extent → List (List Extent)
chunk_btree_extents extents = chunk_loop (length extents) extents

abbrev pub first_offset : List Extent → ℕ
first_offset [] = 0
first_offset (ext ∷ chunk) = ext.offset

-- An error returns at once, with the state so far.
abbrev pub bind :
    {S : Type 0} {A : Type 0} {B : Type 0} → S × Option A → (S → A → S × Option B) → S × Option B
bind (s, none) k = (s, none)
bind (s, some a) k = k s a

-- One block for each chunk.
unfoldable pub alloc_leaves :
    {S : Type 0} → (S → S × Option ℕ) → List (List Extent) → S → S × Option (List ℕ)
alloc_leaves alloc [] s = (s, some [])
alloc_leaves alloc (chunk ∷ chunks) s =
    bind (alloc s)
      (λ s1 b. bind (alloc_leaves alloc chunks s1) (λ s2 blocks. (s2, some (b ∷ blocks))))

abbrev pub next_leaf : List ℕ → ℕ
next_leaf [] = 0
next_leaf (b ∷ blocks) = b

-- The nodes of a level, and what the level above has of them.
pub record Level : Type 0 where
  pub children : List Child
  pub placed : List Placed

abbrev pub level_cons : Child → Placed → Level → Level
level_cons child placed l = record { children = child ∷ l.children; placed = placed ∷ l.placed }

unfoldable pub place_leaves : List ℕ → List (List Extent) → Level
place_leaves [] chunks = record { children = []; placed = [] }
place_leaves (b ∷ blocks) [] = record { children = []; placed = [] }
place_leaves (b ∷ blocks) (chunk ∷ chunks) =
    level_cons (record { block = b; min_key = first_offset chunk })
      (record { block = b; node = Node.leaf chunk (next_leaf blocks) }) (place_leaves blocks chunks)

unfoldable pub build_btree_leaves :
    {S : Type 0} → (S → S × Option ℕ) → List Extent → S → S × Option Level
build_btree_leaves alloc extents s =
    let chunks = chunk_btree_extents extents in
    let built =
      bind (alloc_leaves alloc chunks s) (λ s1 blocks. (s1, some (place_leaves blocks chunks))) in
    if length extents == 0 then (s, none) else built

-- `idx[i].child` is the i-th child, its `high_key` the smallest offset of the next one.
unfoldable pub idx_entries : List Child → List IdxEntry
idx_entries [] = []
idx_entries (c ∷ []) = []
idx_entries (c ∷ d ∷ bucket) =
    record { child = c.block; high_key = d.min_key } ∷ idx_entries (d ∷ bucket)

unfoldable pub trailing_child : List Child → ℕ
trailing_child [] = 0
trailing_child (c ∷ []) = c.block
trailing_child (c ∷ d ∷ bucket) = trailing_child (d ∷ bucket)

abbrev pub first_key : List Child → ℕ
first_key [] = 0
first_key (c ∷ bucket) = c.min_key

abbrev pub index_node : ℕ → List Child → Node
index_node level bucket = Node.index level (idx_entries bucket) (trailing_child bucket)

-- The index nodes of one level, the `n`-th and the `m - 1` that follow it.
unfoldable pub build_nodes :
    {S : Type 0} → (S → S × Option ℕ) → ℕ → ℕ → ℕ → ℕ → ℕ → List Child → S → S × Option Level
build_nodes alloc level base rem zero n cur s = (s, some (record { children = []; placed = [] }))
build_nodes alloc level base rem (suc m) n cur s =
    let k = if ltb n rem then base + 1 else base in
    let bucket = take k cur in
    bind (alloc s) (λ s1 b.
      bind (build_nodes alloc level base rem m (n + 1) (drop k cur) s1) (λ s2 l. (
        s2,
        some (
            level_cons (record { block = b; min_key = first_key bucket })
              (record { block = b; node = index_node level bucket }) l),
      )))

pub record Built : Type 0 where
  pub root : ℕ
  pub root_min_key : ℕ
  pub placed : List Placed

abbrev pub root_of : List Child → Built
root_of [] = record { root = 0; root_min_key = 0; placed = [] }
root_of (c ∷ cur) = record { root = c.block; root_min_key = c.min_key; placed = [] }

-- The loop over the levels, with at most `fuel` rounds; it ends with one child, the root.
unfoldable pub build_levels :
    {S : Type 0} → (S → S × Option ℕ) → ℕ → ℕ → List Child → S → S × Option Built
build_levels alloc zero level cur s = (s, none)
build_levels {S} alloc (suc fuel) level cur s =
    let n_nodes = (length cur + btree_idx_fanout) / (btree_idx_fanout + 1) in
    let next =
      build_nodes alloc level (length cur / n_nodes) (length cur % n_nodes) n_nodes 0 cur s in
    let above : S × Option Built = bind next (λ s1 l.
      bind (build_levels alloc fuel (u16 (level + 1)) l.children s1)
        (λ s2 b. (s2, some (record b { placed = l.placed ++ b.placed })))) in
    if length cur == 1 then (s, some (root_of cur)) else above

unfoldable pub build_btree_index :
    {S : Type 0} → (S → S × Option ℕ) → ℕ → List Child → S → S × Option Built
build_btree_index alloc level children s =
    let built = build_levels alloc (length children) level children s in
    if length children == 0 then (s, none) else built

-- The tree that `rebuildExtentIndex` and fsck build, leaves and index together.
unfoldable pub build_tree : {S : Type 0} → (S → S × Option ℕ) → List Extent → S → S × Option Built
build_tree alloc extents s = bind (build_btree_leaves alloc extents s) (λ s1 l.
    bind (build_btree_index alloc 1 l.children s1)
      (λ s2 b. (s2, some (record b { placed = l.placed ++ b.placed }))))
