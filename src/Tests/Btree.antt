-- ===== src/Tests/Btree.antt =====
-- An allocator that counts up and has 100 blocks, a tree with two leaves under an index node, and one
-- whose leaf is rebuilt with one more extent.
use briefs_utils.Base.{
  ℕ, zero, suc, ◌+◌, ◌≡◌, refl, arith, List, [], ◌∷◌, Option, some, none, take, ◌==◌, ltb,
  if◌then◌else◌, inl,
}
use briefs_utils.Extents.{Extent, extent}
use briefs_utils.Btree.{
  Node, Built, build_tree, build_btree_leaves, build_btree_index, build_levels, build_nodes,
  place_leaves, alloc_leaves, chunk_btree_extents, chunk_loop, idx_entries, trailing_child,
}
use briefs_utils.Btree.Holds.{Holds}
use briefs_utils.Btree.Build.{Stores}
use briefs_utils.Btree.Tree.{build_tree-Holds}
use briefs_utils.Btree.Rebuild.{
  ExtentTree, Rebuilt, LeavesStand, rebuild_localized, rebuild_localized-Holds, builds_fail,
  leaf_blocks, add_blocks, chunk_eq, equal_prefix, reused,
}
use briefs_utils.Runs.{add_block, push_run}

abbrev count_up : ℕ → ℕ × Option ℕ
count_up n = if ltb n 100 then (n + 1, some n) else (n, none)

-- `n` extents from block `b` of the file on, each after a hole.
abbrev spaced : ℕ → ℕ → List Extent
spaced zero b = []
spaced (suc n) b = extent b 100 1 0 ∷ spaced n (b + 2)

abbrev two_leaves : Built
two_leaves = record {
  root = 52;
  root_min_key = 0;
  placed =
      record { block = 50; node = Node.leaf (spaced 126 0) 51 }
      ∷ record { block = 51; node = Node.leaf (spaced 4 252) 0 }
      ∷ record { block = 52; node = Node.index 1 (record { child = 50; high_key = 252 } ∷ []) 51 }
      ∷ [];
}

abbrev two_leaves_store : ℕ → Option Node
two_leaves_store b =
    if b == 50
    then some (Node.leaf (spaced 126 0) 51)
    else if b == 51
    then some (Node.leaf (spaced 4 252) 0)
    else if b == 52
    then some (Node.index 1 (record { child = 50; high_key = 252 } ∷ []) 51)
    else none

two_leaves_built : build_tree count_up (spaced 130 0) 50 ≡ (53, some two_leaves)
unfolding build_tree build_btree_leaves build_btree_index build_levels build_nodes place_leaves
    alloc_leaves chunk_btree_extents chunk_loop idx_entries trailing_child
two_leaves_built = refl

two_leaves_stored : Stores two_leaves_store two_leaves.placed
unfolding Stores
two_leaves_stored = (refl, (refl, (refl, tt)))

build_tree-Holds_example : Holds two_leaves_store 52 (spaced 130 0)
build_tree-Holds_example =
    build_tree-Holds count_up (spaced 130 0) 50 53 two_leaves two_leaves_store (omega arith)
      two_leaves_built two_leaves_stored

-- Two full leaves; an extent is added after them.
abbrev old_tree : ExtentTree
old_tree = record {
  leaves =
      record { block = 7; chunk = spaced 126 0 }
      ∷ record { block = 8; chunk = spaced 126 252 }
      ∷ [];
  idx = 9 ∷ [];
}

abbrev three_leaves : Rebuilt
three_leaves = record {
  root = 52;
  placed =
      record { block = 50; node = Node.leaf (spaced 126 252) 51 }
      ∷ record { block = 51; node = Node.leaf (spaced 1 504) 0 }
      ∷ record {
        block = 52;
        node =
            Node.index 1
              (record { child = 7; high_key = 252 } ∷ record { child = 50; high_key = 504 } ∷ [])
              51;
      }
      ∷ [];
  freed = record { first = 8; n = 2 } ∷ [];
}

abbrev three_leaves_store : ℕ → Option Node
three_leaves_store b =
    if b == 7
    then some (Node.leaf (spaced 126 0) 8)
    else if b == 50
    then some (Node.leaf (spaced 126 252) 51)
    else if b == 51
    then some (Node.leaf (spaced 1 504) 0)
    else if b == 52
    then some (
        Node.index 1
          (record { child = 7; high_key = 252 } ∷ record { child = 50; high_key = 504 } ∷ []) 51)
    else none

three_leaves_built : rebuild_localized count_up old_tree (spaced 253 0) 50 ≡ (53, some three_leaves)
unfolding rebuild_localized build_btree_index build_levels build_nodes place_leaves alloc_leaves
    chunk_btree_extents chunk_loop idx_entries trailing_child leaf_blocks add_blocks chunk_eq
    equal_prefix add_block push_run
three_leaves_built = refl

kept_leaf_stands : LeavesStand three_leaves_store (take 1 old_tree.leaves)
unfolding LeavesStand
kept_leaf_stands = ((8, refl), tt)

three_leaves_stored : Stores three_leaves_store three_leaves.placed
unfolding Stores
three_leaves_stored = (refl, (refl, (refl, tt)))

one_reused : reused count_up old_tree (spaced 253 0) ≡ 1
unfolding equal_prefix chunk_eq chunk_btree_extents chunk_loop
one_reused = refl

rebuild_localized-Holds_example : Holds three_leaves_store 52 (spaced 253 0)
rebuild_localized-Holds_example =
    rebuild_localized-Holds count_up old_tree (spaced 253 0) 50 53 three_leaves three_leaves_store
      (omega arith) three_leaves_built (rw one_reused kept_leaf_stands) three_leaves_stored

no_block_left : build_tree count_up (spaced 3 0) 100 ≡ (100, none)
unfolding build_tree build_btree_leaves alloc_leaves chunk_btree_extents chunk_loop
no_block_left = refl

builds_fail_example : (s : ℕ) × (count_up s ≡ (100, none))
builds_fail_example =
    builds_fail count_up old_tree (spaced 3 0) 100 100 (omega arith) (inl no_block_left)
