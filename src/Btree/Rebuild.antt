-- ===== src/Btree/Rebuild.antt =====
-- The localized rebuild of an extent tree, which keeps the old leaves up to the first change:
-- `rebuildExtentIndexWrite` of fuse/extent_rebuild.go, past its fallbacks, and `allNodes`.
use briefs_utils.Base.{
  inl, inr, none, ◌⊎◌, ℕ, zero, suc, ◌-◌, ◌≤◌, ◌<◌, ◌==◌, ltb, if◌then◌else◌, Bool, true, false,
  ◌&&◌, ◌≡◌, refl, ap, arith, ◌∙◌, sym,
}
use briefs_utils.Base.{Option, some, List, [], ◌∷◌, ◌++◌, length, take, drop}
use briefs_utils.Base.Bytes.{All}
use mathlib.Core.Path.{subst}
use briefs_utils.Extents.{Extent}
use briefs_utils.Runs.{BlockRun, add_block}
use briefs_utils.Btree.{
  build_tree, Node, Placed, bind, chunk_btree_extents, alloc_leaves, place_leaves,
  build_btree_index,
}
use briefs_utils.Btree.Holds.{Holds, HoldsAll}
use briefs_utils.Btree.Build.{
  Stores, Stores-append, Gives, Gives-bind, Gives-some, Gives-none, concat, IsChunk,
  chunk_btree_extents_lem,
}
use briefs_utils.Btree.Levels.{Roots, build_btree_index-Roots}
use briefs_utils.Btree.Tree.{
  BuildsFor, build_tree-Gives, place_leaves-HoldsAll, length-place_leaves, alloc_leaves-length,
  concat-length,
}

pub record ExtentLeaf : Type 0 where
  pub block : ℕ
  pub chunk : List Extent

-- The old tree as it was walked: its leaves and its index blocks.
pub record ExtentTree : Type 0 where
  pub leaves : List ExtentLeaf
  pub idx : List ℕ

unfoldable pub leaf_blocks : List ExtentLeaf → List ℕ
leaf_blocks [] = []
leaf_blocks (lf ∷ leaves) = lf.block ∷ leaf_blocks leaves

unfoldable pub add_blocks : List BlockRun → List ℕ → List BlockRun
add_blocks runs [] = runs
add_blocks runs (b ∷ blocks) = add_blocks (add_block runs b) blocks

unfoldable pub all_nodes : ExtentTree → List BlockRun
all_nodes t = add_blocks (add_blocks [] (leaf_blocks t.leaves)) t.idx

-- `slices.Equal` on two chunks.
abbrev pub extent_eq : Extent → Extent → Bool
extent_eq a b =
    (a.offset == b.offset) && (a.phys == b.phys) && (a.len == b.len) && (a.flags == b.flags)

unfoldable pub chunk_eq : List Extent → List Extent → Bool
chunk_eq [] [] = true
chunk_eq [] (b ∷ bs) = false
chunk_eq (a ∷ as') [] = false
chunk_eq (a ∷ as') (b ∷ bs) = extent_eq a b && chunk_eq as' bs

unfoldable pub equal_prefix : List (List Extent) → List ExtentLeaf → ℕ
equal_prefix [] old = 0
equal_prefix (chunk ∷ chunks) [] = 0
equal_prefix (chunk ∷ chunks) (lf ∷ old) =
    let rest = equal_prefix chunks old in if chunk_eq chunk lf.chunk then suc rest else 0

abbrev pub reuse_count : ℕ → ℕ
reuse_count p = if ltb p 2 then 0 else p - 1

pub record Rebuilt : Type 0 where
  pub root : ℕ
  pub placed : List Placed
  pub freed : List BlockRun

unfoldable pub rebuild_localized :
    {S : Type 0} → (S → S × Option ℕ) → ExtentTree → List Extent → S → S × Option Rebuilt
rebuild_localized alloc tree exts s =
    let chunks = chunk_btree_extents exts in
    let reuse = reuse_count (equal_prefix chunks tree.leaves) in
    bind (alloc_leaves alloc (drop reuse chunks) s) (λ s1 fresh.
      let l = place_leaves (leaf_blocks (take reuse tree.leaves) ++ fresh) chunks in
      bind (build_btree_index alloc 1 l.children s1) (λ s2 b. (
        s2,
        some (record {
          root = b.root;
          placed = drop reuse l.placed ++ b.placed;
          freed = add_blocks (add_blocks [] (leaf_blocks (drop reuse tree.leaves))) tree.idx;
        }),
      )))

chunk_eq_lem : (a b : List Extent) → chunk_eq a b ≡ true → a ≡ b
unfolding chunk_eq
chunk_eq_lem [] [] h = refl
chunk_eq_lem [] (b ∷ bs) h = cc
chunk_eq_lem (a ∷ as') [] h = cc
chunk_eq_lem (a ∷ as') (b ∷ bs) h =
    let rest = chunk_eq_lem as' bs (ground (arith, h)) in ground (arith, h, rest)

-- The kept leaves still stand in the store, whatever they link to.
unfoldable pub LeavesStand : (ℕ → Option Node) → List ExtentLeaf → Type 0
LeavesStand store [] = Unit {0}
LeavesStand store (lf ∷ leaves) =
    ((next : ℕ) × (store lf.block ≡ some (Node.leaf lf.chunk next))) × LeavesStand store leaves

mixed_leaves-HoldsAll :
    (store : ℕ → Option Node) (r : ℕ) (old : List ExtentLeaf) (fresh : List ℕ)
    (chunks : List (List Extent))
    → r ≤ equal_prefix chunks old
    → length fresh ≡ length (drop r chunks)
    → All IsChunk chunks
    → LeavesStand store (take r old)
    → Stores store (drop r (place_leaves (leaf_blocks (take r old) ++ fresh) chunks).placed)
    → HoldsAll store
        (place_leaves (leaf_blocks (take r old) ++ fresh) chunks).children
        (concat chunks)
unfolding equal_prefix LeavesStand leaf_blocks place_leaves
mixed_leaves-HoldsAll store zero old fresh chunks p e c stand st =
    place_leaves-HoldsAll store fresh chunks e c st
mixed_leaves-HoldsAll store (suc r) old fresh [] p e c stand st = absurd (omega arith)
mixed_leaves-HoldsAll store (suc r) [] fresh (chunk ∷ chunks) p e c stand st = absurd (omega arith)
mixed_leaves-HoldsAll store (suc r) (lf ∷ old) fresh (chunk ∷ chunks) p e ((pos, fits), c)
      ((next, here), stand) st =
    let same : chunk_eq chunk lf.chunk ≡ true = ground (arith, p) in
    let equal = chunk_eq_lem chunk lf.chunk same in
    let holds =
      mixed_leaves-HoldsAll store r old fresh chunks (ground (arith, p, same)) e c stand st in
    HoldsAll.cons chunk (concat chunks)
      (Holds.at_leaf {next = next}
        (here ∙ ap (λ (l : List Extent). some (Node.leaf l next)) (sym equal)) pos fits)
      refl pos refl holds

mixed_length :
    (r : ℕ) (old : List ExtentLeaf) (fresh : List ℕ) (chunks : List (List Extent))
    → r ≤ equal_prefix chunks old
    → length fresh ≡ length (drop r chunks)
    → length (place_leaves (leaf_blocks (take r old) ++ fresh) chunks).children ≡ length chunks
unfolding equal_prefix leaf_blocks place_leaves
mixed_length zero old fresh chunks p e = length-place_leaves fresh chunks e
mixed_length (suc r) old fresh [] p e = absurd (omega arith)
mixed_length (suc r) [] fresh (chunk ∷ chunks) p e = absurd (omega arith)
mixed_length (suc r) (lf ∷ old) fresh (chunk ∷ chunks) p e =
    let same : chunk_eq chunk lf.chunk ≡ true = ground (arith, p) in
    ap suc (mixed_length r old fresh chunks (ground (arith, p, same)) e)

reuse_le : (p : ℕ) → reuse_count p ≤ p
reuse_le p = ground arith

module _ {S : Type 0} (alloc : S → S × Option ℕ) (tree : ExtentTree) (exts : List Extent) where
  abbrev pub reused : ℕ
  reused = reuse_count (equal_prefix (chunk_btree_extents exts) tree.leaves)

  -- Where the kept leaves stand and the new nodes are written, the new root holds the new extents.
  abbrev pub Rebuilds : Rebuilt → Type 0
  Rebuilds r =
      (store : ℕ → Option Node)
      → LeavesStand store (take reused tree.leaves)
      → Stores store r.placed
      → Holds store r.root exts

  children-HoldsAll :
      (fresh : List ℕ)
      → length fresh ≡ length (drop reused (chunk_btree_extents exts))
      → (store : ℕ → Option Node) → LeavesStand store (take reused tree.leaves)
      → Stores store (
          drop reused
            (place_leaves
              (leaf_blocks (take reused tree.leaves) ++ fresh)
              (chunk_btree_extents exts)).placed)
      → HoldsAll store
          (place_leaves
            (leaf_blocks (take reused tree.leaves) ++ fresh)
            (chunk_btree_extents exts)).children
          exts
  children-HoldsAll fresh e store stand st =
      let (whole, chunks) = chunk_btree_extents_lem exts in
      let holds =
        mixed_leaves-HoldsAll store reused tree.leaves fresh (chunk_btree_extents exts)
          (reuse_le (equal_prefix (chunk_btree_extents exts) tree.leaves)) e chunks stand st in
      subst
        (λ l.
          HoldsAll store
            (place_leaves (leaf_blocks (take reused tree.leaves) ++ fresh)
              (chunk_btree_extents exts)).children
            l)
        whole holds

  pub rebuild_localized-Gives :
      (s : S) → 0 < length exts → Gives alloc Rebuilds (rebuild_localized alloc tree exts s)
  unfolding rebuild_localized
  rebuild_localized-Gives s pos =
      Gives-bind alloc
        (λ (fresh : List ℕ). length fresh ≡ length (drop reused (chunk_btree_extents exts)))
        Rebuilds _ _ (alloc_leaves-length alloc (drop reused (chunk_btree_extents exts)) s)
        (λ s1 fresh e.
          let l =
            place_leaves (leaf_blocks (take reused tree.leaves) ++ fresh)
              (chunk_btree_extents exts) in
          Gives-bind alloc (Roots alloc l.children) Rebuilds _ _
            (build_btree_index-Roots alloc 1 l.children s1 (children_pos fresh e))
            (λ s2 b roots store stand st.
              let (below, above) = Stores-append store (drop reused l.placed) b.placed st in
              roots store exts above (children-HoldsAll fresh e store stand below)))
    where
      children_pos :
          (fresh : List ℕ)
          → length fresh ≡ length (drop reused (chunk_btree_extents exts))
          → 0
            < length
                (place_leaves
                  (leaf_blocks (take reused tree.leaves) ++ fresh)
                  (chunk_btree_extents exts)).children
      children_pos fresh e =
          rw
            (mixed_length reused tree.leaves fresh (chunk_btree_extents exts)
              (reuse_le (equal_prefix (chunk_btree_extents exts) tree.leaves)) e)
            (concat-length (chunk_btree_extents exts) (rw (chunk_btree_extents_lem exts).0 pos))

  -- For a list of extents that is not empty, when the localized rebuild gives a root, the nodes
  -- that it placed stand in a store, and the old leaves that it keeps still do, whatever they link
  -- to, a descent from the root meets the extents in order.
  pub rebuild_localized-Holds :
      (s s' : S) (r : Rebuilt) (store : ℕ → Option Node)
      → 0 < length exts
      → rebuild_localized alloc tree exts s ≡ (s', some r)
      → LeavesStand store (take reused tree.leaves)
      → Stores store r.placed
      → Holds store r.root exts
  rebuild_localized-Holds s s' r store pos e stand st =
      Gives-some alloc Rebuilds (rebuild_localized alloc tree exts s) s' r
        (rebuild_localized-Gives s pos) e store stand st

  -- For a list of extents that is not empty, the bulk build and the localized rebuild fail only in
  -- the state in which an allocation failed.
  pub builds_fail :
      (s s' : S)
      → 0 < length exts
      → (build_tree alloc exts s ≡ (s', none)) ⊎ (rebuild_localized alloc tree exts s ≡ (s', none))
      → (s0 : S) × (alloc s0 ≡ (s', none))
  builds_fail s s' pos (inl e) =
      Gives-none alloc (BuildsFor alloc exts) (build_tree alloc exts s) s'
        (build_tree-Gives alloc exts s pos) e
  builds_fail s s' pos (inr e) =
      Gives-none alloc Rebuilds (rebuild_localized alloc tree exts s) s'
        (rebuild_localized-Gives s pos) e
