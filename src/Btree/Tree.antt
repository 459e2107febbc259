-- ===== src/Btree/Tree.antt =====
-- The whole tree: leaves over the chunks of the extents, and the index above them.
use briefs_utils.Base.{some, ℕ, suc, ◌<◌, ◌==◌, if_cases, ◌≡◌, refl, ap, arith}
use briefs_utils.Base.{Option, List, [], ◌∷◌, length}
use briefs_utils.Base.Bytes.{All}
use mathlib.Core.Path.{subst}
use briefs_utils.Extents.{Extent}
use briefs_utils.Btree.{
  Node, Level, Built, chunk_btree_extents, alloc_leaves, place_leaves, build_btree_leaves,
  build_tree,
}
use briefs_utils.Btree.Holds.{Holds, HoldsAll}
use briefs_utils.Btree.Build.{
  Stores, Stores-append, Gives, Gives-bind, Gives-some, Gives-alloc, concat, IsChunk,
  chunk_btree_extents_lem,
}
use briefs_utils.Btree.Levels.{Roots, build_btree_index-Roots}

pub place_leaves-HoldsAll :
    (store : ℕ → Option Node) (blocks : List ℕ) (chunks : List (List Extent))
    → length blocks ≡ length chunks
    → All IsChunk chunks
    → Stores store (place_leaves blocks chunks).placed
    → HoldsAll store (place_leaves blocks chunks).children (concat chunks)
unfolding place_leaves Stores
place_leaves-HoldsAll store [] [] e c st = HoldsAll.nil
place_leaves-HoldsAll store [] (chunk ∷ chunks) e c st = absurd (omega arith)
place_leaves-HoldsAll store (b ∷ blocks) [] e c st = absurd (omega arith)
place_leaves-HoldsAll store (b ∷ blocks) (chunk ∷ chunks) e ((pos, fits), c) (here, st) =
    HoldsAll.cons chunk (concat chunks) (Holds.at_leaf here pos fits) refl pos refl
      (place_leaves-HoldsAll store blocks chunks (omega arith) c st)

pub length-place_leaves :
    (blocks : List ℕ) (chunks : List (List Extent))
    → length blocks ≡ length chunks
    → length (place_leaves blocks chunks).children ≡ length chunks
unfolding place_leaves
length-place_leaves [] [] e = refl
length-place_leaves [] (chunk ∷ chunks) e = absurd (omega arith)
length-place_leaves (b ∷ blocks) [] e = absurd (omega arith)
length-place_leaves (b ∷ blocks) (chunk ∷ chunks) e =
    ap suc (length-place_leaves blocks chunks (omega arith))

pub concat-length : (chunks : List (List Extent)) → 0 < length (concat chunks) → 0 < length chunks
concat-length [] h = h
concat-length (c ∷ chunks) h = omega arith

module _ {S : Type 0} (alloc : S → S × Option ℕ) where
  pub alloc_leaves-length :
      (chunks : List (List Extent)) (s : S)
      → Gives alloc
          (λ (blocks : List ℕ). length blocks ≡ length chunks)
          (alloc_leaves alloc chunks s)
  unfolding alloc_leaves
  alloc_leaves-length [] s = refl
  alloc_leaves-length (chunk ∷ chunks) s =
      Gives-bind alloc (λ (b : ℕ). Unit {0})
        (λ (blocks : List ℕ). length blocks ≡ suc (length chunks)) (alloc s) _ (Gives-alloc alloc s)
        (λ s1 b _.
          Gives-bind alloc (λ (blocks : List ℕ). length blocks ≡ length chunks)
            (λ (blocks : List ℕ). length blocks ≡ suc (length chunks)) _ _
            (alloc_leaves-length chunks s1) (λ s2 blocks e. ap suc e))

  -- The leaves hold the extents.
  abbrev LeavesHold : List Extent → Level → Type 0
  LeavesHold extents l =
      (0 < length l.children)
      × ((store : ℕ → Option Node) → Stores store l.placed → HoldsAll store l.children extents)

  build_btree_leaves-LeavesHold :
      (extents : List Extent) (s : S)
      → 0 < length extents
      → Gives alloc (LeavesHold extents) (build_btree_leaves alloc extents s)
  unfolding build_btree_leaves
  build_btree_leaves-LeavesHold extents s pos =
      let (whole, chunks) = chunk_btree_extents_lem extents in
      let some_chunk : 0 < length (chunk_btree_extents extents) =
        concat-length (chunk_btree_extents extents) (rw whole pos) in
      if_cases (Gives alloc (LeavesHold extents)) (length extents == 0) _ _
        (λ e. absurd (ground (arith, e)))
        (λ _.
          Gives-bind alloc
            (λ (blocks : List ℕ). length blocks ≡ length (chunk_btree_extents extents))
            (LeavesHold extents) _ _ (alloc_leaves-length (chunk_btree_extents extents) s)
            (λ s1 blocks e. (
              rw (length-place_leaves blocks (chunk_btree_extents extents) e) some_chunk,
              λ store st.
                  subst
                    (λ l.
                      HoldsAll store (place_leaves blocks (chunk_btree_extents extents)).children l)
                    whole
                    (place_leaves-HoldsAll store blocks (chunk_btree_extents extents) e chunks st),
            )))

  -- Wherever the placed nodes stand, the root holds the extents.
  abbrev pub BuildsFor : List Extent → Built → Type 0
  BuildsFor extents b =
      (store : ℕ → Option Node) → Stores store b.placed → Holds store b.root extents

  pub build_tree-Gives :
      (extents : List Extent) (s : S)
      → 0 < length extents
      → Gives alloc (BuildsFor extents) (build_tree alloc extents s)
  unfolding build_tree
  build_tree-Gives extents s pos =
      Gives-bind alloc (LeavesHold extents) (BuildsFor extents) _ _
        (build_btree_leaves-LeavesHold extents s pos)
        (λ s1 l leaves.
          Gives-bind alloc (Roots alloc l.children) (BuildsFor extents) _ _
            (build_btree_index-Roots alloc 1 l.children s1 leaves.0)
            (λ s2 b roots store st.
              let (below, above) = Stores-append store l.placed b.placed st in
              roots store extents above (leaves.1 store below)))

  -- For a list of extents that is not empty, when the bulk build gives a root and the nodes that it
  -- placed stand in a store, a descent from the root meets the extents in order, with 1 to 126 of
  -- them in a leaf, 2 to 254 children in an index node, and the smallest offset of each child but
  -- the first as its separator.
  pub build_tree-Holds :
      (extents : List Extent) (s s' : S) (b : Built) (store : ℕ → Option Node)
      → 0 < length extents
      → build_tree alloc extents s ≡ (s', some b)
      → Stores store b.placed
      → Holds store b.root extents
  build_tree-Holds extents s s' b store pos e st =
      Gives-some alloc (BuildsFor extents) (build_tree alloc extents s) s' b
        (build_tree-Gives extents s pos) e store st
