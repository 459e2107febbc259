-- ===== src/Btree/Levels.antt =====
-- The index levels over the children of the level below: `BuildBtreeIndex`.
use briefs_utils.Base.{
  ℕ, zero, suc, ◌+◌, ◌-◌, ◌*◌, ◌/◌, ◌%◌, ◌≤◌, ◌<◌, ◌==◌, ltb, leb, if◌then◌else◌, if_cases, ◌≡◌,
  refl, ap, arith, ◌∙◌, sym,
}
use briefs_utils.Base.{Option, some, List, [], ◌∷◌, ◌++◌, length, take, drop, Bool-cases, inl, inr}
use briefs_utils.Base.Words.{u16}
use mathlib.Core.List.{append-nil}
use native.Mathlib.Nat.{mod-lt, div-add-mod', mul-le-mul_right}
use briefs_utils.Extents.{Extent}
use briefs_utils.Pool.Shield.{btree_idx_fanout}
use briefs_utils.Btree.{
  Child, Node, Level, level_cons, Built, first_offset, first_key, index_node, build_nodes, root_of,
  build_levels, build_btree_index,
}
use briefs_utils.Btree.Holds.{
  Holds, HoldsAll, cut_lem, children_of-idx_entries, high_keys-idx_entries,
}
use briefs_utils.Btree.Build.{
  Stores, Stores-append, Gives, Gives-bind, Gives-alloc, length-take, length-drop,
}
use briefs_utils.Base.{length-append}

-- How a level of `len` children is spread over index nodes: evenly, with two children at least and
-- 254 at most in each.
record Spread (len : ℕ) : Type 0 where
  fewer : (len + btree_idx_fanout) / (btree_idx_fanout + 1) < len
  some_nodes : 0 < (len + btree_idx_fanout) / (btree_idx_fanout + 1)
  whole :
      len
      ≡ (len + btree_idx_fanout)
          / (btree_idx_fanout + 1)
          * (len / ((len + btree_idx_fanout) / (btree_idx_fanout + 1)))
        + len % ((len + btree_idx_fanout) / (btree_idx_fanout + 1))
  rest :
      len % ((len + btree_idx_fanout) / (btree_idx_fanout + 1))
      < (len + btree_idx_fanout) / (btree_idx_fanout + 1)
  two : 2 ≤ len / ((len + btree_idx_fanout) / (btree_idx_fanout + 1))
  fits : len / ((len + btree_idx_fanout) / (btree_idx_fanout + 1)) ≤ btree_idx_fanout + 1
  fits_more :
      0 < len % ((len + btree_idx_fanout) / (btree_idx_fanout + 1))
      → len / ((len + btree_idx_fanout) / (btree_idx_fanout + 1)) ≤ btree_idx_fanout

spread_of :
    (len q base rem : ℕ)
    → 2 ≤ len
    → q < len
    → len ≤ 254 * q
    → 254 * q ≤ len + 253
    → len ≡ base * q + rem
    → rem < q
    → (2 ≤ base) × (base ≤ 254) × (0 < rem → base ≤ 253)
spread_of len q base rem a b c d e f = (
  elim (Bool-cases (leb 2 base)) [
    | inl h ↦ ground (arith, h)
    | inr h ↦
        let low : base ≤ 1 = ground (arith, h) in
        absurd (omega (arith, mul-le-mul_right {m = base} {n = 1} q low))
  ],
  elim (Bool-cases (leb base 254)) [
    | inl h ↦ ground (arith, h)
    | inr h ↦
        let high : 255 ≤ base = ground (arith, h) in
        absurd (omega (arith, mul-le-mul_right {m = 255} {n = base} q high))
  ],
  λ more. elim (Bool-cases (leb base 253)) [
    | inl h ↦ ground (arith, h)
    | inr h ↦
        let high : 254 ≤ base = ground (arith, h) in
        absurd (omega (arith, mul-le-mul_right {m = 254} {n = base} q high))
  ],
)

spread_lem : (len : ℕ) → 2 ≤ len → Spread len
spread_lem len h =
    let q = (len + btree_idx_fanout) / (btree_idx_fanout + 1) in
    let few : q < len = omega arith in
    let pos : 0 < q = omega arith in
    let rest : len % q < q = mod-lt len pos in
    let whole : len ≡ len / q * q + len % q = omega (arith, div-add-mod' len q) in
    let (two, fits, more) =
      spread_of len q (len / q) (len % q) h few (omega arith) (omega arith) whole rest in
    record {
      fewer = few;
      some_nodes = pos;
      whole = omega (arith, whole);
      rest = rest;
      two = two;
      fits = fits;
      fits_more = more;
    }

first_offset-append :
    (xs ys : List Extent) → 0 < length xs → first_offset (xs ++ ys) ≡ first_offset xs
first_offset-append [] ys h = absurd (omega arith)
first_offset-append (x ∷ xs) ys h = refl

-- An index node over a bucket that holds some extents holds them.
index_node-Holds :
    (store : ℕ → Option Node) (b level : ℕ) (bucket : List Child) (xs : List Extent)
    → 2 ≤ length bucket
    → length bucket ≤ btree_idx_fanout + 1
    → store b ≡ some (index_node level bucket)
    → HoldsAll store bucket xs
    → Holds store b xs × (first_key bucket ≡ first_offset xs) × (0 < length xs)
index_node-Holds store b level [] xs two fits e h = absurd (omega arith)
index_node-Holds store b level (c ∷ cs) xs two fits e
      (HoldsAll.cons us vs first key pos whole rest) =
    (
      Holds.at_index c cs e (children_of-idx_entries c cs) (high_keys-idx_entries c cs)
          (omega arith) (omega arith) (HoldsAll.cons us vs first key pos whole rest),
      key ∙ sym (ap first_offset whole ∙ first_offset-append us vs pos),
      rw whole (omega (arith, length-append us vs)),
    )

abbrev Lifts : List Child → ℕ → Level → Type 0
Lifts cur m l =
    (length l.children ≡ m)
    × ((store : ℕ → Option Node) (exts : List Extent)
        → Stores store l.placed
        → HoldsAll store cur exts
        → HoldsAll store l.children exts)

-- One more node in front, over the first `k` children.
node-Lifts :
    (k b level m : ℕ) (cur : List Child) (l : Level)
    → 2 ≤ length (take k cur)
    → length (take k cur) ≤ btree_idx_fanout + 1
    → Lifts (drop k cur) m l
    → Lifts cur (suc m) (
        level_cons
          (record { block = b; min_key = first_key (take k cur) })
          (record { block = b; node = index_node level (take k cur) })
          l)
unfolding Stores
node-Lifts k b level m cur l two fits (size, lift) = (
  ap suc size,
  λ store exts st h.
      let c = cut_lem store k cur exts h in
      let (node, key, pos) =
        index_node-Holds store b level (take k cur) c.front two fits st.0 c.holds_front in
      HoldsAll.cons c.front c.back node key pos c.whole (lift store c.back st.1 c.holds_back),
)

module _ {S : Type 0} (alloc : S → S × Option ℕ) where
  build_nodes-Lifts :
      (level base rem : ℕ)
      → 2 ≤ base
      → base ≤ btree_idx_fanout + 1
      → (0 < rem → base ≤ btree_idx_fanout)
      → (m n : ℕ) (cur : List Child) (s : S) → rem ≤ n + m
      → length cur ≡ m * base + (rem - n)
      → Gives alloc (Lifts cur m) (build_nodes alloc level base rem m n cur s)
  unfolding build_nodes Stores
  build_nodes-Lifts level base rem two fits more zero n cur s r e =
      (refl, λ store exts st h. no_children cur (omega arith) h)
    where
      no_children :
          (cs : List Child)
          → length cs ≡ 0
          → {store : ℕ → Option Node} {exts : List Extent} → HoldsAll store cs exts
          → HoldsAll store [] exts
      no_children [] e h = h
      no_children (c ∷ cs) e h = absurd (omega arith)
  build_nodes-Lifts level base rem two fits more (suc m) n cur s r e =
      let k = if ltb n rem then base + 1 else base in
      let enough : k ≤ length cur = ground arith in
      let size : length (take k cur) ≡ k = length-take {A = Child} k cur enough in
      let left : length (drop k cur) ≡ m * base + (rem - (n + 1)) =
        ground (arith, length-drop {A = Child} k cur) in
      Gives-bind alloc (λ (b : ℕ). Unit {0}) (Lifts cur (suc m)) (alloc s) _ (Gives-alloc alloc s)
        (λ s1 b _.
          Gives-bind alloc (Lifts (drop k cur) m) (Lifts cur (suc m)) _ _
            (build_nodes-Lifts level base rem two fits more m (n + 1) (drop k cur) s1 (omega arith)
              left)
            (λ s2 l p.
              node-Lifts k b level m cur l (ground (arith, size)) (ground (arith, size)) p))

  -- The tree above `cur` holds what `cur` holds.
  abbrev pub Roots : List Child → Built → Type 0
  Roots cur b =
      (store : ℕ → Option Node) (exts : List Extent)
      → Stores store b.placed
      → HoldsAll store cur exts
      → Holds store b.root exts

  one_child : (cur : List Child) → length cur ≡ 1 → Roots cur (root_of cur)
  one_child [] e store exts st h = absurd (omega arith)
  one_child (c ∷ d ∷ cur) e store exts st h = absurd (omega arith)
  one_child (c ∷ []) e store exts st (HoldsAll.cons xs ys h key pos whole rest) =
      rw (whole ∙ last_part rest) h
    where
      last_part : {zs : List Extent} → HoldsAll store [] zs → xs ++ zs ≡ xs
      last_part HoldsAll.nil = append-nil xs

  build_levels-Roots :
      (fuel level : ℕ) (cur : List Child) (s : S)
      → length cur ≤ fuel
      → 0 < length cur
      → Gives alloc (Roots cur) (build_levels alloc fuel level cur s)
  unfolding build_levels
  build_levels-Roots zero level cur s f pos = absurd (omega arith)
  build_levels-Roots (suc fuel) level cur s f pos =
      let p = spread_lem (length cur) in
      if_cases (Gives alloc (Roots cur)) (length cur == 1) _ _
        (λ one. one_child cur (ground (arith, one)))
        (λ many.
          let sp = p (ground (arith, many)) in
          Gives-bind alloc (Lifts cur _) (Roots cur) _ _
            (build_nodes-Lifts level _ _ sp.two sp.fits sp.fits_more _ 0 cur s
              (omega (arith, sp.rest)) (omega (arith, sp.whole)))
            (λ s1 l lifted.
              Gives-bind alloc (Roots l.children) (Roots cur) _ _
                (build_levels-Roots fuel (u16 (level + 1)) l.children s1
                  (omega (arith, lifted.0, sp.fewer)) (omega (arith, lifted.0, sp.some_nodes)))
                (λ s2 b roots store exts st h.
                  let (below, above) = Stores-append store l.placed b.placed st in
                  roots store exts above (lifted.1 store exts below h))))

  pub build_btree_index-Roots :
      (level : ℕ) (cur : List Child) (s : S)
      → 0 < length cur
      → Gives alloc (Roots cur) (build_btree_index alloc level cur s)
  unfolding build_btree_index
  build_btree_index-Roots level cur s pos =
      if_cases (Gives alloc (Roots cur)) (length cur == 0) _ _ (λ e. absurd (ground (arith, e)))
        (λ _. build_levels-Roots (length cur) level cur s (omega arith) pos)
