-- ===== src/Btree/Holds.antt =====
-- What a B+tree holds: the extents that a descent from its root meets in order.
use briefs_utils.Base.{ℕ, zero, suc, ◌≤◌, ◌<◌, ◌≡◌, refl, ap, ◌∙◌, sym}
use briefs_utils.Base.{Option, some, List, [], ◌∷◌, ◌++◌, length, take, drop}
use mathlib.Core.List.{append_assoc}
use briefs_utils.Extents.{Extent}
use briefs_utils.Pool.Shield.{btree_leaf_fanout, btree_idx_fanout}
use briefs_utils.Btree.{Child, IdxEntry, Node, first_offset, idx_entries, trailing_child}

-- The children that a descent visits, in order, and the separators between them.
unfoldable pub children_of : List IdxEntry → ℕ → List ℕ
children_of [] trailing = trailing ∷ []
children_of (e ∷ entries) trailing = e.child ∷ children_of entries trailing

unfoldable pub high_keys : List IdxEntry → List ℕ
high_keys [] = []
high_keys (e ∷ entries) = e.high_key ∷ high_keys entries

unfoldable pub blocks_of : List Child → List ℕ
blocks_of [] = []
blocks_of (c ∷ cs) = c.block ∷ blocks_of cs

unfoldable pub min_keys : List Child → List ℕ
min_keys [] = []
min_keys (c ∷ cs) = c.min_key ∷ min_keys cs

mutual
  -- Block `b` is a leaf with these extents, or an index node over children that hold them, with the
  -- smallest offset of each child but the first as a separator.
  pub data Holds (store : ℕ → Option Node) : ℕ → List Extent → Type 0 where
    at_leaf :
        {b next : ℕ} {exts : List Extent}
        → store b ≡ some (Node.leaf exts next)
        → 0 < length exts
        → length exts ≤ btree_leaf_fanout
        → Holds store b exts
    at_index :
        {b level trailing : ℕ} {entries : List IdxEntry} {exts : List Extent} (c : Child)
        (cs : List Child)
        → store b ≡ some (Node.index level entries trailing)
        → children_of entries trailing ≡ blocks_of (c ∷ cs)
        → high_keys entries ≡ min_keys cs
        → 0 < length cs
        → length cs ≤ btree_idx_fanout
        → HoldsAll store (c ∷ cs) exts
        → Holds store b exts

  pub data HoldsAll (store : ℕ → Option Node) : List Child → List Extent → Type 0 where
    nil : HoldsAll store [] []
    cons :
        {c : Child} {cs : List Child} {zs : List Extent} (xs ys : List Extent)
        → Holds store c.block xs
        → c.min_key ≡ first_offset xs
        → 0 < length xs
        → zs ≡ xs ++ ys
        → HoldsAll store cs ys
        → HoldsAll store (c ∷ cs) zs

pub children_of-idx_entries :
    (c : Child) (cs : List Child)
    → children_of (idx_entries (c ∷ cs)) (trailing_child (c ∷ cs)) ≡ blocks_of (c ∷ cs)
unfolding children_of idx_entries trailing_child blocks_of
children_of-idx_entries c [] = refl
children_of-idx_entries c (d ∷ cs) = ap (λ (l : List ℕ). c.block ∷ l) (children_of-idx_entries d cs)

pub high_keys-idx_entries :
    (c : Child) (cs : List Child) → high_keys (idx_entries (c ∷ cs)) ≡ min_keys cs
unfolding high_keys idx_entries min_keys
high_keys-idx_entries c [] = refl
high_keys-idx_entries c (d ∷ cs) = ap (λ (l : List ℕ). d.min_key ∷ l) (high_keys-idx_entries d cs)

-- The first `k` children hold a first part of the extents, and the others the rest.
pub record Cut (store : ℕ → Option Node) (k : ℕ) (cs : List Child) (zs : List Extent) : Type 0 where
  pub front : List Extent
  pub back : List Extent
  pub whole : zs ≡ front ++ back
  pub holds_front : HoldsAll store (take k cs) front
  pub holds_back : HoldsAll store (drop k cs) back

pub cut_lem :
    (store : ℕ → Option Node) (k : ℕ) (cs : List Child) (zs : List Extent)
    → HoldsAll store cs zs
    → Cut store k cs zs
cut_lem store zero cs zs h = record {
  front = [];
  back = zs;
  whole = refl;
  holds_front = HoldsAll.nil;
  holds_back = h;
}
cut_lem store (suc k) [] zs h = record {
  front = [];
  back = zs;
  whole = refl;
  holds_front = HoldsAll.nil;
  holds_back = h;
}
cut_lem store (suc k) (c ∷ cs) zs (HoldsAll.cons xs ys h first pos e rest) =
    let r = cut_lem store k cs ys rest in
    record {
      front = xs ++ r.front;
      back = r.back;
      whole = e ∙ ap (λ (l : List Extent). xs ++ l) r.whole ∙ sym (append_assoc xs r.front r.back);
      holds_front = HoldsAll.cons xs r.front h first pos refl r.holds_front;
      holds_back = r.holds_back;
    }
