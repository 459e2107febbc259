-- ===== src/Btree/Build.antt =====
-- The bulk build gives a tree that holds the extents, or an allocation failed.
use briefs_utils.Base.{ℕ, zero, suc, ◌-◌, ◌≤◌, ◌<◌, ◌==◌, ◌≡◌, refl, ap, arith, ◌∙◌}
use briefs_utils.Base.{
  Option, none, some, List, [], ◌∷◌, ◌++◌, length, take, drop, Bool-cases, inl, inr,
}
use briefs_utils.Base.Bytes.{All}
use mathlib.Core.Path.{subst}
use briefs_utils.Extents.{Extent}
use briefs_utils.Pool.Shield.{btree_leaf_fanout}
use briefs_utils.Btree.{Node, Placed, bind, chunk_loop, chunk_btree_extents}

abbrev pub concat : List (List Extent) → List Extent
concat [] = []
concat (c ∷ cs) = c ++ concat cs

abbrev pub IsChunk : List Extent → Type 0
IsChunk c = (0 < length c) × (length c ≤ btree_leaf_fanout)

take-drop : (k : ℕ) (l : List Extent) → take k l ++ drop k l ≡ l
take-drop zero l = refl
take-drop (suc k) [] = refl
take-drop (suc k) (x ∷ l) = ap (λ (m : List Extent). x ∷ m) (take-drop k l)

pub length-take {ℓ} : {A : Type ℓ} (k : ℕ) (l : List A) → k ≤ length l → length (take k l) ≡ k
length-take zero l h = refl
length-take (suc k) [] h = absurd (omega arith)
length-take (suc k) (x ∷ l) h = ap suc (length-take k l (omega arith))

length-take_le :
    (k : ℕ) (l : List Extent)
    → (length (take k l) ≤ k) × (0 < k → 0 < length l → 0 < length (take k l))
length-take_le zero l = (omega arith, λ h _. h)
length-take_le (suc k) [] = (omega arith, λ _ h. h)
length-take_le (suc k) (x ∷ l) = (omega (arith, (length-take_le k l).0), λ _ _. omega arith)

pub length-drop {ℓ} : {A : Type ℓ} (k : ℕ) (l : List A) → length (drop k l) ≡ length l - k
length-drop zero l = omega arith
length-drop (suc k) [] = omega arith
length-drop (suc k) (x ∷ l) = omega (arith, length-drop k l)

chunk_loop_lem :
    (n : ℕ) (l : List Extent)
    → length l ≤ n
    → (concat (chunk_loop n l) ≡ l) × All IsChunk (chunk_loop n l)
unfolding chunk_loop
chunk_loop_lem zero [] h = (refl, tt)
chunk_loop_lem zero (x ∷ l) h = absurd (omega arith)
chunk_loop_lem (suc n) l h = elim (Bool-cases (length l == 0)) [
  | inl e ↦ rw e (empty l (ground (arith, e)), tt)
  | inr e ↦
      let (whole, chunks) =
        chunk_loop_lem n (drop btree_leaf_fanout l)
          (ground (arith, e, length-drop {A = Extent} btree_leaf_fanout l)) in
      let (a, b) = length-take_le btree_leaf_fanout l in
      rw e (
        ap (λ (m : List Extent). take btree_leaf_fanout l ++ m) whole
            ∙ take-drop btree_leaf_fanout l,
        ((b (omega arith) (ground (arith, e)), a), chunks),
      )
]
  where
    empty : (m : List Extent) → length m ≡ 0 → [] ≡ m
    empty [] e = refl
    empty (x ∷ m) e = absurd (omega arith)

-- The chunks are the extents in order, none empty and none larger than a leaf.
pub chunk_btree_extents_lem :
    (l : List Extent) → (concat (chunk_btree_extents l) ≡ l) × All IsChunk (chunk_btree_extents l)
unfolding chunk_btree_extents
chunk_btree_extents_lem l = chunk_loop_lem (length l) l (omega arith)

-- Every built node is where it was placed.
unfoldable pub Stores : (ℕ → Option Node) → List Placed → Type 0
Stores store [] = Unit {0}
Stores store (p ∷ ps) = (store p.block ≡ some p.node) × Stores store ps

pub Stores-append :
    (store : ℕ → Option Node) (ps qs : List Placed)
    → Stores store (ps ++ qs)
    → Stores store ps × Stores store qs
unfolding Stores
Stores-append store [] qs s = (tt, s)
Stores-append store (p ∷ ps) qs (h, s) = let (a, b) = Stores-append store ps qs s in ((h, a), b)

-- Either a result with `P`, or an allocation that failed.
abbrev pub Gives :
    {S : Type 0} {A : Type 0} → (S → S × Option ℕ) → (A → Type 0) → S × Option A → Type 0
Gives {S} alloc P (s, none) = (s' : S) × (alloc s' ≡ (s, none))
Gives alloc P (s, some a) = P a

pub Gives-bind :
    {S : Type 0} {A : Type 0} {B : Type 0} (alloc : S → S × Option ℕ) (P : A → Type 0)
    (Q : B → Type 0) (r : S × Option A) (k : S → A → S × Option B)
    → Gives alloc P r
    → ((s : S) (a : A) → P a → Gives alloc Q (k s a))
    → Gives alloc Q (bind r k)
Gives-bind alloc P Q (s, none) k p h = p
Gives-bind alloc P Q (s, some a) k p h = h s a p

pub Gives-alloc :
    {S : Type 0} (alloc : S → S × Option ℕ) (s : S) → Gives alloc (λ (b : ℕ). Unit {0}) (alloc s)
Gives-alloc {S} alloc s = from_result (alloc s) refl
  where
    from_result : (r : S × Option ℕ) → alloc s ≡ r → Gives alloc (λ (b : ℕ). Unit {0}) r
    from_result (s', none) e = (s, e)
    from_result (s', some b) e = tt

-- What a run that came back with a result, or with an error, says.
pub Gives-some :
    {S : Type 0} {A : Type 0} (alloc : S → S × Option ℕ) (P : A → Type 0) (r : S × Option A)
    (s' : S) (a : A)
    → Gives alloc P r
    → r ≡ (s', some a)
    → P a
Gives-some alloc P r s' a p e = subst (Gives alloc P) e p

pub Gives-none :
    {S : Type 0} {A : Type 0} (alloc : S → S × Option ℕ) (P : A → Type 0) (r : S × Option A)
    (s' : S)
    → Gives alloc P r
    → r ≡ (s', none)
    → (s0 : S) × (alloc s0 ≡ (s', none))
Gives-none alloc P r s' p e = subst (Gives alloc P) e p
