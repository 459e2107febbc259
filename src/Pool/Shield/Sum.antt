-- ===== src/Pool/Shield/Sum.antt =====
-- The shield is the sum of the reserves over the inodes: fuse/meta_shield.go.
use briefs_utils.Base.{◌/◌, ℕ, ◌+◌, ◌*◌, ◌<◌, ◌≤◌, ◌^◌, ◌==◌, if◌then◌else◌}
use briefs_utils.Base.{◌≡◌, ◌≢◌, refl, arith, List, [], ◌∷◌, true, Bool-cases, inl, inr}
use briefs_utils.Base.Bytes.{All}
use briefs_utils.Pool.Shield.{
  meta_reserve_size, Entry, lookup, delete, store, Reserve, adjust_shield, set_unwritten_res,
}

unfoldable pub total : List Entry → ℕ
total [] = 0
total (e ∷ m) = meta_reserve_size e.blocks + total m

abbrev pub Absent : ℕ → List Entry → Type 0
Absent ino m = All (λ e. e.ino ≢ ino) m

-- One entry per inode.
abbrev pub AreDistinct : List Entry → Type 0
AreDistinct [] = Unit {0}
AreDistinct (e ∷ m) = Absent e.ino m × AreDistinct m

delete-Absent : (ino j : ℕ) (m : List Entry) → Absent j m → Absent j (delete m ino)
unfolding delete
delete-Absent ino j [] h = tt
delete-Absent ino j (e ∷ m) (h, hs) = elim (Bool-cases (e.ino == ino)) [
  | inl same ↦ rw same (delete-Absent ino j m hs)
  | inr other ↦ rw other (h, delete-Absent ino j m hs)
]

delete-Absent_self : (ino : ℕ) (m : List Entry) → Absent ino (delete m ino)
unfolding delete
delete-Absent_self ino [] = tt
delete-Absent_self ino (e ∷ m) = elim (Bool-cases (e.ino == ino)) [
  | inl same ↦ rw same (delete-Absent_self ino m)
  | inr other ↦ rw other (ground (arith, other), delete-Absent_self ino m)
]

delete-AreDistinct : (ino : ℕ) (m : List Entry) → AreDistinct m → AreDistinct (delete m ino)
unfolding delete
delete-AreDistinct ino [] h = tt
delete-AreDistinct ino (e ∷ m) (h, hs) = elim (Bool-cases (e.ino == ino)) [
  | inl same ↦ rw same (delete-AreDistinct ino m hs)
  | inr other ↦ rw other (delete-Absent ino e.ino m h, delete-AreDistinct ino m hs)
]

total-delete-Absent : (ino : ℕ) (m : List Entry) → Absent ino m → total (delete m ino) ≡ total m
unfolding delete total
total-delete-Absent ino [] h = refl
total-delete-Absent ino (e ∷ m) (h, hs) = ground (arith, h, total-delete-Absent ino m hs)

total-delete :
    (ino : ℕ) (m : List Entry)
    → AreDistinct m
    → total (delete m ino) + meta_reserve_size (lookup m ino) ≡ total m
unfolding delete total lookup meta_reserve_size
total-delete ino [] h = omega arith
total-delete ino (e ∷ m) (h, hs) = elim (Bool-cases (e.ino == ino)) [
  | inl same ↦
      let key : e.ino ≡ ino = ground arith in
      ground (arith, same, total-delete-Absent e.ino m h, key)
  | inr other ↦ ground (arith, other, total-delete ino m hs)
]

lookup-delete :
    (ino j : ℕ) (m : List Entry) → lookup (delete m ino) j ≡ (if j == ino then 0 else lookup m j)
unfolding delete lookup
lookup-delete ino j [] = ground arith
lookup-delete ino j (e ∷ m) = ground (arith, lookup-delete ino j m)

adjusted :
    (shield new old : ℕ)
    → old ≤ shield
    → shield + new < 2 ^ 64
    → adjust_shield shield new old + old ≡ shield + new
unfolding adjust_shield
adjusted shield new old p q = ground arith

meta_reserve_size-none : (n : ℕ) → (n == 0) ≡ true → meta_reserve_size n ≡ 0
unfolding meta_reserve_size
meta_reserve_size-none n h = rw h refl

-- The tracked state: one entry per inode, and the shield is the sum of their reserves.
pub record IsReserve (r : Reserve) : Type 0 where
  pub distinct : AreDistinct r.unwritten_res
  pub shields : r.meta_shield ≡ total r.unwritten_res
  pub bounded : r.meta_shield < 2 ^ 64

-- While the sum stays below 2 ^ 64, setUnwrittenRes sets the count of one inode, leaves the others,
-- and keeps the shield the sum of the reserves over the inodes.
pub set_unwritten_res-IsReserve :
    (r : Reserve) (ino n : ℕ)
    → IsReserve r
    → total r.unwritten_res + meta_reserve_size n < 2 ^ 64
    → IsReserve (set_unwritten_res r ino n)
      × ((j : ℕ)
          → lookup (set_unwritten_res r ino n).unwritten_res j
            ≡ (if j == ino then n else lookup r.unwritten_res j))
unfolding set_unwritten_res store total lookup
set_unwritten_res-IsReserve r ino n v fits = elim (Bool-cases (n == lookup r.unwritten_res ino)) [
  | inl same ↦ rw same (v, λ j. ground (arith, same))
  | inr changed ↦ elim (Bool-cases (n == 0)) [
    | inl none ↦
        rw (changed, none)
          (
            record {
              distinct = delete-AreDistinct ino r.unwritten_res v.distinct;
              shields = omega (arith, shield, deleted, meta_reserve_size-none n none, v.shields);
              bounded = omega (arith, shield, deleted, v.shields, fits);
            },
            λ j. ground (arith, none, lookup-delete ino j r.unwritten_res),
          )
    | inr some_left ↦
        rw (changed, some_left)
          (
            record {
              distinct = (
                delete-Absent_self ino r.unwritten_res,
                delete-AreDistinct ino r.unwritten_res v.distinct,
              );
              shields = omega (arith, shield, deleted, v.shields);
              bounded = omega (arith, shield, deleted, v.shields, fits);
            },
            λ j. ground (arith, lookup-delete ino j r.unwritten_res),
          )
  ]
]
  where
    deleted :
        total (delete r.unwritten_res ino) + meta_reserve_size (lookup r.unwritten_res ino)
        ≡ total r.unwritten_res
    deleted = total-delete ino r.unwritten_res v.distinct

    shield :
        adjust_shield r.meta_shield
            (meta_reserve_size n)
            (meta_reserve_size (lookup r.unwritten_res ino))
          + meta_reserve_size (lookup r.unwritten_res ino)
        ≡ r.meta_shield + meta_reserve_size n
    shield =
        adjusted r.meta_shield (meta_reserve_size n) _ (omega (arith, deleted, v.shields))
          (omega (arith, fits, v.shields))

-- For a positive count below 2 ^ 63 the reserve has leaves for one extent per block, index nodes
-- for the leaves, each as few as will do, and one block more.
pub meta_reserve_size-Covers :
    (n : ℕ)
    → 0 < n
    → n < 2 ^ 63
    → (leaves : ℕ) × (internals : ℕ) × (meta_reserve_size n ≡ leaves + internals + 1)
      × ((n ≤ 126 * leaves) × (126 * leaves < n + 126))
      × ((leaves ≤ 253 * internals) × (253 * internals < leaves + 253))
unfolding meta_reserve_size
meta_reserve_size-Covers n pos small = (
  (n + 125) / 126,
  ((n + 125) / 126 + 252) / 253,
  ground arith,
  (omega arith, omega arith),
  (omega arith, omega arith),
)
