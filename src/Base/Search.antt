-- ===== src/Base/Search.antt =====
-- The binary search of Go's sort.Search, and of the loops written like it: it ends at the first index
-- that passes.
use Prim.Native.Nat.{ℕ, zero, suc, ◌+◌, ◌/◌, ◌≤◌, ◌<◌}
use mathlib.Core.Path.{◌≡◌}
use mathlib.Core.Logic.{inl, inr}
use mathlib.Core.Bool.{Bool, true, false}
use native.Mathlib.Omega.{arith}
use briefs_utils.Base.Tests.{ltb, Bool-cases, if◌then◌else◌}

-- `sort.Search` on [i, j).
unfoldable pub search_range : ℕ → ℕ → ℕ → (ℕ → Bool) → ℕ
search_range zero i j f = i
search_range (suc fuel) i j f =
    let h = (i + j) / 2 in
    let left = search_range fuel i h f in
    let right = search_range fuel (h + 1) j f in
    if ltb i j then (if f h then left else right) else i

-- `r` is the first index below `n` that passes, or `n`.
pub record IsFirstTrue (n : ℕ) (f : ℕ → Bool) (r : ℕ) : Type 0 where
  pub within : r ≤ n
  pub below : (x : ℕ) → x < r → f x ≡ false
  pub here : r < n → f r ≡ true

module _ (n : ℕ) (f : ℕ → Bool) (mono : (x y : ℕ) → x ≤ y → y < n → f x ≡ true → f y ≡ true) where
  fails_before : (h x : ℕ) → h < n → x ≤ h → f h ≡ false → f x ≡ false
  fails_before h x p q fail = elim (Bool-cases (f x)) [
    | inr no_pass ↦ no_pass
    | inl passes ↦ cc (mono x h q p passes)
  ]

  pub search_range-first :
      (fuel i j : ℕ)
      → i ≤ j
      → j ≤ n
      → j ≤ i + fuel
      → ((x : ℕ) → x < i → f x ≡ false)
      → (j < n → f j ≡ true)
      → IsFirstTrue n f (search_range fuel i j f)
  unfolding search_range
  search_range-first zero i j p q e lo hi =
      let same : i ≡ j = omega arith in
      record { within = omega arith; below = lo; here = rw same hi }
  search_range-first (suc fuel) i j p q e lo hi = elim (Bool-cases (ltb i j)) [
    | inr done ↦
        let same : i ≡ j = ground arith in
        rw done (record { within = omega arith; below = lo; here = rw same hi })
    | inl more ↦ elim (Bool-cases (f ((i + j) / 2))) [
      | inl pass ↦
          rw (more, pass)
            (search_range-first fuel i ((i + j) / 2) (ground arith) (ground arith) (ground arith) lo
              (λ _. pass))
      | inr fail ↦
          rw (more, fail)
            (search_range-first fuel ((i + j) / 2 + 1) j (ground arith) q (ground arith)
              (λ x h. fails_before ((i + j) / 2) x (ground arith) (omega arith) fail) hi)
    ]
  ]
