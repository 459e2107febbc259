-- ===== src/Runs/Laws.antt =====
-- A run list stands for the sequence of its blocks.
use briefs_utils.Base.{ℕ, zero, suc, ◌+◌, ◌^◌, ◌<◌, ◌==◌, List, [], ◌∷◌, ◌++◌}
use briefs_utils.Base.{
  ◌≡◌, ◌≢◌, refl, sym, ap, ◌∙◌, arith, length, length-append, Bool-cases, inl, inr,
}
use mathlib.Core.List.{append-nil, append_assoc}
use briefs_utils.Base.Words.{u64}
use briefs_utils.Base.Bytes.{All}
use briefs_utils.Runs.{BlockRun, push_run, add_block, add_run, count_from, count}

-- The blocks first, first + 1, …, first + n - 1.
unfoldable pub range : ℕ → ℕ → List ℕ
range first zero = []
range first (suc n) = first ∷ range (first + 1) n

unfoldable pub blocks : List BlockRun → List ℕ
blocks [] = []
blocks (run ∷ runs) = range run.first run.n ++ blocks runs

-- A run ends below 2 ^ 64.
abbrev pub IsRun : BlockRun → Type 0
IsRun run = run.first + run.n < 2 ^ 64

-- No run is empty, and no run ends where the next begins.
abbrev pub AreMaximal : List BlockRun → Type 0
AreMaximal [] = Unit {0}
AreMaximal (run ∷ []) = 0 < run.n
AreMaximal (run ∷ next ∷ runs) =
    (0 < run.n) × (run.first + run.n ≢ next.first) × AreMaximal (next ∷ runs)

range-append : (first m n : ℕ) → range first (m + n) ≡ range first m ++ range (first + m) n
unfolding range
range-append first zero n =
    let e : 0 + n ≡ n = omega arith in let e' : first + 0 ≡ first = omega arith in rw (e, e')
range-append first (suc m) n =
    let e : suc m + n ≡ suc (m + n) = omega arith in
    let e' : first + suc m ≡ first + 1 + m = omega arith in
    rw (e, e') (ap (◌∷◌ first) (range-append (first + 1) m n))

-- Adding a run appends its blocks, in order.
pub blocks-push_run :
    (first n : ℕ) (runs : List BlockRun)
    → All IsRun runs
    → first + n < 2 ^ 64
    → blocks (push_run first n runs) ≡ blocks runs ++ range first n
unfolding blocks push_run
blocks-push_run first n [] h fits = append-nil _
blocks-push_run first n (last ∷ []) h fits =
    elim (Bool-cases (u64 (last.first + last.n) == first)) [
      | inl e ↦
          let meets : first ≡ last.first + last.n = ground arith in
          let size : u64 (last.n + n) ≡ last.n + n = omega (arith, h) in
          rw (e, size, append-nil, append-nil, range-append last.first last.n n, meets)
      | inr e ↦ rw (e, append-nil, append-nil)
    ]
blocks-push_run first n (run ∷ next ∷ runs) (h, hs) fits =
    ap (λ l. range run.first run.n ++ l) (blocks-push_run first n (next ∷ runs) hs fits)
    ∙ sym (append_assoc (range run.first run.n) (blocks (next ∷ runs)) (range first n))

-- While no run reaches 2 ^ 64, addBlock and addRun append the block and the run to the blocks of
-- the list.
pub blocks-add :
    (runs : List BlockRun)
    → All IsRun runs
    → ((x : ℕ) → x + 1 < 2 ^ 64 → blocks (add_block runs x) ≡ blocks runs ++ (x ∷ []))
      × ((first n : ℕ)
          → first + n < 2 ^ 64
          → blocks (add_run runs first n) ≡ blocks runs ++ range first n)
unfolding add_block add_run
blocks-add runs h = (
  (λ x fits. blocks-push_run x 1 runs h fits ∙ ap (λ l. blocks runs ++ l) (one x)),
  λ first n fits. elim (Bool-cases (n == 0)) [
    | inl e ↦
        let none : n ≡ 0 = ground arith in
        rw (e, none) (sym (unfold range in append-nil (blocks runs)))
    | inr e ↦ rw e (blocks-push_run first n runs h fits)
  ],
)
  where
    one : (x : ℕ) → range x 1 ≡ x ∷ []
    one x = unfold range in refl

push_run-AreMaximal :
    (first n : ℕ) (runs : List BlockRun)
    → All IsRun runs
    → first + n < 2 ^ 64
    → 0 < n
    → AreMaximal runs
    → AreMaximal (push_run first n runs)
unfolding push_run
push_run-AreMaximal first n [] h fits pos m = pos
push_run-AreMaximal first n (last ∷ []) h fits pos m = ground arith
push_run-AreMaximal first n (run ∷ last ∷ []) h fits pos m = ground arith
push_run-AreMaximal first n (run ∷ next ∷ third ∷ runs) (h, hs) fits pos (m, apart, ms) =
    (m, apart, push_run-AreMaximal first n (next ∷ third ∷ runs) hs fits pos ms)

-- While no run reaches 2 ^ 64, addBlock and addRun keep the list without empty runs and without
-- runs that could be joined.
pub add-AreMaximal :
    (runs : List BlockRun)
    → All IsRun runs
    → AreMaximal runs
    → ((x : ℕ) → x + 1 < 2 ^ 64 → AreMaximal (add_block runs x))
      × ((first n : ℕ) → first + n < 2 ^ 64 → AreMaximal (add_run runs first n))
unfolding add_block add_run
add-AreMaximal runs h m = (
  (λ x fits. push_run-AreMaximal x 1 runs h fits (omega arith) m),
  λ first n fits. elim (Bool-cases (n == 0)) [
    | inl e ↦ rw e m
    | inr e ↦ rw e (push_run-AreMaximal first n runs h fits (ground arith) m)
  ],
)

length-range : (first n : ℕ) → length (range first n) ≡ n
unfolding range
length-range first zero = refl
length-range first (suc n) = ap suc (length-range (first + 1) n)

count_from-eq :
    (n : ℕ) (runs : List BlockRun)
    → n + length (blocks runs) < 2 ^ 64
    → count_from n runs ≡ n + length (blocks runs)
unfolding count_from blocks
count_from-eq n [] h = omega arith
count_from-eq n (run ∷ runs) h =
    let split : length (range run.first run.n ++ blocks runs) ≡ run.n + length (blocks runs) =
      length-append _ _ ∙ ap (λ k. k + length (blocks runs)) (length-range run.first run.n) in
    let size : u64 (n + run.n) ≡ n + run.n = omega (arith, split) in
    rw size (omega (arith, split, count_from-eq (n + run.n) runs (omega (arith, split))))

-- When the blocks are fewer than 2 ^ 64, count is how many they are.
pub count-eq-length :
    (runs : List BlockRun) → length (blocks runs) < 2 ^ 64 → count runs ≡ length (blocks runs)
unfolding count
count-eq-length runs h = omega (arith, count_from-eq 0 runs (omega arith))
