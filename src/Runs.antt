-- ===== src/Runs.antt =====
-- The run-encoded block lists of fuse/runlist.go: `runAccum` is its list of runs, in order.
pub mod Laws
use briefs_utils.Base.{ℕ, zero, suc, ◌+◌, ◌==◌, if◌then◌else◌, List, [], ◌∷◌}
use briefs_utils.Base.Words.{u64}

pub record BlockRun : Type 0 where
  pub first : ℕ
  pub n : ℕ

-- `last := &r.runs[k-1]`, extended by `n` if it ends at `first`; else a new run at the end.
unfoldable pub push_run : ℕ → ℕ → List BlockRun → List BlockRun
push_run first n [] = record { first = first; n = n } ∷ []
push_run first n (last ∷ []) =
    if u64 (last.first + last.n) == first
    then record last { n = u64 (last.n + n) } ∷ []
    else last ∷ record { first = first; n = n } ∷ []
push_run first n (run ∷ next ∷ runs) = run ∷ push_run first n (next ∷ runs)

unfoldable pub add_block : List BlockRun → ℕ → List BlockRun
add_block runs x = push_run x 1 runs

unfoldable pub add_run : List BlockRun → ℕ → ℕ → List BlockRun
add_run runs first n = let added = push_run first n runs in if n == 0 then runs else added

unfoldable pub count_from : ℕ → List BlockRun → ℕ
count_from n [] = n
count_from n (run ∷ runs) = count_from (u64 (n + run.n)) runs

unfoldable pub count : List BlockRun → ℕ
count runs = count_from 0 runs
