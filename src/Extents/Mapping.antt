-- ===== src/Extents/Mapping.antt =====
-- What an extent list says of a file: at most one stored block, with its flags, for each block of the
-- file.
use briefs_utils.Base.{ℕ, ◌+◌, ◌-◌, ◌≤◌, ◌<◌, ◌^◌, ltb, leb, if◌then◌else◌, Bool, false, ◌&&◌, ◌||◌}
use briefs_utils.Base.{Option, none, some, List, [], ◌∷◌, ◌++◌, ◌⊎◌, ◌≡◌, refl, arith}
use briefs_utils.Runs.{BlockRun}
use briefs_utils.Extents.{Extent}

abbrev pub Block : Type 0
Block = Option (ℕ × ℕ)

abbrev pub within : Extent → ℕ → Bool
within e b = leb e.offset b && ltb b (e.offset + e.len)

abbrev pub stored : Extent → ℕ → Block
stored e b = some (e.phys + (b - e.offset), e.flags)

unfoldable pub block_at : List Extent → ℕ → Block
block_at [] b = none
block_at (e ∷ exts) b = if within e b then stored e b else block_at exts b

-- A mapped extent whose ends do not wrap.
abbrev pub IsExtent : Extent → Type 0
IsExtent e = (0 < e.len) × (0 < e.phys) × (e.offset + e.len < 2 ^ 64) × (e.phys + e.len < 2 ^ 64)

-- In ascending order from `lo` on, without overlap.
abbrev pub AreSorted : ℕ → List Extent → Type 0
AreSorted lo [] = Unit {0}
AreSorted lo (e ∷ exts) = (lo ≤ e.offset) × IsExtent e × AreSorted (e.offset + e.len) exts

-- `ext` is one of the extents.
abbrev pub Has : Extent → List Extent → Type 0
Has ext [] = 1 ≤ 0
Has ext (e ∷ exts) = (e ≡ ext) ⊎ Has ext exts

-- Block `x` is in one of the runs.
unfoldable pub in_runs : List BlockRun → ℕ → Bool
in_runs [] x = false
in_runs (run ∷ runs) x = (leb run.first x && ltb x (run.first + run.n)) || in_runs runs x

abbrev pub or_else : Block → Block → Block
or_else none m = m
or_else (some x) m = some x

pub block_at-append :
    (l m : List Extent) (b : ℕ) → block_at (l ++ m) b ≡ or_else (block_at l b) (block_at m b)
unfolding block_at
block_at-append [] m b = refl
block_at-append (e ∷ l) m b = ground (arith, block_at-append l m b)

-- No block below the first extent is mapped.
pub block_at-below :
    (lo : ℕ) (l : List Extent) (b : ℕ) → AreSorted lo l → b < lo → block_at l b ≡ none
unfolding block_at
block_at-below lo [] b s h = refl
block_at-below lo (e ∷ l) b (p, v, s) h = ground (arith, block_at-below (e.offset + e.len) l b s)

pub AreSorted-weaken : (lo hi : ℕ) (l : List Extent) → lo ≤ hi → AreSorted hi l → AreSorted lo l
AreSorted-weaken lo hi [] h s = tt
AreSorted-weaken lo hi (e ∷ l) h (p, v, s) = (omega arith, v, s)

pub in_runs-append :
    (l m : List BlockRun) (x : ℕ) → in_runs (l ++ m) x ≡ (in_runs l x || in_runs m x)
unfolding in_runs
in_runs-append [] m x = refl
in_runs-append (run ∷ l) m x = ground (arith, in_runs-append l m x)
