-- ===== src/Extents/Clip.antt =====
-- The part of an extent between two blocks, which every edit of an extent list is made of.
use briefs_utils.Base.{ℕ, ◌+◌, ◌-◌, ◌≤◌, ◌<◌, ◌^◌, ltb, leb, min, max, if◌then◌else◌, ◌&&◌}
use briefs_utils.Base.{none, List, [], ◌∷◌, ◌++◌, ◌≡◌, arith, Bool-cases, inl, inr}
use briefs_utils.Base.Words.{u64}
use briefs_utils.Runs.{BlockRun}
use briefs_utils.Extents.{Extent, free_piece, collapse_piece, insert_piece, extent, block_run}
use briefs_utils.Extents.Mapping.{stored, block_at, IsExtent, AreSorted, in_runs}
use briefs_utils.Extents.Mapping.{AreSorted-weaken}

-- Blocks `a` up to `b` of `x`, as the blocks of the file from `c` on.
unfoldable pub clip : ℕ → ℕ → ℕ → Extent → List Extent
clip c a b x = if ltb a b then extent c (x.phys + (a - x.offset)) (b - a) x.flags ∷ [] else []

-- The disk blocks of that part.
unfoldable pub clip_run : ℕ → ℕ → Extent → List BlockRun
clip_run a b x = if ltb a b then block_run (x.phys + (a - x.offset)) (b - a) ∷ [] else []

module _ (x : Extent) (v : IsExtent x) where
  abbrev pub stop : ℕ
  stop = x.offset + x.len

  end_fits : u64 (x.offset + x.len) ≡ x.offset + x.len
  end_fits = omega (arith, v)

  -- A part moved down by `l` blocks, and one moved up.
  pub block_at-clip_down :
      (c a b l y : ℕ)
      → x.offset ≤ a
      → c + l ≡ a
      → block_at (clip c a b x) y
        ≡ (if leb a (y + l) && ltb (y + l) b then stored x (y + l) else none)
  unfolding clip block_at
  block_at-clip_down c a b l y p q = elim (Bool-cases (ltb a b)) [
    | inl e ↦ rw e (ground arith)
    | inr e ↦ rw e (ground arith)
  ]

  pub block_at-clip_up :
      (a b l y : ℕ)
      → x.offset ≤ a
      → block_at (clip (a + l) a b x) y
        ≡ (if leb (a + l) y && ltb y (b + l) then stored x (y - l) else none)
  unfolding clip block_at
  block_at-clip_up a b l y p = elim (Bool-cases (ltb a b)) [
    | inl e ↦ rw e (ground arith)
    | inr e ↦ rw e (ground arith)
  ]

  pub clip-AreSorted :
      (c a b lo hi : ℕ) (rest : List Extent)
      → x.offset ≤ a
      → b ≤ stop
      → lo ≤ hi
      → (a < b → (lo ≤ c) × (c + (b - a) ≤ hi) × (c + (b - a) < 2 ^ 64))
      → AreSorted hi rest
      → AreSorted lo (clip c a b x ++ rest)
  unfolding clip
  clip-AreSorted c a b lo hi rest p q t u s = elim (Bool-cases (ltb a b)) [
    | inl e ↦
        let (r, w, w') = u (ground arith) in
        rw e (
          r,
          (ground arith, omega arith, w', ground arith),
          AreSorted-weaken (c + (b - a)) hi rest w s,
        )
    | inr e ↦ rw e (AreSorted-weaken lo hi rest t s)
  ]

  pub in_runs-clip_run :
      (a b y : ℕ)
      → in_runs (clip_run a b x) y
        ≡ (leb (x.phys + (a - x.offset)) y && ltb y (x.phys + (a - x.offset) + (b - a)))
  unfolding clip_run in_runs
  in_runs-clip_run a b y = elim (Bool-cases (ltb a b)) [
    | inl e ↦ rw e (ground arith)
    | inr e ↦ rw e (ground arith)
  ]

  -- What `freeExtentRange` keeps of an extent, and what it frees.
  pub free_piece_lem :
      (s e : ℕ)
      → s ≤ e
      → free_piece s e x ≡ (
        clip x.offset x.offset (min s stop) x ++ clip (max e x.offset) (max e x.offset) stop x,
        clip_run (max s x.offset) (min e stop) x,
      )
  unfolding free_piece clip clip_run
  free_piece_lem s e h = rw end_fits (elim (Bool-cases (leb stop s)) [
    | inl c ↦ rw c (ground (arith, v))
    | inr c ↦ elim (Bool-cases (leb e x.offset)) [
      | inl d ↦ rw (c, d) (ground (arith, v))
      | inr d ↦
          rw (c, d)
            (elim (Bool-cases (ltb x.offset s)) [
              | inl f ↦ rw f (elim (Bool-cases (ltb e stop)) [
                | inl g ↦ rw g (ground (arith, v))
                | inr g ↦ rw g (ground (arith, v))
              ])
              | inr f ↦ rw f (elim (Bool-cases (ltb e stop)) [
                | inl g ↦ rw g (ground (arith, v))
                | inr g ↦ rw g (ground (arith, v))
              ])
            ])
    ]
  ])

  -- The same for the two directions of `shiftExtents`.
  pub collapse_piece_lem :
      (s l : ℕ)
      → s + l < 2 ^ 64
      → collapse_piece s l x ≡ (
        clip x.offset x.offset (min s stop) x
            ++ clip (max (s + l) x.offset - l) (max (s + l) x.offset) stop x,
        clip_run (max s x.offset) (min (s + l) stop) x,
      )
  unfolding collapse_piece clip clip_run
  collapse_piece_lem s l fits =
      let cut_fits : u64 (s + l) ≡ s + l = omega arith in
      rw (end_fits, cut_fits)
        (elim (Bool-cases (leb stop s)) [
          | inl c ↦ rw c (ground (arith, v))
          | inr c ↦ elim (Bool-cases (leb (s + l) x.offset)) [
            | inl d ↦ rw (c, d) (ground (arith, v))
            | inr d ↦
                rw (c, d)
                  (elim (Bool-cases (ltb x.offset s)) [
                    | inl f ↦ rw f (elim (Bool-cases (ltb (s + l) stop)) [
                      | inl g ↦ rw g (ground (arith, v))
                      | inr g ↦ rw g (ground (arith, v))
                    ])
                    | inr f ↦ rw f (elim (Bool-cases (ltb (s + l) stop)) [
                      | inl g ↦ rw g (ground (arith, v))
                      | inr g ↦ rw g (ground (arith, v))
                    ])
                  ])
          ]
        ])

  pub insert_piece_lem :
      (s l : ℕ)
      → stop + l < 2 ^ 64
      → s + l < 2 ^ 64
      → insert_piece s l x
        ≡ clip x.offset x.offset (min s stop) x ++ clip (max s x.offset + l) (max s x.offset) stop x
  unfolding insert_piece clip
  insert_piece_lem s l fits fits' = rw end_fits (elim (Bool-cases (leb stop s)) [
    | inl c ↦ rw c (ground (arith, v))
    | inr c ↦ elim (Bool-cases (leb s x.offset)) [
      | inl d ↦ rw (c, d) (ground (arith, v))
      | inr d ↦ rw (c, d) (ground (arith, v))
    ]
  ])
