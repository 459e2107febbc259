-- ===== src/Alloc/Run/Refine.antt =====
-- `AllocMarkFreeRun` frees exactly the blocks of the run, as freeing them one by one does.
use briefs_utils.Base.{ℕ, zero, suc, ◌+◌, ◌-◌, ◌/◌, ◌≤◌, ◌<◌, ◌==◌, if◌then◌else◌, leb, ltb}
use briefs_utils.Base.{◌≡◌, refl, arith, some, Option, ◌&&◌, ◌||◌, Bool-cases, inl, inr, ◌∙◌}
use briefs_utils.Alloc.{Alloc}
use briefs_utils.Alloc.Bitmap.{bit_at}
use briefs_utils.Alloc.Pyramid.{IsPyramid}
use briefs_utils.Alloc.Run.{free_words, alloc_mark_free_run}
use briefs_utils.Alloc.Run.Step.{in_run, free_word-WordFreed}

-- The loop from word `w` on.
record WordsFreed (first n w : ℕ) (a : Alloc) (so_far : ℕ) (result : Option (Alloc × ℕ))
    : Type 0 where
  after : Alloc
  gained : ℕ
  returns : result ≡ some (after, so_far + gained)
  sound : IsPyramid after
  same_size : after.block_count ≡ a.block_count
  count : after.free_count ≡ a.free_count + gained
  bits :
      (j : ℕ)
      → bit_at after.l2 j ≡ (if leb w (j / 64) && in_run first n j then 1 else bit_at a.l2 j)

free_words-WordsFreed :
    (first n left w : ℕ) (a : Alloc) (so_far : ℕ)
    → IsPyramid a
    → 0 < n
    → first + n ≤ a.block_count
    → first / 64 ≤ w
    → w + left ≡ (first + n - 1) / 64 + 1
    → so_far ≤ a.free_count
    → WordsFreed first n w a so_far (free_words first n left w (a, so_far))
unfolding free_words
free_words-WordsFreed first n zero w a so_far v pos tracked lo e small = record {
  after = a;
  gained = 0;
  returns = ground arith;
  sound = v;
  same_size = refl;
  count = omega arith;
  bits = λ j. ground arith;
}
free_words-WordsFreed first n (suc left) w a so_far v pos tracked lo e small =
    let s = free_word-WordFreed first n w a v pos tracked lo (omega arith) so_far small in
    let r =
      free_words-WordsFreed first n left (w + 1) s.after (so_far + s.gained) s.sound pos
        (omega (arith, s.same_size)) (omega arith) (omega arith) (omega (arith, s.count)) in
    record {
      after = r.after;
      gained = s.gained + r.gained;
      returns = ground (arith, s.returns, r.returns);
      sound = r.sound;
      same_size = r.same_size ∙ s.same_size;
      count = omega (arith, s.count, r.count);
      bits = λ j. ground (arith, s.bits j, r.bits j);
    }

-- What freeing a run does to the set of free blocks: no panic, the tracked blocks of the run are
-- free afterwards, no other block changes, the levels stay true, and the answer is by how much the
-- counter grew.
pub record RunFreed (first n : ℕ) (a : Alloc) (result : Option (Alloc × ℕ)) : Type 0 where
  pub after : Alloc
  pub gained : ℕ
  pub returns : result ≡ some (after, gained)
  pub sound : IsPyramid after
  pub same_size : after.block_count ≡ a.block_count
  pub count : after.free_count ≡ a.free_count + gained
  pub bits :
      (j : ℕ)
      → bit_at after.l2 j ≡ (if in_run first n j && ltb j a.block_count then 1 else bit_at a.l2 j)

-- On a well-formed pyramid AllocMarkFreeRun frees exactly the tracked blocks of the run, keeps the
-- pyramid well formed, and returns how many blocks were newly freed.
pub mark_free_run-RunFreed :
    (a : Alloc) (first n : ℕ) → IsPyramid a → RunFreed first n a (alloc_mark_free_run a first n)
mark_free_run-RunFreed a first n v = elim (Bool-cases ((n == 0) || leb a.block_count first)) [
  | inl skipped ↦ record {
    after = a;
    gained = 0;
    returns = unfold alloc_mark_free_run in rw skipped;
    sound = v;
    same_size = refl;
    count = omega arith;
    bits = λ j. ground arith;
  }
  | inr entered ↦
      let m = if ltb (a.block_count - first) n then a.block_count - first else n in
      let r =
        free_words-WordsFreed first m ((first + m - 1) / 64 + 1 - first / 64) (first / 64) a 0 v
          (ground arith) (ground arith) (omega arith) (ground arith) (omega arith) in
      record {
        after = r.after;
        gained = r.gained;
        returns = unfold alloc_mark_free_run in ground (arith, entered, r.returns);
        sound = r.sound;
        same_size = r.same_size;
        count = r.count;
        bits = λ j. ground (arith, r.bits j);
      }
]
