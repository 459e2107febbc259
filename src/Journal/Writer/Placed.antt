-- ===== src/Journal/Writer/Placed.antt =====
-- Where the writer of briefs/journal_write.go stands in the ring, and which blocks of the ring it
-- has written since the last checkpoint.
use briefs_utils.Base.{ℕ, ◌+◌, ◌-◌, ◌*◌, ◌^◌, ◌≤◌, ◌<◌, ◌==◌}
use briefs_utils.Base.{if◌then◌else◌, true, false, List, [], ◌∷◌, ◌≡◌, refl, ◌∙◌, arith}
use briefs_utils.Base.Words.{u64}
use briefs_utils.Journal.Block.{Buffer}
use briefs_utils.Journal.State.{
  Journal, Event, wrote_at, synced_range, synced_file, drained_data, synced_meta, synced_allocators,
  flushed_wb, kicked_wb, block_image, superblock_image,
}
use briefs_utils.Journal.Writer.Calm.{IsCalm, is_quiet}
use briefs_utils.Journal.Writer.Places.{place, place-range, offset-ne, offsets}

-- What `f` keeps of a write of a ring's block, where `cp` is the checkpoint block's byte.
unfoldable pub ring_write : {A : Type 0} → (ℕ → Buffer → A) → ℕ → Event → List A → List A
ring_write f cp (wrote_at off (block_image buf)) rest = if off == cp then [] else f off buf ∷ rest
ring_write f cp e rest = rest

-- Where blocks of the ring were written since the last write of the block at `cp`, the last first.
unfoldable pub ring_writes : ℕ → List Event → List ℕ
unfolding ring_write
ring_writes cp [] = []
ring_writes cp (e ∷ log) = ring_write (λ off buf. off) cp e (ring_writes cp log)

-- The blocks that were written there.
unfoldable pub ring_images : ℕ → List Event → List Buffer
unfolding ring_write
ring_images cp [] = []
ring_images cp (e ∷ log) = ring_write (λ off buf. buf) cp e (ring_images cp log)

-- The writer stands `k` blocks after the start of the log, and `n` blocks from there on have been
-- written since the last checkpoint.
pub record RingState (start end cp size s pos blocks : ℕ) (written : List ℕ) (k n : ℕ)
    : Type 0 where
  pub last : cp + 1 ≡ end
  pub usable : start + 3 ≤ cp
  pub small : end ≤ start + 65536
  pub sized : 0 < size
  pub fits : end * size < 2 ^ 64
  pub narrow : end < 2 ^ 64
  pub from_start : start ≤ s
  pub before_end : s < cp
  pub within : k ≤ cp - start
  pub here : pos ≡ place start cp s k
  pub counted : k ≤ blocks
  pub bounded : blocks ≤ 2 * k
  pub in_order : written ≡ offsets start cp size s n

abbrev pub IsAt : ℕ → ℕ → Journal → Type 0
IsAt k n j =
    RingState j.journal_start j.journal_end j.checkpoint_blk j.block_size j.sb.journal_log_start
      j.write_pos j.blocks_since_checkpoint
      (ring_writes (u64 (j.checkpoint_blk * j.block_size)) j.log) k n

pub ring_write-quiet :
    {A : Type 0} (f : ℕ → Buffer → A) (cp : ℕ) (e : Event) (rest : List A)
    → is_quiet e ≡ true
    → ring_write f cp e rest ≡ rest
unfolding ring_write is_quiet
ring_write-quiet f cp (wrote_at off (block_image buf)) rest q = cc
ring_write-quiet f cp (wrote_at off (superblock_image sb)) rest q = refl
ring_write-quiet f cp (synced_range off) rest q = refl
ring_write-quiet f cp synced_file rest q = refl
ring_write-quiet f cp drained_data rest q = refl
ring_write-quiet f cp synced_meta rest q = refl
ring_write-quiet f cp synced_allocators rest q = refl
ring_write-quiet f cp flushed_wb rest q = refl
ring_write-quiet f cp kicked_wb rest q = refl

abbrev pub relog :
    {start end cp size s pos blocks : ℕ} {written written' : List ℕ} {k n n' : ℕ}
    → RingState start end cp size s pos blocks written k n
    → written' ≡ offsets start cp size s n'
    → RingState start end cp size s pos blocks written' k n'
relog r e = record {
  last = r.last;
  usable = r.usable;
  small = r.small;
  sized = r.sized;
  fits = r.fits;
  narrow = r.narrow;
  from_start = r.from_start;
  before_end = r.before_end;
  within = r.within;
  here = r.here;
  counted = r.counted;
  bounded = r.bounded;
  in_order = e;
}

pub IsAt-IsCalm : (k n : ℕ) → IsCalm (IsAt k n)
unfolding ring_writes
IsAt-IsCalm k n = record {
  quiet = λ j e q p. relog p (ring_write-quiet (λ off buf. off) _ e _ q ∙ p.in_order);
  counts = λ j d i p. p;
  ends = λ j m p. p;
  syncs = λ j m p. p;
}

pub IsAt-range :
    (k n : ℕ) (j : Journal)
    → IsAt k n j
    → (j.journal_start ≤ j.write_pos) × (j.write_pos < j.checkpoint_blk)
IsAt-range k n j r = rw r.here (
    place-range j.journal_start j.checkpoint_blk j.sb.journal_log_start (omega (arith, r.usable))
      (omega (arith, r.last, r.narrow)) r.from_start r.before_end k r.within)

-- The writer does not stand on the checkpoint block.
pub pos-apart :
    (k n : ℕ) (j : Journal)
    → IsAt k n j
    → (u64 (j.write_pos * j.block_size) == u64 (j.checkpoint_blk * j.block_size)) ≡ false
pos-apart k n j r =
    let range = IsAt-range k n j r in
    ground (
      arith,
      range,
      r.last,
      offset-ne j.block_size j.journal_end j.write_pos j.checkpoint_blk r.sized
          (omega (arith, r.fits)) (omega (arith, range, r.last)) (omega (arith, r.last))
          (λ e. omega (arith, range, e)),
    )

-- The same with a usable block that is not written yet.
abbrev pub WithRoom : ℕ → ℕ → Journal → Type 0
WithRoom k n j = IsAt k n j × (k < j.checkpoint_blk - j.journal_start)

pub WithRoom-IsCalm : (k n : ℕ) → IsCalm (WithRoom k n)
WithRoom-IsCalm k n = record {
  quiet = λ j e q p. ((IsAt-IsCalm k n).quiet j e q p.0, p.1);
  counts = λ j d i p. p;
  ends = λ j m p. p;
  syncs = λ j m p. p;
}
