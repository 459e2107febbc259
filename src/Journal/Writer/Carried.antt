-- ===== src/Journal/Writer/Carried.antt =====
-- What records the journal carries, in the block under construction and in the blocks that it has
-- written since the last checkpoint, and what a flush and a checkpoint of briefs/journal_write.go
-- do with them.
use briefs_utils.Base.{ℕ, ◌+◌, ◌*◌, ◌^◌, ◌<◌, ◌==◌}
use briefs_utils.Base.{true, false, none, List, [], ◌∷◌, ◌≡◌, refl, arith}
use briefs_utils.Base.Words.{u64, u32}
use briefs_utils.Journal.Block.{Buffer, journal_block_hdr_size}
use briefs_utils.Journal.Block.Records.{LogRecord, extent_of}
use briefs_utils.Journal.Block.Framed.{IsBlock, init_block-IsBlock}
use briefs_utils.Journal.Writer.{write_ring_block, flush_block}
use briefs_utils.Journal.State.{
  Journal, World, Event, wrote_at, block_image, run_all, modify, advance, start_block,
  init_cur_block, retire,
}
use briefs_utils.Journal.Writer.Frame.{proceed-Ensures, run_all-Ensures, step, done}
use briefs_utils.Journal.Writer.Calm.{IsCalm, IsRetirable, advance_keeps, is_quiet}
use briefs_utils.Journal.Writer.Placed.{ring_images, ring_write, ring_write-quiet, IsAt, pos-apart}
use briefs_utils.Journal.Writer.Moves.{write_ring_block_at}

-- The records of the written blocks, the last block first, and those still to be written.
pub record Contents : Type 0 where
  pub past : List (List LogRecord)
  pub pending : List LogRecord

-- Each buffer is a journal block with the records.
abbrev pub Decodes : List Buffer → List (List LogRecord) → Type 0
Decodes [] [] = Unit {0}
Decodes (buf ∷ bufs) (rs ∷ rss) = ((seq : ℕ) × IsBlock buf seq rs) × Decodes bufs rss
Decodes bufs rss = ⊥

pub record Carried (buf : Buffer) (seq offset : ℕ) (images : List Buffer) (c : Contents)
    : Type 0 where
  pub block : IsBlock buf seq c.pending
  pub narrow : seq < 2 ^ 32
  pub at_end : offset ≡ journal_block_hdr_size + extent_of c.pending
  pub decodes : Decodes images c.past

abbrev pub Carries : Contents → Journal → Type 0
Carries c j =
    Carried j.cur_block j.block_seq j.write_offset
      (ring_images (u64 (j.checkpoint_blk * j.block_size)) j.log) c

abbrev pub seal : Contents → Contents
seal c = record { past = c.pending ∷ c.past; pending = [] }

abbrev pub drop_past : Contents → Contents
drop_past c = record { past = []; pending = c.pending }

-- What may happen without a record being added: the pending block is written, or what was written
-- is retired.
pub data Silent (c : Contents) : Contents → Type 0 where
  here : Silent c c
  sealed : (d : Contents) → Silent c d → Silent c (seal d)
  retired : (d : Contents) → Silent c d → Silent c (drop_past d)

-- The journal carries what has silently become of `c`, and with `Drained` nothing is pending.
abbrev pub Keeping : Contents → Journal → Type 0
Keeping c j = (d : Contents) × Silent c d × Carries d j

abbrev pub Drained : Contents → Journal → Type 0
Drained c j = (d : Contents) × Silent c d × Carries d j × (d.pending ≡ [])

abbrev redecode :
    {buf : Buffer} {seq offset : ℕ} {images : List Buffer} {c : Contents} (images' : List Buffer)
    (rss : List (List LogRecord))
    → Carried buf seq offset images c
    → Decodes images' rss
    → Carried buf seq offset images' (record c { past = rss })
redecode images' rss k e = record {
  block = k.block;
  narrow = k.narrow;
  at_end = k.at_end;
  decodes = e;
}

Carries-quiet :
    (c : Contents) (j : Journal) (e : Event)
    → is_quiet e ≡ true
    → Carries c j
    → Carries c (record j { log = e ∷ j.log })
unfolding ring_images
Carries-quiet c j e q k =
    redecode _ c.past k (rw (ring_write-quiet (λ off buf. buf) _ e _ q) k.decodes)

pub Keeping-IsCalm : (c : Contents) → IsCalm (Keeping c)
Keeping-IsCalm c = record {
  quiet = λ j e q p. (p.0, p.1, Carries-quiet p.0 j e q p.2);
  counts = λ j d i p. p;
  ends = λ j n p. p;
  syncs = λ j n p. p;
}

pub Drained-IsCalm : (c : Contents) → IsCalm (Drained c)
Drained-IsCalm c = record {
  quiet = λ j e q p. (p.0, p.1, Carries-quiet p.0 j e q p.2, p.3);
  counts = λ j d i p. p;
  ends = λ j n p. p;
  syncs = λ j n p. p;
}

drop_images :
    (c : Contents) (j : Journal) (buf : Buffer)
    → Carries c j
    → Carries (drop_past c) (record j {
      log = wrote_at (u64 (j.checkpoint_blk * j.block_size)) (block_image buf) ∷ j.log;
    })
unfolding ring_images ring_write
drop_images c j buf k =
    let own : (u64 (j.checkpoint_blk * j.block_size) == u64 (j.checkpoint_blk * j.block_size))
        ≡ true =
      ground arith in
    redecode _ [] k (rw own tt)

pub Keeping-IsRetirable : (c : Contents) → IsRetirable (Keeping c)
unfolding retire
Keeping-IsRetirable c = record {
  calm = Keeping-IsCalm c;
  checkpoints = λ j buf p. (drop_past p.0, retired p.0 p.1, drop_images p.0 j buf p.2);
  retires = λ j p. p;
}

pub Drained-IsRetirable : (c : Contents) → IsRetirable (Drained c)
unfolding retire
Drained-IsRetirable c = record {
  calm = Drained-IsCalm c;
  checkpoints = λ j buf p. (drop_past p.0, retired p.0 p.1, drop_images p.0 j buf p.2, p.3);
  retires = λ j p. p;
}

-- The written blocks hold these records.
abbrev Written : List (List LogRecord) → Journal → Type 0
Written rss j = Decodes (ring_images (u64 (j.checkpoint_blk * j.block_size)) j.log) rss

Written-IsCalm : (rss : List (List LogRecord)) → IsCalm (Written rss)
unfolding ring_images
Written-IsCalm rss = record {
  quiet = λ j e q p. rw (ring_write-quiet (λ off buf. buf) _ e _ q) p;
  counts = λ j d i p. p;
  ends = λ j n p. p;
  syncs = λ j n p. p;
}

module _ (w : World) where
  write_pending_block :
      (c : Contents) (j : Journal)
      → (u64 (j.write_pos * j.block_size) == u64 (j.checkpoint_blk * j.block_size)) ≡ false
      → Carries c j
      → (write_ring_block w j.write_pos j.cur_block j).1 ≡ none
      → Written (c.pending ∷ c.past) (write_ring_block w j.write_pos j.cur_block j).0
  unfolding ring_images ring_write
  write_pending_block c j apart k =
      write_ring_block_at w (Written (c.pending ∷ c.past)) j.write_pos j.cur_block j
        (Written-IsCalm (c.pending ∷ c.past)) (rw apart ((j.block_seq, k.block), k.decodes))

  start_block-Carries :
      (rss : List (List LogRecord)) (j : Journal)
      → Written rss j
      → Carries (record { past = rss; pending = [] }) (start_block j)
  unfolding start_block init_cur_block
  start_block-Carries rss j d = record {
    block = init_block-IsBlock (u32 (j.block_seq + 1)) (omega arith);
    narrow = omega arith;
    at_end = omega arith;
    decodes = d;
  }

  -- A flush seals the pending records in the ring.
  pub flush_block-Drained :
      (c : Contents) (j : Journal)
      → (k : ℕ) × IsAt k k j
      → Keeping c j
      → (flush_block w j).1 ≡ none
      → Drained c (flush_block w j).0
  unfolding flush_block
  flush_block-Drained c j (k, r) (d, s, h) =
      proceed-Ensures (Written (d.pending ∷ d.past)) (Drained c)
        (write_ring_block w j.write_pos j.cur_block j)
        (run_all (modify advance ∷ modify start_block ∷ []))
        (write_pending_block d j (pos-apart k k j r) h)
        (run_all-Ensures (Written (d.pending ∷ d.past)) (Drained c)
          (modify advance ∷ modify start_block ∷ [])
          (step {Q = Written (d.pending ∷ d.past)}
            (λ i p e. advance_keeps (Written (d.pending ∷ d.past)) i (λ n m. p))
            (step {Q = Drained c}
              (λ i p e. (seal d, sealed d s, start_block-Carries (d.pending ∷ d.past) i p, refl))
              done)))
