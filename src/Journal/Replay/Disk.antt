-- ===== src/Journal/Replay/Disk.antt =====
-- The ring on the disk after the writes of briefs/journal_write.go: each block that was written
-- since the last checkpoint is read back.
use briefs_utils.Base.{ℕ, zero, suc, ◌*◌, ◌==◌}
use briefs_utils.Base.{
  if◌then◌else◌, true, false, List, [], ◌∷◌, ◌≡◌, ◌≢◌, refl, arith, Bool-cases, inl, inr,
}
use briefs_utils.Base.Words.{u64}
use briefs_utils.Base.Bytes.{All}
use briefs_utils.Journal.Block.{Buffer}
use briefs_utils.Journal.Block.Records.{LogRecord}
use briefs_utils.Journal.Block.Framed.{IsBlock}
use briefs_utils.Journal.State.{
  Event, wrote_at, synced_range, synced_file, drained_data, synced_meta, synced_allocators,
  flushed_wb, kicked_wb, block_image, superblock_image,
}
use briefs_utils.Journal.Writer.Places.{place, offsets, AllDistinct}
use briefs_utils.Journal.Writer.Placed.{ring_write, ring_writes, ring_images}
use briefs_utils.Journal.Writer.Carried.{Decodes}

-- A write of a block of the ring; the superblock, at byte 0, stands outside the ring, which mkfs
-- puts at the end of the volume.
unfoldable pub disk_write : Event → (ℕ → Buffer) → ℕ → Buffer
disk_write (wrote_at off (block_image buf)) disk o = if o == off then buf else disk o
disk_write e disk o = disk o

-- The disk behind the calls of a log, the latest call first.
unfoldable pub disk_after : (ℕ → Buffer) → List Event → ℕ → Buffer
unfolding disk_write
disk_after disk [] = disk
disk_after disk (e ∷ log) = disk_write e (disk_after disk log)

-- At each offset stands its image.
abbrev pub Holds : (ℕ → Buffer) → List ℕ → List Buffer → Type 0
Holds disk [] [] = Unit {0}
Holds disk (off ∷ offs) (buf ∷ bufs) = (disk off ≡ buf) × Holds disk offs bufs
Holds disk offs bufs = ⊥

disk_write-other :
    (disk : ℕ → Buffer) (off : ℕ) (buf : Buffer) (offs : List ℕ) (bufs : List Buffer)
    → All (λ o. o ≢ off) offs
    → Holds disk offs bufs
    → Holds (disk_write (wrote_at off (block_image buf)) disk) offs bufs
unfolding disk_write
disk_write-other disk off buf [] [] a h = tt
disk_write-other disk off buf [] (b ∷ bufs) a h = h
disk_write-other disk off buf (o ∷ offs) [] a h = h
disk_write-other disk off buf (o ∷ offs) (b ∷ bufs) (ne, a) (e, h) =
    let apart : (o == off) ≡ false = ground arith in
    (rw apart e, disk_write-other disk off buf offs bufs a h)

disk_write-Holds :
    (cp : ℕ) (e : Event) (disk : ℕ → Buffer) (offs : List ℕ) (bufs : List Buffer)
    → AllDistinct (ring_write (λ off buf. off) cp e offs)
    → (AllDistinct offs → Holds disk offs bufs)
    → Holds
        (disk_write e disk)
        (ring_write (λ off buf. off) cp e offs)
        (ring_write (λ off buf. buf) cp e bufs)
unfolding disk_write ring_write
disk_write-Holds cp (wrote_at off (block_image buf)) disk offs bufs a h =
    elim (Bool-cases (off == cp)) [
      | inl t ↦ rw t tt
      | inr t ↦
          let d : AllDistinct (off ∷ offs) = rw t at a in
          let own : (off == off) ≡ true = ground arith in
          rw t (rw own refl, disk_write-other disk off buf offs bufs d.0 (h d.1))
    ]
disk_write-Holds cp (wrote_at off (superblock_image sb)) disk offs bufs a h = h a
disk_write-Holds cp (synced_range off) disk offs bufs a h = h a
disk_write-Holds cp synced_file disk offs bufs a h = h a
disk_write-Holds cp drained_data disk offs bufs a h = h a
disk_write-Holds cp synced_meta disk offs bufs a h = h a
disk_write-Holds cp synced_allocators disk offs bufs a h = h a
disk_write-Holds cp flushed_wb disk offs bufs a h = h a
disk_write-Holds cp kicked_wb disk offs bufs a h = h a

-- Blocks of the ring that are written once since the last checkpoint are there.
pub disk_after-Holds :
    (cp : ℕ) (disk : ℕ → Buffer) (log : List Event)
    → AllDistinct (ring_writes cp log)
    → Holds (disk_after disk log) (ring_writes cp log) (ring_images cp log)
unfolding disk_after ring_writes ring_images
disk_after-Holds cp disk [] a = tt
disk_after-Holds cp disk (e ∷ log) a =
    disk_write-Holds cp e (disk_after disk log) (ring_writes cp log) (ring_images cp log) a
      (disk_after-Holds cp disk log)

-- The first `n` usable blocks from `s` on hold these records, the last block first.
abbrev pub Stored : (ℕ → Buffer) → ℕ → ℕ → ℕ → ℕ → ℕ → List (List LogRecord) → Type 0
Stored disk start cp size s zero [] = Unit {0}
Stored disk start cp size s (suc n) (rs ∷ rss) =
    ((seq : ℕ) × IsBlock (disk (u64 (place start cp s n * size))) seq rs)
    × Stored disk start cp size s n rss
Stored disk start cp size s n rss = ⊥

pub Holds-Stored :
    (disk : ℕ → Buffer) (start cp size s n : ℕ) (bufs : List Buffer) (rss : List (List LogRecord))
    → Holds disk (offsets start cp size s n) bufs
    → Decodes bufs rss
    → Stored disk start cp size s n rss
Holds-Stored disk start cp size s zero [] [] h d = tt
Holds-Stored disk start cp size s zero [] (rs ∷ rss) h d = d
Holds-Stored disk start cp size s zero (b ∷ bufs) rss h d = absurd h
Holds-Stored disk start cp size s (suc n) [] rss h d = absurd h
Holds-Stored disk start cp size s (suc n) (b ∷ bufs) [] h d = d
Holds-Stored disk start cp size s (suc n) (b ∷ bufs) (rs ∷ rss) (e, h) ((seq, k), d) =
    ((seq, rw e k), Holds-Stored disk start cp size s n bufs rss h d)
