-- ===== src/Journal/Ring.antt =====
-- The journal's blocks as a ring: NextRingBlock and WalkJournalRing of briefs/journal_replay.go.
-- `readBlock` and `visit` are parameters, as in the source; `none` is their error.
pub mod Walk
use briefs_utils.Base.{ℕ, zero, suc, ◌+◌, ◌-◌, ◌<◌, ◌==◌, ltb, leb}
use briefs_utils.Base.{if◌then◌else◌, Bool, true, false, ◌||◌, Option, none, some, List, [], ◌∷◌}
use briefs_utils.Base.{length}
use briefs_utils.Base.Words.{u64}
use briefs_utils.Base.Bytes.{le32, byte_at}

unfoldable pub next_ring_block : ℕ → ℕ → ℕ → ℕ
next_ring_block cur start blocks =
    let next = u64 (cur + 1) in if leb (u64 (start + blocks)) next then start else next

abbrev pub magic_journal : ℕ
magic_journal = 0x4A4E4C5A

abbrev pub magic_checkpoint : ℕ
magic_checkpoint = 0x43485053

-- The magic that ParseJournalBlockHeader reads; a buffer too short for a header leaves it 0.
unfoldable pub header_magic : List ℕ → ℕ
header_magic buf =
    if ltb (length buf) 16
    then 0
    else le32 (byte_at buf 0) (byte_at buf 1) (byte_at buf 2) (byte_at buf 3)

unfoldable pub is_journal_block : List ℕ → Bool
is_journal_block buf = header_magic buf == magic_journal || header_magic buf == magic_checkpoint

-- How a walk ends, with the visitor's state and the block it failed on.
pub data Walked {ℓ} (S : Type ℓ) : Type ℓ where
  walked : S → Walked S
  read_failed bad_magic visit_failed : ℕ → S → Walked S

module _ {ℓ} {S : Type ℓ} (read_block : ℕ → Option (List ℕ))
    (journal_offset journal_blocks start end : ℕ) (visit : ℕ → List ℕ → S → Option S) where
  -- The loop with `iters` rounds left.
  unfoldable pub walk_from : ℕ → ℕ → S → Walked S
  walk_from zero cur s = walked s
  walk_from (suc iters) cur s = elim (read_block cur) [
    | none ↦ read_failed cur s
    | some buf ↦ elim (is_journal_block buf) [
      | false ↦ bad_magic cur s
      | true ↦ elim (visit cur buf s) [
        | none ↦ visit_failed cur s
        | some s' ↦
            let next = next_ring_block cur journal_offset journal_blocks in
            let rest = walk_from iters next s' in
            if start == end then walked s' else if next == end then walked s' else rest
      ]
    ]
  ]

  unfoldable pub walk_journal_ring : S → Walked S
  walk_journal_ring s = walk_from journal_blocks start s
