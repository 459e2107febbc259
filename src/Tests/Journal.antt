-- ===== src/Tests/Journal.antt =====
-- A record of three bytes, and a ring of four blocks that is walked across its end.
use briefs_utils.Base.{ℕ, ◌≤◌, ◌≡◌, refl, arith, List, [], ◌∷◌, some, true, if◌then◌else◌, ◌==◌}
use briefs_utils.Journal.Crc.{
  crc32c, compute_journal_record_checksum, verify_journal_record_checksum,
}
use briefs_utils.Journal.Crc.Laws.{record_bytes, journal_record_checksum_lem}
use briefs_utils.Journal.Ring.{walk_journal_ring, walked, is_journal_block, header_magic}
use briefs_utils.Journal.Ring.Walk.{visits, span, walk_journal_ring-visits}

abbrev some_bytes : List ℕ
some_bytes = 1 ∷ 255 ∷ 7 ∷ []

journal_record_checksum_lem_example :
    (compute_journal_record_checksum 3 0 some_bytes ≡ crc32c 0 (record_bytes 3 0 some_bytes))
    × ((stored : ℕ)
        → verify_journal_record_checksum 3 0 some_bytes stored
          ≡ (if stored == 0 then true else crc32c 0 (record_bytes 3 0 some_bytes) == stored))
journal_record_checksum_lem_example = journal_record_checksum_lem 3 0 some_bytes

-- An empty journal block.
abbrev journal_block : List ℕ
journal_block = 0x5A ∷ 0x4C ∷ 0x4E ∷ 0x4A ∷ 0 ∷ 0 ∷ 0 ∷ 0 ∷ 0 ∷ 0 ∷ 0 ∷ 0 ∷ 0 ∷ 0 ∷ 0 ∷ 0 ∷ []

abbrev note : ℕ → List ℕ → List ℕ
note b seen = b ∷ seen

is_journal_block-journal_block : is_journal_block journal_block ≡ true
unfolding is_journal_block header_magic
is_journal_block-journal_block = refl

walk_journal_ring-visits_example :
    (walk_journal_ring {S = List ℕ}
        (λ b. some journal_block)
        100
        4
        102
        101
        (λ b buf seen. some (note b seen))
        []
      ≡ walked (
          visits {S = List ℕ}
            (λ b. some journal_block)
            100
            4
            102
            101
            (λ b buf seen. some (note b seen))
            (λ b. journal_block)
            note
            0
            (span 4 102 101)
            []))
    × (span 4 102 101 ≤ 4)
walk_journal_ring-visits_example =
    walk_journal_ring-visits {S = List ℕ} (λ b. some journal_block) 100 4 102 101
      (λ b buf seen. some (note b seen)) (λ b. journal_block) note (omega arith) (ground arith)
      (ground arith) (λ b r. refl) (λ b r. is_journal_block-journal_block) (λ b s r. refl) []
