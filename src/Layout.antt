-- ===== src/Layout.antt =====
-- Where things stand on the disk: node references and the journal's size (briefs/briefs.go), the
-- inode table and the format gate (briefs/superblock.go).
pub mod Refs
pub mod Inodes
use briefs_utils.Base.{ℕ, zero, suc, ◌+◌, ◌-◌, ◌*◌, ◌/◌, ◌%◌, ◌^◌, bit_and, bit_or, ◌==◌, ltb}
use briefs_utils.Base.{if◌then◌else◌, Bool, not, Option, none, some}
use briefs_utils.Base.Bits.{and_not}
use briefs_utils.Base.Words.{u64}

abbrev pub trie_slot_bits : ℕ
trie_slot_bits = 6

-- TrieSlotMask.
abbrev pub trie_slot_mask : ℕ
trie_slot_mask = 63

unfoldable pub trie_make_ref : ℕ → ℕ → ℕ
trie_make_ref block slot = bit_or (u64 (block * 2 ^ trie_slot_bits)) (bit_and slot trie_slot_mask)

unfoldable pub trie_ref_block : ℕ → ℕ
trie_ref_block ref = ref / 2 ^ trie_slot_bits

unfoldable pub trie_ref_slot : ℕ → ℕ
trie_ref_slot ref = bit_and ref trie_slot_mask

unfoldable pub trie_ref_is_null : ℕ → Bool
trie_ref_is_null ref = ref == 0

unfoldable pub default_journal_blocks : ℕ → ℕ
default_journal_blocks total =
    let n = total / 4096 in let n' = if ltb n 64 then 64 else n in if ltb 4096 n' then 4096 else n'

-- The fields of SuperblockLayout that the functions below read.
pub record Superblock : Type 0 where
  pub magic : ℕ
  pub minor_ver : ℕ
  pub feat_incompat : ℕ
  pub block_size : ℕ
  pub inode_size : ℕ
  pub inode_table_offset : ℕ

-- InodeLocation: `none` is the panic on a division by zero.
unfoldable pub inode_location : Superblock → ℕ → Option (ℕ × ℕ)
inode_location sb ino =
    let per_block = sb.block_size / sb.inode_size in
    let idx = u64 (ino + (2 ^ 64 - 1)) in
    let located : Option (ℕ × ℕ) =
      some (u64 (sb.inode_table_offset + idx / per_block), u64 (idx % per_block * sb.inode_size)) in
    if sb.inode_size == 0 then none else if per_block == 0 then none else located

abbrev pub magic_superblock : ℕ
magic_superblock = 0x504C434E

-- The tests of ReadSuperblock on the layout it has unmarshalled.
pub data Gate : Type 0 where
  accepted bad_magic incompatible_minor not_btree unknown_feature : Gate

unfoldable pub read_superblock_gate : Superblock → Gate
read_superblock_gate sb =
    if not (sb.magic == magic_superblock)
    then bad_magic
    else if not (sb.minor_ver == 9)
    then incompatible_minor
    else if bit_and sb.feat_incompat 1 == 0
    then not_btree
    else if not (and_not sb.feat_incompat 1 == 0)
    then unknown_feature
    else accepted
