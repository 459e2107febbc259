-- ===== src/Files/Whole.antt =====
-- A file as the sequence of its bytes, and what `readFileData` returns of it.
use briefs_utils.Base.{ℕ, ◌+◌, ◌-◌, ◌≤◌, ◌<◌, ltb, leb, if◌then◌else◌, Bool, true, false}
use briefs_utils.Base.{Option, none, some, ◌≡◌, refl, arith, Bool-cases, inl, inr}
use briefs_utils.Base.Bytes.{All}
use briefs_utils.Files.{Device, max_file_size}
use briefs_utils.Files.Content.{file_byte, block_end, IsMapped}
use briefs_utils.Files.Read.{IsInRange, read_extents-file_byte}
use briefs_utils.Files.Inode.{FileInode, inline_data_max, read_file_data}

-- Byte `i` of the file.
unfoldable pub inode_byte : ℕ → FileInode → Device → ℕ → ℕ
inode_byte bs ino dev i = if ino.inline then ino.region i else file_byte bs ino.exts dev i

-- A small file has its bytes in the inode; another one has extents, and nothing past its last block.
pub record IsFile {S : Type 0} (bs start : ℕ) (in_use : S → ℕ → Bool) (ino : FileInode)
    (dev : Device) (free : S) : Type 0 where
  pub small : ino.inline ≡ true → ino.file_size ≤ inline_data_max
  pub fits : ino.file_size ≤ max_file_size
  pub mapped : ino.inline ≡ false → IsMapped start in_use ino.exts free
  pub past :
      ino.inline ≡ false
      → (i : ℕ) → block_end bs ino.file_size ≤ i
      → file_byte bs ino.exts dev i ≡ 0

-- The number of bytes that a read returns.
abbrev pub read_length : ℕ → ℕ → ℕ → ℕ
read_length size len off =
    if leb size off then 0 else if leb (off + len) size then len else size - off

abbrev pub Reads : ℕ → FileInode → Device → ℕ → ℕ → Option (ℕ × (ℕ → ℕ)) → Type 0
Reads bs ino dev len off none = 1 ≤ 0
Reads bs ino dev len off (some (n, buf)) =
    (n ≡ read_length ino.file_size len off)
    × ((j : ℕ) → j < n → buf j ≡ inode_byte bs ino dev (off + j))

module _ {S : Type 0} (start : ℕ) (in_use : S → ℕ → Bool) (bs : ℕ) (sized : 0 < bs) where
  -- On a well-formed file, where no extent starts at byte 2 ^ 63 or later or has as many bytes,
  -- readFileData does not panic, returns as many bytes as were asked for or as the file has from
  -- the offset on, if that is fewer, and each is the byte of the file, inline or on the device,
  -- with 0 for holes and unwritten blocks.
  pub read_file_data-Reads :
      (ino : FileInode) (dev : Device) (free : S) (len off : ℕ)
      → IsFile bs start in_use ino dev free
      → (ino.inline ≡ false → All (IsInRange bs) ino.exts)
      → Reads bs ino dev len off (read_file_data bs dev ino len off)
  unfolding read_file_data inode_byte
  read_file_data-Reads ino dev free len off f in_range = elim (Bool-cases (leb ino.file_size off)) [
    | inl past ↦ rw past (ground (arith, past), λ j h. absurd (omega (arith, h)))
    | inr inside ↦
        let capped = if ltb max_file_size (off + len) then max_file_size else off + len in
        let end_off = if ltb ino.file_size capped then ino.file_size else capped in
        let n : end_off - off ≡ read_length ino.file_size len off =
          ground (arith, inside, f.fits) in
        elim (Bool-cases ino.inline) [
          | inl small ↦
              let no_panic : ltb inline_data_max end_off ≡ false = ground (arith, f.small small) in
              rw (inside, small, no_panic) (n, λ j h. refl)
          | inr large ↦
              rw (inside, large)
                (
                  n,
                  λ j h.
                      read_extents-file_byte bs sized dev off end_off (ground (arith, f.fits))
                        ino.exts j (f.mapped large).sorted (in_range large) (ground (arith, h)),
                )
        ]
  ]
