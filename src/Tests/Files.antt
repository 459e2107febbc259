-- ===== src/Tests/Files.antt =====
-- A device with 512-byte blocks, an allocator that hands out its blocks in turn, and a file with a
-- written and an unwritten extent.
use briefs_utils.Base.{ℕ, ◌+◌, arith, List, [], ◌∷◌, ltb, if◌then◌else◌, Bool, false}
use briefs_utils.Extents.{extent}
use briefs_utils.Extents.Mapping.{block_at}
use briefs_utils.Files.{Device}
use briefs_utils.Files.Content.{IsMapped, file_byte, block_byte}
use briefs_utils.Files.Inode.{FileInode, Mount, read_file_data}
use briefs_utils.Files.Whole.{IsFile, Reads, read_file_data-Reads}
use briefs_utils.Files.Range.{collapse_range, insert_range}
use briefs_utils.Files.Collapsed.{Collapsed, collapse_range-Collapsed}
use briefs_utils.Files.Opened.{Opened, insert_range-Opened}

abbrev next_block : ℕ → ℕ × ℕ
next_block n = if ltb n 1000 then (n + 1, n) else (n, 0)

abbrev below : ℕ → ℕ → Bool
below n x = ltb x n

abbrev device : Device
device b k = if ltb k 512 then b + k else 0

abbrev two_kinds : FileInode
two_kinds = record {
  file_size = 700;
  user_flags = 0;
  inline = false;
  region = λ _. 0;
  exts = extent 0 60 1 0 ∷ extent 1 70 3 1 ∷ [];
}

abbrev mount : Mount ℕ
mount = record { dev = device; free = 30; shutdown = false; read_only = false }

two_kinds-IsMapped : IsMapped 50 below two_kinds.exts 30
unfolding block_at
two_kinds-IsMapped = record {
  sorted = omega arith;
  flags = λ b p f h. ground arith;
  owned = λ b p f h. ground arith;
  apart = λ b c p f g h i. ground arith;
}

two_kinds-IsFile : IsFile 512 50 below two_kinds device 30
unfolding block_at file_byte block_byte
two_kinds-IsFile = record {
  small = λ h. cc;
  fits = omega arith;
  mapped = λ _. two_kinds-IsMapped;
  past = λ _ i h. ground arith;
}

abbrev request : List ℕ
request = 7 ∷ 8 ∷ 9 ∷ []

read_file_data-Reads_example :
    Reads 512 two_kinds device 400 300 (read_file_data 512 device two_kinds 400 300)
read_file_data-Reads_example =
    read_file_data-Reads 50 below 512 (omega arith) two_kinds device 30 400 300 two_kinds-IsFile
      (λ _. ((omega arith, omega arith), ((omega arith, omega arith), tt)))

collapse_range-Collapsed_example :
    Collapsed 50 below 512
      (omega arith)
      two_kinds
      device
      30
      two_kinds-IsFile
      0
      512
      (collapse_range 512 two_kinds 0 512)
collapse_range-Collapsed_example =
    collapse_range-Collapsed 50 below 512 (omega arith) two_kinds device 30 two_kinds-IsFile 0 512
      (omega arith)

insert_range-Opened_example :
    Opened 50 below 512
      (omega arith)
      two_kinds
      device
      30
      two_kinds-IsFile
      512
      1024
      100000
      (omega arith)
      (omega arith)
      (omega arith)
      (insert_range 512 100000 two_kinds 512 1024)
insert_range-Opened_example =
    insert_range-Opened 50 below 512 (omega arith) two_kinds device 30 two_kinds-IsFile 512 1024
      100000 (omega arith) (omega arith) (omega arith)
