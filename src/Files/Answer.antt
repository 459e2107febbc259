-- ===== src/Files/Answer.antt =====
-- What `writeFileData` makes of the bytes of a file, whichever way they are kept, and when it refuses.
use briefs_utils.Base.{
  ℕ, ◌+◌, ◌-◌, ◌≤◌, ◌<◌, ◌==◌, ltb, leb, if◌then◌else◌, Bool, true, false, ◌&&◌, ◌||◌, get_or,
  length,
}
use briefs_utils.Base.{List, ◌≡◌, ◌≢◌, refl, arith, Bool-cases, inl, inr, ◌⊎◌, sym}
use briefs_utils.Files.{
  Writing, Written, and_then, zero_block, max_file_size, written_size, write_extent_data,
}
use briefs_utils.Files.Content.{file_byte, block_end, IsAllocator, IsMapped}
use briefs_utils.Files.Round.{Ends, Ends-and_then, Ends-weaken}
use briefs_utils.Files.Tail.{WroteFile, write_extent_data-Ends}
use briefs_utils.Files.Promote.{Promoted, promote_inline_data-Ends}
use briefs_utils.Files.Inode.{
  FileInode, Mount, Result, Errno, inline_data_max, write_inline_data, promote_inline_data,
  extent_result, write_bytes, is_immutable, is_append_only,
}
use briefs_utils.Files.Whole.{inode_byte, IsFile}

module _ {S : Type 0} (start : ℕ) (in_use : S → ℕ → Bool) (alloc_block : S → S × ℕ)
    (allocator : IsAllocator start in_use alloc_block) (free_run : S → ℕ → ℕ → S) (bs : ℕ)
    (roomy : inline_data_max ≤ bs) (ino : FileInode) (m : Mount S)
    (f : IsFile bs start in_use ino m.dev m.free) (bytes : List ℕ) (off : ℕ) where
  abbrev pub new_size : ℕ
  new_size = written_size bytes off ino.file_size

  -- Byte `i` of the file after the write.
  abbrev pub expected : ℕ → ℕ
  expected i =
      if leb off i && ltb i (off + length bytes)
      then get_or bytes (i - off) 0
      else if ltb i ino.file_size
      then inode_byte bs ino m.dev i
      else 0

  pub record IsWritten (ino' : FileInode) (m' : Mount S) : Type 0 where
    pub is_file : IsFile bs start in_use ino' m'.dev m'.free
    pub size : ino'.file_size ≡ new_size
    pub content : (i : ℕ) → i < new_size → inode_byte bs ino' m'.dev i ≡ expected i

  -- The same of the extent-backed write.
  record Extended (w : Writing S) : Type 0 where
    mapped : IsMapped start in_use w.exts w.free
    content : (i : ℕ) → i < new_size → file_byte bs w.exts w.dev i ≡ expected i
    past : (i : ℕ) → block_end bs new_size ≤ i → file_byte bs w.exts w.dev i ≡ 0

  abbrev pub Writes : Result S → Type 0
  Writes (Result.wrote ino' m') = IsWritten ino' m'
  Writes (Result.refused Errno.enospc m') = (s : S) × (s' : S) × (alloc_block s ≡ (s', 0))
  Writes (Result.refused e m') = 1 ≤ 0

  module _ (fits : off + length bytes ≤ max_file_size) where
    extent_result-Writes :
        (ino' : FileInode) (r : Written S)
        → ino'.inline ≡ false
        → ino'.file_size ≡ ino.file_size
        → Ends alloc_block Extended r
        → Writes (extent_result free_run ino' m bytes off r)
    unfolding inode_byte
    extent_result-Writes ino' (Written.done w) large same e = record {
      is_file = record {
        small = λ s. cc (s, large);
        fits = ground (arith, fits, f.fits, same);
        mapped = λ _. e.mapped;
        past = λ _ i h. e.past i (rw (sym same) h);
      };
      size = rw same refl;
      content = λ i h. rw large (e.content i h);
    }
    extent_result-Writes ino' (Written.no_space w) large same (s, e) = (s, w.free, e)

    extend_lem :
        (w : Writing S)
        → IsMapped start in_use w.exts w.free
        → ((i : ℕ) → i < ino.file_size → file_byte bs w.exts w.dev i ≡ inode_byte bs ino m.dev i)
        → ((i : ℕ) → block_end bs ino.file_size ≤ i → file_byte bs w.exts w.dev i ≡ 0)
        → Ends alloc_block Extended
            (write_extent_data alloc_block bs start bytes off ino.file_size w)
    extend_lem w mapped content past =
        Ends-weaken alloc_block
          (WroteFile start in_use alloc_block allocator bs (omega arith) bytes off ino.file_size
            fits w)
          Extended _
          (write_extent_data-Ends start in_use alloc_block allocator bs (omega arith) bytes off
            ino.file_size fits w mapped past)
          (λ w' r. record {
            mapped = r.mapped;
            content = λ i h. ground (arith, r.content i, content i, h);
            past = r.past;
          })

    abbrev takes_inline : Bool
    takes_inline = ino.inline || ((ino.file_size == 0) && (length ino.exts == 0))

    inline_small : takes_inline ≡ true → ino.file_size ≤ inline_data_max
    inline_small e = ground (arith, f.small, e)

    inline-IsWritten :
        takes_inline ≡ true
        → off + length bytes ≤ inline_data_max
        → IsWritten (write_inline_data ino bytes off) m
    unfolding write_inline_data inode_byte
    inline-IsWritten e h = record {
      is_file = record {
        small = λ _. ground (arith, inline_small e, h);
        fits = ground (arith, inline_small e, h);
        mapped = λ s. cc (s);
        past = λ s. cc (s);
      };
      size = refl;
      content = λ i k. elim (Bool-cases ino.inline) [
        | inl s ↦ rw s (ground (arith, k))
        | inr s ↦ ground (arith, k, s, e)
      ];
    }

    promoted-Writes :
        takes_inline ≡ true
        → Writes (
            extent_result free_run
              (record ino { inline = false; region = zero_block })
              m
              bytes
              off
              (and_then
                (promote_inline_data alloc_block start ino m)
                (write_extent_data alloc_block bs start bytes off ino.file_size)))
    unfolding inode_byte
    promoted-Writes e =
        extent_result-Writes (record ino { inline = false; region = zero_block }) _ refl refl
          (Ends-and_then alloc_block
            (Promoted start in_use alloc_block allocator bs roomy ino (inline_small e) m) Extended _
            _
            (promote_inline_data-Ends start in_use alloc_block allocator bs roomy ino
              (inline_small e) m)
            (λ w p. extend_lem w p.mapped (λ i h. ground (arith, p.content i, h, e)) p.past))

    pub write_bytes-Writes : Writes (write_bytes alloc_block free_run bs start ino m bytes off)
    unfolding write_bytes inode_byte
    write_bytes-Writes = elim (Bool-cases takes_inline) [
      | inl e ↦ elim (Bool-cases (leb (off + length bytes) inline_data_max)) [
        | inl h ↦ rw (e, h) (inline-IsWritten e (ground (arith, h)))
        | inr h ↦ rw (e, h) (promoted-Writes e)
      ]
      | inr e ↦
          let large : ino.inline ≡ false = ground (arith, e) in
          rw e (
            extent_result-Writes ino _ large refl
              (extend_lem _ (f.mapped large) (λ i h. rw large refl) (f.past large)))
    ]

  -- The checks that the request passed.
  abbrev pub IsAccepted : Type 0
  IsAccepted =
      (m.shutdown ≡ false)
      × (m.read_only ≡ false)
      × (is_immutable ino ≡ false)
      × (is_append_only ino ≡ true → off ≡ ino.file_size)
      × (off + length bytes ≤ max_file_size)

  abbrev pub Answers : Result S → Type 0
  Answers (Result.wrote ino' m') =
      ((length bytes ≡ 0) × (ino' ≡ ino) × (m' ≡ m)) ⊎ (IsAccepted × IsWritten ino' m')
  Answers (Result.refused Errno.eio m') = (m.shutdown ≡ true) × (m' ≡ m)
  Answers (Result.refused Errno.erofs m') = (m.read_only ≡ true) × (m' ≡ m)
  Answers (Result.refused Errno.eperm m') =
      ((is_immutable ino ≡ true) ⊎ ((is_append_only ino ≡ true) × (off ≢ ino.file_size))) × (m' ≡ m)
  Answers (Result.refused Errno.efbig m') = (max_file_size < off + length bytes) × (m' ≡ m)
  Answers (Result.refused Errno.enospc m') = (s : S) × (s' : S) × (alloc_block s ≡ (s', 0))
