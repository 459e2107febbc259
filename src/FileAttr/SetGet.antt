-- ===== src/FileAttr/SetGet.antt =====
-- What fileattrGet reads after fileattrSet: fuse/fileattr.go.
use briefs_utils.Base.{ℕ, if◌then◌else◌, ◌==◌, bit_and, bit_or, Bool, true, false}
use briefs_utils.Base.{
  ◌≡◌, refl, arith, ◌⊎◌, inl, inr, none, some, Option-cases, Bool-cases, ◌∙◌, ap,
}
use briefs_utils.Base.Bits.{and_not}
use briefs_utils.FileAttr.{
  AttrInode, Request, set_flags, set_xflags, neither, SetResult, committed, unchanged, eopnotsupp,
}
use briefs_utils.FileAttr.{
  requested, store_flags, fileattr_set, fileattr_get, fs_common_fl, fs_dirsync_fl,
  fs_xflag_supported, xflags_to_user_flags, user_flags_to_xflags,
}
use briefs_utils.FileAttr.Flags.{
  masked_self, xflags_to_user_flags-within, masked-replace, clear-absent, masked-within,
  SameAttributes, user_flags_to_xflags-SameAttributes, xflags_to_user_flags-dirsync,
  user_flags_to_xflags-xflags_to_user_flags,
}

-- The flags that a request names.
unfoldable pub wanted : Request → ℕ
wanted (set_flags flags) = flags
wanted (set_xflags xflags extsize projid cowextsize) = xflags_to_user_flags xflags
wanted neither = 0

-- The flags to store hold what is wanted within the common flags, and the old ones outside.
requested-mixes :
    (old new : ℕ) (request : Request)
    → requested old request ≡ some new
    → (bit_and new fs_common_fl ≡ wanted request)
      × (and_not new fs_common_fl ≡ and_not old fs_common_fl)
unfolding requested wanted
requested-mixes old new (set_flags flags) h = elim (Bool-cases (and_not flags fs_common_fl == 0)) [
  | inl e ↦
      let own : bit_and flags fs_common_fl ≡ flags =
        masked_self flags fs_common_fl (ground arith) in
      let stored : bit_or (and_not old fs_common_fl) flags ≡ new = ground (arith, own, h, e) in
      rw (← stored) (masked-replace old flags fs_common_fl own)
  | inr e ↦ absurd (ground (arith, h, e))
]
requested-mixes old new (set_xflags xflags extsize projid cowextsize) h =
    elim (Bool-cases (and_not xflags fs_xflag_supported == 0)) [
      | inl e ↦
          let stored : bit_or (and_not old fs_common_fl) (xflags_to_user_flags xflags) ≡ new =
            ground (arith, h, e) in
          rw (← stored) (
            masked-replace old (xflags_to_user_flags xflags) fs_common_fl
              (xflags_to_user_flags-within xflags (ground arith)))
      | inr e ↦ absurd (ground (arith, h, e))
    ]
requested-mixes old new neither h = cc

-- The flags and the xflags that a reader gets after a request.
unfoldable pub Named : Request → ℕ → ℕ → Type 0
Named (set_flags asked) flags xflags = flags ≡ asked
Named (set_xflags asked extsize projid cowextsize) flags xflags =
    (xflags ≡ asked) × (bit_and flags fs_dirsync_fl ≡ 0)
Named neither flags xflags = ⊥

-- What a successful request leaves.
pub record IsStored (inode : AttrInode) (request : Request) (inode' : AttrInode) : Type 0 where
  pub named : Named request (fileattr_get inode').0 (fileattr_get inode').1
  pub attributes : SameAttributes (fileattr_get inode').0 (fileattr_get inode').1
  pub common : and_not (fileattr_get inode').0 fs_common_fl ≡ 0
  pub others_kept : and_not inode'.user_flags fs_common_fl ≡ and_not inode.user_flags fs_common_fl
  pub same_kind : inode'.is_dir ≡ inode.is_dir
  pub same_extents : (fileattr_get inode').2 ≡ inode.num_extents

wanted-Named :
    (old new : ℕ) (request : Request)
    → requested old request ≡ some new
    → Named request (wanted request) (user_flags_to_xflags (wanted request))
unfolding requested wanted Named
wanted-Named old new (set_flags flags) h = refl
wanted-Named old new (set_xflags xflags extsize projid cowextsize) h =
    let supported : and_not xflags fs_xflag_supported ≡ 0 = ground (arith, h) in
    (
      user_flags_to_xflags-xflags_to_user_flags xflags supported,
      xflags_to_user_flags-dirsync xflags supported,
    )
wanted-Named old new neither h = cc

store_flags-cases :
    (inode inode' : AttrInode) (flags : ℕ)
    → (store_flags inode flags ≡ committed inode') ⊎ (store_flags inode flags ≡ unchanged inode')
    → (inode'.user_flags ≡ flags)
      × (inode'.is_dir ≡ inode.is_dir)
      × (inode'.num_extents ≡ inode.num_extents)
      × ((inode.is_dir ≡ true) ⊎ (bit_and flags fs_dirsync_fl ≡ 0))
unfolding store_flags
store_flags-cases inode inode' flags h = ground (arith, h)

get-own :
    (inode : AttrInode) (w : ℕ)
    → (inode.is_dir ≡ true) ⊎ (bit_and inode.user_flags fs_dirsync_fl ≡ 0)
    → bit_and inode.user_flags fs_common_fl ≡ w
    → fileattr_get inode ≡ (w, user_flags_to_xflags w, inode.num_extents)
unfolding fileattr_get
get-own inode w h own =
    let flags : (if inode.is_dir
          then bit_and inode.user_flags fs_common_fl
          else and_not (bit_and inode.user_flags fs_common_fl) fs_dirsync_fl)
        ≡ w =
      ground (arith, own, h, clear-absent inode.user_flags fs_common_fl fs_dirsync_fl) in
    rw flags refl

-- When fileattrSet commits an inode, or finds it unchanged, the file system was not frozen, and
-- fileattrGet of the result returns common flags only: the flags that SETFLAGS was given, or the
-- xflags that FSSETXATTR was given, without the flag of directories. Its flags and xflags name the
-- same of the five attributes that both words have, its extent count is the old one, and the stored
-- bits outside the common flags are the old ones.
pub fileattr_set-IsStored :
    (frozen : Bool) (inode inode' : AttrInode) (request : Request)
    → (fileattr_set frozen inode request ≡ committed inode')
      ⊎ (fileattr_set frozen inode request ≡ unchanged inode')
    → (frozen ≡ false) × IsStored inode request inode'
unfolding fileattr_set
fileattr_set-IsStored true inode inode' request h = absurd (ground (arith, h))
fileattr_set-IsStored false inode inode' request h =
    (refl, answered (Option-cases (requested inode.user_flags request)) h)
  where
    stored :
        (flags : ℕ)
        → requested inode.user_flags request ≡ some flags
        → (store_flags inode flags ≡ committed inode')
          ⊎ (store_flags inode flags ≡ unchanged inode')
        → IsStored inode request inode'
    stored flags asked result =
        let (written, kind, extents, dirsync) = store_flags-cases inode inode' flags result in
        let (own, others) = requested-mixes inode.user_flags flags request asked in
        let masked : bit_and inode'.user_flags fs_common_fl ≡ wanted request =
          ap (λ (f : ℕ). bit_and f fs_common_fl) written ∙ own in
        let read =
          get-own inode' (wanted request) (ground (arith, written, kind, dirsync)) masked in
        record {
          named = rw read (wanted-Named inode.user_flags flags request asked);
          attributes = rw read (user_flags_to_xflags-SameAttributes (wanted request));
          common = rw (read, ← masked) (masked-within inode'.user_flags fs_common_fl);
          others_kept = rw written others;
          same_kind = kind;
          same_extents = rw read extents;
        }

    answered :
        (requested inode.user_flags request ≡ none)
          ⊎ ((flags : ℕ) × (requested inode.user_flags request ≡ some flags))
        → (elim (requested inode.user_flags request) as (λ x. SetResult) [
          | none ↦ eopnotsupp
          | some flags ↦ store_flags inode flags
        ]
            ≡ committed inode')
          ⊎ (elim (requested inode.user_flags request) as (λ x. SetResult) [
            | none ↦ eopnotsupp
            | some flags ↦ store_flags inode flags
          ]
              ≡ unchanged inode')
        → IsStored inode request inode'
    answered (inl nothing) result = absurd (ground (arith, rw nothing at result))
    answered (inr (flags, asked)) result = stored flags asked (rw asked at result)
