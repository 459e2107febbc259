-- ===== src/FileAttr.antt =====
-- The chattr flags: fuse/fileattr.go. A flag word that the inode stores, its translation to and from
-- FS_XFLAG_*, and the two ioctls that set it. Reading and committing the inode is left to the caller,
-- with an inode as a value.
pub mod Flags
pub mod SetGet
use briefs_utils.Base.{ℕ, zero, suc, ◌==◌, bit_and, bit_or, ltb}
use briefs_utils.Base.{if◌then◌else◌, Bool, true, false, not, ◌&&◌, ◌||◌, Option, none, some}
use briefs_utils.Base.Bits.{and_not}

abbrev pub fs_sync_fl : ℕ
fs_sync_fl = 0x00000008

abbrev pub fs_immutable_fl : ℕ
fs_immutable_fl = 0x00000010

abbrev pub fs_append_fl : ℕ
fs_append_fl = 0x00000020

abbrev pub fs_nodump_fl : ℕ
fs_nodump_fl = 0x00000040

abbrev pub fs_noatime_fl : ℕ
fs_noatime_fl = 0x00000080

abbrev pub fs_dirsync_fl : ℕ
fs_dirsync_fl = 0x00010000

-- UserFlagAll: the `|` of the six.
abbrev pub fs_common_fl : ℕ
fs_common_fl = 0x000100F8

abbrev pub fs_xflag_immutable : ℕ
fs_xflag_immutable = 0x00000008

abbrev pub fs_xflag_append : ℕ
fs_xflag_append = 0x00000010

abbrev pub fs_xflag_sync : ℕ
fs_xflag_sync = 0x00000020

abbrev pub fs_xflag_noatime : ℕ
fs_xflag_noatime = 0x00000040

abbrev pub fs_xflag_nodump : ℕ
fs_xflag_nodump = 0x00000080

-- The `|` of the five.
abbrev pub fs_xflag_supported : ℕ
fs_xflag_supported = 0x000000F8

-- `if w&from != 0 { x |= to }`.
abbrev pub carry : ℕ → ℕ → ℕ → ℕ → ℕ
carry w from to x = if bit_and w from == 0 then x else bit_or x to

unfoldable pub user_flags_to_xflags : ℕ → ℕ
user_flags_to_xflags uf =
    let x1 = carry uf fs_sync_fl fs_xflag_sync 0 in
    let x2 = carry uf fs_immutable_fl fs_xflag_immutable x1 in
    let x3 = carry uf fs_append_fl fs_xflag_append x2 in
    let x4 = carry uf fs_nodump_fl fs_xflag_nodump x3 in carry uf fs_noatime_fl fs_xflag_noatime x4

unfoldable pub xflags_to_user_flags : ℕ → ℕ
xflags_to_user_flags xf =
    let u1 = carry xf fs_xflag_sync fs_sync_fl 0 in
    let u2 = carry xf fs_xflag_immutable fs_immutable_fl u1 in
    let u3 = carry xf fs_xflag_append fs_append_fl u2 in
    let u4 = carry xf fs_xflag_nodump fs_nodump_fl u3 in carry xf fs_xflag_noatime fs_noatime_fl u4

-- The fields of an inode that the two operations read and write.
pub record AttrInode : Type 0 where
  pub user_flags : ℕ
  pub is_dir : Bool
  pub num_extents : ℕ

-- fileattrGet, on the inode it has read: the user flags, the xflags and the extent count.
unfoldable pub fileattr_get : AttrInode → ℕ × ℕ × ℕ
unfolding user_flags_to_xflags
fileattr_get inode =
    let f = bit_and inode.user_flags fs_common_fl in
    let flags = if inode.is_dir then f else and_not f fs_dirsync_fl in
    (flags, user_flags_to_xflags flags, inode.num_extents)

-- What fileattrSet is asked for: SETFLAGS, FSSETXATTR with its extsize, projid and cowextsize, or
-- neither.
pub data Request : Type 0 where
  set_flags : ℕ → Request
  set_xflags : ℕ → ℕ → ℕ → ℕ → Request
  neither : Request

pub data SetResult : Type 0 where
  -- The inode to commit, or the stored one where nothing changes.
  committed unchanged : AttrInode → SetResult
  erofs eopnotsupp einval : SetResult

-- The flags that a request asks for; `none` is EOPNOTSUPP.
unfoldable pub requested : ℕ → Request → Option ℕ
requested old (set_flags flags) =
    if and_not flags fs_common_fl == 0
    then some (bit_or (and_not old fs_common_fl) (bit_and flags fs_common_fl))
    else none
requested old (set_xflags xflags extsize projid cowextsize) =
    if not (and_not xflags fs_xflag_supported == 0)
    then none
    else if not (extsize == 0) || not (projid == 0) || not (cowextsize == 0)
    then none
    else some (bit_or (and_not old fs_common_fl) (xflags_to_user_flags xflags))
requested old neither = none

-- The rest of fileattrSet, once the new flags are known.
unfoldable pub store_flags : AttrInode → ℕ → SetResult
store_flags inode flags =
    if not (bit_and flags fs_dirsync_fl == 0) && not inode.is_dir
    then einval
    else if inode.user_flags == flags
    then unchanged inode
    else committed (record inode { user_flags = flags })

unfoldable pub fileattr_set : Bool → AttrInode → Request → SetResult
fileattr_set frozen inode request =
    let asked : SetResult = elim (requested inode.user_flags request) [
      | none ↦ eopnotsupp
      | some flags ↦ store_flags inode flags
    ] in
    if frozen then erofs else asked
