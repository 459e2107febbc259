-- ===== src/Tests/FileAttr.antt =====
-- A directory's flags set through SETFLAGS.
use briefs_utils.Base.{◌≡◌, refl, true, false, inl}
use briefs_utils.Base.Bits.{and_not}
use briefs_utils.FileAttr.{AttrInode, set_flags, fileattr_set, committed, requested, store_flags}
use briefs_utils.FileAttr.SetGet.{IsStored, fileattr_set-IsStored}

abbrev dir : AttrInode
dir = record { user_flags = 0x40; is_dir = true; num_extents = 2 }

abbrev dir_after : AttrInode
dir_after = record { user_flags = 0x10010; is_dir = true; num_extents = 2 }

set-dir : fileattr_set false dir (set_flags 0x10010) ≡ committed dir_after
unfolding fileattr_set requested store_flags and_not
set-dir = refl

fileattr_set-IsStored_example : (false ≡ false) × IsStored dir (set_flags 0x10010) dir_after
fileattr_set-IsStored_example =
    fileattr_set-IsStored false dir dir_after (set_flags 0x10010) (inl set-dir)
