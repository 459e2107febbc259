-- ===== src/Tests/Layout.antt =====
-- A volume with 4096-byte blocks and 512-byte inodes.
use briefs_utils.Base.{arith}
use briefs_utils.Layout.{Superblock, inode_location, magic_superblock}
use briefs_utils.Layout.Inodes.{Disjoint, inode_location-Disjoint}

abbrev volume : Superblock
volume = record {
  magic = magic_superblock;
  minor_ver = 9;
  feat_incompat = 1;
  block_size = 4096;
  inode_size = 512;
  inode_table_offset = 7;
}

inode_location-Disjoint_example :
    Disjoint volume (inode_location volume 8) (inode_location volume 9)
inode_location-Disjoint_example =
    inode_location-Disjoint volume (omega arith) (omega arith) (omega arith) 8 9 (omega arith)
      (omega arith) (omega arith) (omega arith)
