-- ===== src/Ext2/Layout.antt =====
-- The packed structures of src/ext2.c, read from the bytes of a buffer.
use banj_os.Base.{ℕ, ◌+◌, ◌*◌}
use banj_os.Disk.{Buffer, le16, le32}

pub record Ext2SuperBlock : Type 0 where
  pub num_inodes : ℕ
  pub num_blocks : ℕ
  pub num_reserved_blocks : ℕ
  pub num_unallocated_blocks : ℕ
  pub num_unallocated_inodes : ℕ
  pub sb_block_num : ℕ
  pub log_sub_10_block_size : ℕ
  pub log_sub_10_fragment_size : ℕ
  pub num_group_blocks : ℕ
  pub num_group_fragments : ℕ
  pub num_group_inodes : ℕ
  pub last_mount_time : ℕ
  pub last_written_time : ℕ
  pub mounts_since_last_fsck : ℕ
  pub mounts_allowed_before_fsck : ℕ
  pub ext2_signature : ℕ
  pub file_system_state : ℕ
  pub err_action : ℕ
  pub minor_version_num : ℕ
  pub last_fsck_time : ℕ
  pub max_time_between_fsck : ℕ
  pub operating_system_id : ℕ
  pub major_version_number : ℕ
  pub uid_reserved : ℕ
  pub gid_reserved : ℕ
  pub first_non_reserved_inode : ℕ
  pub inode_size : ℕ

abbrev pub ext2_super_block : Buffer → Ext2SuperBlock
ext2_super_block b = record {
  num_inodes = le32 b 0;
  num_blocks = le32 b 4;
  num_reserved_blocks = le32 b 8;
  num_unallocated_blocks = le32 b 12;
  num_unallocated_inodes = le32 b 16;
  sb_block_num = le32 b 20;
  log_sub_10_block_size = le32 b 24;
  log_sub_10_fragment_size = le32 b 28;
  num_group_blocks = le32 b 32;
  num_group_fragments = le32 b 36;
  num_group_inodes = le32 b 40;
  last_mount_time = le32 b 44;
  last_written_time = le32 b 48;
  mounts_since_last_fsck = le16 b 52;
  mounts_allowed_before_fsck = le16 b 54;
  ext2_signature = le16 b 56;
  file_system_state = le16 b 58;
  err_action = le16 b 60;
  minor_version_num = le16 b 62;
  last_fsck_time = le32 b 64;
  max_time_between_fsck = le32 b 68;
  operating_system_id = le32 b 72;
  major_version_number = le32 b 76;
  uid_reserved = le16 b 80;
  gid_reserved = le16 b 82;
  first_non_reserved_inode = le32 b 84;
  inode_size = le32 b 88;
}

pub record Ext2BlockGroupDescriptorTable : Type 0 where
  pub block_addr_block_usage_bitmap : ℕ
  pub block_addr_inode_usage_bitmap : ℕ
  pub start_block_addr_inode_table : ℕ
  pub num_unallocated_blocks : ℕ
  pub num_unallocated_inodes : ℕ
  pub num_directories : ℕ

-- The descriptor `i` of the array in the buffer.
abbrev pub group_descriptor : Buffer → (i : ℕ) → Ext2BlockGroupDescriptorTable
group_descriptor b i =
    let o = 32 * i in
    record {
      block_addr_block_usage_bitmap = le32 b o;
      block_addr_inode_usage_bitmap = le32 b (o + 4);
      start_block_addr_inode_table = le32 b (o + 8);
      num_unallocated_blocks = le16 b (o + 12);
      num_unallocated_inodes = le16 b (o + 14);
      num_directories = le16 b (o + 16);
    }

pub record Ext2Inode : Type 0 where
  pub mode : ℕ
  pub uid : ℕ
  pub size_low : ℕ
  pub last_access : ℕ
  pub ctime : ℕ
  pub mtime : ℕ
  pub dtime : ℕ
  pub gid : ℕ
  pub hard_link_count : ℕ
  pub sector_count : ℕ
  pub flags : ℕ
  pub os_specific : ℕ
  pub direct_blocks : ℕ → ℕ
  pub singly_indirect_block : ℕ
  pub doubly_indirect_block : ℕ
  pub triply_indirect_block : ℕ
  pub nfs_generation_num : ℕ
  pub acl : ℕ
  pub size_high : ℕ

-- The inode at the offset.
abbrev pub ext2_inode : Buffer → (o : ℕ) → Ext2Inode
ext2_inode b o = record {
  mode = le16 b o;
  uid = le16 b (o + 2);
  size_low = le32 b (o + 4);
  last_access = le32 b (o + 8);
  ctime = le32 b (o + 12);
  mtime = le32 b (o + 16);
  dtime = le32 b (o + 20);
  gid = le16 b (o + 24);
  hard_link_count = le16 b (o + 26);
  sector_count = le32 b (o + 28);
  flags = le32 b (o + 32);
  os_specific = le32 b (o + 36);
  direct_blocks = λ i. le32 b (o + 40 + 4 * i);
  singly_indirect_block = le32 b (o + 88);
  doubly_indirect_block = le32 b (o + 92);
  triply_indirect_block = le32 b (o + 96);
  nfs_generation_num = le32 b (o + 100);
  acl = le32 b (o + 104);
  size_high = le32 b (o + 108);
}

pub record Ext2DirEntryHeader : Type 0 where
  pub ino : ℕ
  pub entry_size : ℕ
  pub name_len_lsb : ℕ
  pub msb_name_len_or_type : ℕ
  pub name : ℕ → ℕ

-- The entry at the offset.
abbrev pub dir_entry_header : Buffer → (o : ℕ) → Ext2DirEntryHeader
dir_entry_header b o = record {
  ino = le32 b o;
  entry_size = le16 b (o + 4);
  name_len_lsb = b (o + 6);
  msb_name_len_or_type = b (o + 7);
  name = λ i. b (o + 8 + i);
}
