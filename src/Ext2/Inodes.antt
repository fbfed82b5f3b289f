-- ===== src/Ext2/Inodes.antt =====
-- src/ext2.c: the superblock, inodes and the search for a partition. The second Option is a NULL.
use banj_os.Base.{
  ℕ, zero, suc, ◌+◌, ◌-◌, ◌*◌, ◌/◌, ◌%◌, ◌^◌, ◌||◌, Option, none, some, ltb, leb, ◌==◌,
  if◌then◌else◌,
}
use banj_os.Disk.{Buffer, BlockDevice, Mbr, mbr_of, mbr_init, mbr_read_block}
use banj_os.Ext2.Layout.{Ext2SuperBlock, ext2_super_block, group_descriptor, Ext2Inode, ext2_inode}
use banj_os.Ext2.{Ext2VfsSuperBlock, Ext2VfsInode, pow2, ignoring, read_all}

abbrev pub ext2_vfs_inode_init : Ext2Inode → (ino : ℕ) → Ext2VfsSuperBlock → Ext2VfsInode
ext2_vfs_inode_init ext_in ino vsb = record {
  ino = ino % 2 ^ 32;
  st_mode = ext_in.mode;
  st_uid = ext_in.uid;
  st_gid = ext_in.gid;
  st_size = ext_in.size_high * 2 ^ 32 + ext_in.size_low;
  ext_in = ext_in;
  vsb = vsb;
}

-- The inode `index` of a group, in the table of the group's inodes.
unfoldable pub read_from_table :
    Ext2VfsSuperBlock → (table index inode_num : ℕ) (fresh : Buffer) → Option (Option Ext2VfsInode)
read_from_table vsb table index inode_num fresh =
    let at = index * vsb.ext_sb.inode_size % 2 ^ 64 in
    let block_num = (table + at / vsb.block_size) % 2 ^ 64 in
    let num_sectors = vsb.block_size / vsb.dev.blk_size in
    if (vsb.block_size == 0) || (vsb.dev.blk_size == 0)
    then none
    else elim (read_all num_sectors 0 (vsb.dev) (vsb.mbr) (vsb.part_num)
        (block_num * num_sectors % 2 ^ 64) fresh) [
          | none ↦ none
          | some b ↦
              some (some (ext2_vfs_inode_init (ext2_inode b (at % vsb.block_size)) inode_num vsb))
        ]

unfoldable pub read_inode :
    Ext2VfsSuperBlock → (inode_num : ℕ) (fresh : Buffer) → Option (Option Ext2VfsInode)
read_inode vsb inode_num fresh =
    let before = (inode_num + (2 ^ 64 - 1)) % 2 ^ 64 in
    let per_group = vsb.ext_sb.num_group_inodes in
    let group_idx = before / per_group in
    if ltb (vsb.ext_sb.num_inodes) inode_num
    then some none
    else (if per_group == 0
        then none
        else (if leb (vsb.num_groups) group_idx
            then some none
            else read_from_table vsb
                ((group_descriptor (vsb.grp_table) group_idx).start_block_addr_inode_table)
                (before % per_group) inode_num fresh))

-- The superblock's bytes and those of the first group descriptors.
pub ext2_superblock_init :
    (sb grp_table : Buffer) → Mbr → BlockDevice → (num_part : ℕ) → Option (Buffer × Buffer)
ext2_superblock_init sb grp_table mbr dev num_part =
    let sb_start = 1024 / dev.blk_size in
    let sb_sectors = 1024 / dev.blk_size % 2 ^ 16 in
    if dev.blk_size == 0 then none else elim (read_all sb_sectors 0 dev mbr num_part sb_start sb) [
      | none ↦ none
      | some sb' ↦
          ignoring (mbr_read_block dev mbr num_part (sb_start + sb_sectors) 0 grp_table)
            (λ grp. some (sb', grp))
    ]

-- The fields that `ext2_vfs_superblock_init` sets.
abbrev pub vfs_superblock :
    Ext2SuperBlock → (grp_table : Buffer) → BlockDevice → Mbr → (part_num : ℕ) → Ext2VfsSuperBlock
vfs_superblock ext_sb grp_table dev mbr part_num =
    let per_group = ext_sb.num_group_blocks in
    record {
      block_size = pow2 ((ext_sb.log_sub_10_block_size + 10) % 2 ^ 32);
      num_groups =
          ext_sb.num_blocks / per_group + (if ext_sb.num_blocks % per_group == 0 then 0 else 1);
      dev = dev;
      mbr = mbr;
      part_num = part_num;
      grp_table = grp_table;
      ext_sb = ext_sb;
    }

-- The superblock, with its root inode.
pub ext2_vfs_superblock_init :
    Ext2SuperBlock
    → (grp_table : Buffer) → BlockDevice
    → Mbr
    → (part_num : ℕ) (fresh : Buffer) → Option (Ext2VfsSuperBlock × Option Ext2VfsInode)
ext2_vfs_superblock_init ext_sb grp_table dev mbr part_num fresh =
    let vsb = vfs_superblock ext_sb grp_table dev mbr part_num in
    if ext_sb.num_group_blocks == 0
    then none
    else elim (read_inode vsb 2 fresh) [ none ↦ none | some root_inode ↦ some (vsb, root_inode) ]

-- The loop of `ext2_probe`, `n` turns from the partition `p` on.
pub probe_partitions :
    (n p : ℕ)
    → Mbr
    → BlockDevice
    → (fresh : Buffer) → Option (Option (Ext2VfsSuperBlock × Option Ext2VfsInode))
probe_partitions zero p mbr dev fresh = some none
probe_partitions (suc n) p mbr dev fresh =
    let rest = probe_partitions n (suc p) mbr dev fresh in
    if (mbr.partitions p).part_type == 0
    then some none
    else (if ltb ((mbr.partitions p).num_sectors) 2
        then rest
        else elim (ext2_superblock_init fresh fresh mbr dev p) [
          | none ↦ none
          | some (sb, grp_table) ↦
              if (ext2_super_block sb).ext2_signature == 0xEF53
              then elim (ext2_vfs_superblock_init (ext2_super_block sb) grp_table dev mbr p fresh) [
                | none ↦ none
                | some found ↦ some (some found)
              ]
              else rest
        ])

pub ext2_probe :
    BlockDevice → (fresh : Buffer) → Option (Option (Ext2VfsSuperBlock × Option Ext2VfsInode))
ext2_probe dev fresh = probe_partitions 4 0 (mbr_of ((mbr_init fresh dev).1)) dev fresh
