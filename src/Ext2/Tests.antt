-- ===== src/Ext2/Tests.antt =====
-- A partition with blocks of 1024 bytes on a device with sectors of 512 bytes.
use banj_os.Base.{
  ℕ, ◌+◌, ◌%◌, ◌<◌, ◌≤◌, ◌≡◌, refl, true, Option, none, some, List, arith, ◌==◌, if◌then◌else◌,
  length, inl, inr, ◌⊎◌,
}
use banj_os.Disk.{Buffer, BlockDevice, mbr_of, mbr_read_block, read_into}
use banj_os.Regions.{align_pointer}
use banj_os.Ext2.Layout.{ext2_super_block, ext2_inode, dir_entry_header}
use banj_os.Ext2.{
  Ext2VfsSuperBlock, Ext2VfsInode, ext2_read_block, read_inode_block, pow2, read_sectors, and_then,
  ignoring, read_all,
}
use banj_os.Ext2.Sectors.{IsPartition, block_byte, ext2_read_block_lem}
use banj_os.Ext2.Lookup.{Reads, file_block, read_inode_block_lem, read_inode_block-double}
use banj_os.Ext2.Inodes.{ext2_vfs_inode_init, read_inode, read_from_table}
use banj_os.Ext2.Table.{InodeAt, read_inode-InodeAt}
use banj_os.Ext2.Files.{Ext2File, ext2_file_read}
use banj_os.Ext2.FileBytes.{IsRead}
use banj_os.Ext2.Anywhere.{ext2_file_read-IsRead}
use banj_os.Ext2.Overrun.{ext2_file_read-one_chunk}
use banj_os.Ext2.Dirs.{Call, read_entries}
use banj_os.Ext2.Entries.{IsEntry, Visited, first, behind, read_entries-ends}
use banj_os.Ext2.Pow.{pow2_lem}

-- Each byte of the sector `n` is the last byte of `n`.
abbrev sectors : ℕ → Buffer
sectors n k = n % 256

abbrev device : BlockDevice
device = record { read_block = λ n. some (sectors n); blk_size = 512; tot_length = 2048 }

abbrev bytes : Buffer
bytes k = if k == 454 then 100 else (if k == 32 then 2 else (if k == 8 then 5 else 0))

abbrev vsb : Ext2VfsSuperBlock
vsb = record {
  block_size = 1024;
  num_groups = 1;
  dev = device;
  mbr = mbr_of bytes;
  part_num = 0;
  grp_table = bytes;
  ext_sb = record (ext2_super_block bytes) {
    num_inodes = 64;
    num_group_inodes = 64;
    inode_size = 128;
  };
}

abbrev inode : Ext2VfsInode
inode = record (ext2_vfs_inode_init (ext2_inode bytes 0) 11 vsb) { st_size = 3000 }

partition : IsPartition vsb sectors
partition = record {
  reads = λ n. refl;
  some_bytes = omega arith;
  whole = refl;
  number = omega arith;
}

abbrev fresh : Buffer
fresh k = 0

read_seven :
    (b' : Buffer) × (ext2_read_block vsb 7 fresh ≡ some (true, b'))
    × ((k : ℕ) → k < 1024 → b' k ≡ block_byte vsb sectors partition 7 k)
    × ((k : ℕ) → 1024 ≤ k → b' k ≡ fresh k)
read_seven = ext2_read_block_lem vsb sectors partition 7 fresh

-- The first byte of the block 7 is in the sector 100 + 14.
seven : block_byte vsb sectors partition 7 0 ≡ 114
seven = refl

read_inode_block_lem_example :
    Reads inode sectors partition
      (read_inode_block inode 267 fresh fresh)
      (file_block inode sectors partition 267)
      fresh
read_inode_block_lem_example =
    read_inode_block_lem inode sectors partition 267 fresh fresh (omega arith)

read_inode_block-double_example :
    Reads inode sectors partition
      (read_inode_block inode (12 + 256 + 300) fresh fresh)
      (file_block inode sectors partition (12 + 300 % 256))
      fresh
read_inode_block-double_example =
    read_inode_block-double inode sectors partition 300 fresh fresh (omega arith)

read_inode-InodeAt_example : InodeAt vsb sectors partition (read_inode vsb 11 fresh) 5 1280 11
read_inode-InodeAt_example =
    read_inode-InodeAt vsb sectors partition 11 fresh (omega arith) (omega arith) (omega arith)
      (omega arith) (omega arith) (omega arith) (omega arith) (omega arith)

-- A read from the middle of the first block to the end of the file.
ext2_file_read-IsRead_example :
    (dst' : Buffer) × (ext2_file_read 7001
        (record { inode = inode; cursor = 1000 })
        fresh
        7000
        fresh
      ≡ some (2000, record { inode = inode; cursor = 3000 }, dst'))
    × IsRead inode sectors partition (omega arith) (omega arith) 1000 2000 fresh dst'
ext2_file_read-IsRead_example =
    ext2_file_read-IsRead inode sectors partition (omega arith) (omega arith) 7001 1000 7000 fresh
      fresh (omega arith) (omega arith) (omega arith)

-- One byte is asked for, and 1023 are copied.
ext2_file_read-one_chunk_example :
    (file : Ext2File) × (dst' : Buffer) × (ext2_file_read 2
        (record { inode = inode; cursor = 1 })
        fresh
        1
        fresh
      ≡ some (1023, file, dst'))
ext2_file_read-one_chunk_example =
    ext2_file_read-one_chunk inode sectors partition 0 1 1 fresh fresh (omega arith) (omega arith)
      (omega arith) (omega arith)

-- The block of a directory with the inode 2, in the root directory: `.` of 12 bytes, and `..` up to
-- the end of the block.
abbrev listing : Buffer
listing k =
    if k == 0
    then 2
    else if k == 4
    then 12
    else if k == 6
    then 1
    else if k == 7
    then 2
    else if k == 8
    then b'.'
    else if k == 12
    then 2
    else if k == 16
    then 244
    else if k == 17
    then 3
    else if k == 18
    then 2
    else if k == 19
    then 2
    else if k == 20
    then b'.'
    else if k == 21
    then b'.'
    else 0

visited_where : (q : ℕ) → Visited 0x200000 vsb listing fresh q → (q ≡ 0) ⊎ ((q ≡ 12) ⊎ (q ≡ 1024))
unfolding align_pointer
visited_where _ first = inl refl
visited_where _ (behind p v e) = elim (visited_where p v) [
  | inl z ↦ inr (inl (rw z refl))
  | inr (inl z) ↦ inr (inr (rw z refl))
  | inr (inr z) ↦ absurd (let inside = e.0 in omega (arith, inside, z))
]

sizes :
    (q : ℕ)
    → Visited 0x200000 vsb listing fresh q
    → IsEntry 0x200000 vsb listing fresh q
    → 0 < (dir_entry_header listing q).entry_size
sizes q v e = elim (visited_where q v) [
  | inl z ↦ rw z (omega arith)
  | inr (inl z) ↦ rw z (omega arith)
  | inr (inr z) ↦ absurd (let inside = e.0 in omega (arith, inside, z))
]

root_inode : (i : Option Ext2VfsInode) × (read_inode vsb 2 fresh ≡ some i)
unfolding read_inode read_from_table ext2_read_block read_sectors and_then mbr_read_block read_into
    read_all ignoring
root_inode = (elim (read_inode vsb 2 fresh) [ none ↦ none | some i ↦ i ], refl)

inodes :
    (q : ℕ)
    → Visited 0x200000 vsb listing fresh q
    → IsEntry 0x200000 vsb listing fresh q
    → (i : Option Ext2VfsInode) × (read_inode vsb ((dir_entry_header listing q).ino) fresh ≡ some i)
inodes q v e = elim (visited_where q v) [
  | inl z ↦ rw z root_inode
  | inr (inl z) ↦ rw z root_inode
  | inr (inr z) ↦ absurd (let inside = e.0 in omega (arith, inside, z))
]

read_entries-ends_example :
    (calls : List Call) × (read_entries 1025 0x200000 0 vsb listing fresh ≡ some calls)
    × (length calls ≤ 1024)
read_entries-ends_example =
    read_entries-ends 0x200000 vsb listing fresh 1025 (λ q. ground arith) (omega arith) sizes inodes
      (omega arith)

pow2_ten : pow2 10 ≡ 1024
pow2_ten = pow2_lem 10
