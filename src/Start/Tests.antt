-- ===== src/Start/Tests.antt =====
-- A drive with a directory `boot` and in it a file `kernel` of 3000 bytes.
use native.Mathlib.Nat.{mod-lt}
use banj_os.Base.{
  ℕ, ◌-◌, ◌%◌, ◌≡◌, refl, ap, true, some, List, [], ◌∷◌, ◌++◌, length, arith, ◌==◌, if◌then◌else◌,
  append_assoc, append-nil, inr, get_or, leb,
}
use banj_os.Disk.{Buffer, BlockDevice, mbr_of, store, mbr_read_block, read_into}
use banj_os.Regions.{align_pointer}
use banj_os.Printk.{Out}
use banj_os.Printk.Digits.{append_both}
use banj_os.Ext2.Layout.{ext2_super_block, ext2_inode}
use banj_os.Ext2.{
  Ext2VfsSuperBlock, Ext2VfsInode, read_inode_block, read_all, read_sectors, ext2_read_block,
  and_then, ignoring, read_direct,
}
use banj_os.Ext2.Sectors.{IsPartition}
use banj_os.Ext2.Inodes.{ext2_vfs_inode_init, read_inode, read_from_table}
use banj_os.Ext2.Dirs.{readdir, read_dir_blocks, read_entries}
use banj_os.Ext2.FileBytes.{file_at}
use banj_os.Start.{boot_name, kernel_name, drive_init, bytes_from}
use banj_os.Start.Find.{here}
use banj_os.Start.Hex.{hex}
use banj_os.Start.Drive.{drive_init_lem}

-- The entry of a directory of one block.
abbrev entry : (ino : ℕ) (name : List ℕ) → Buffer
entry ino name k =
    if k == 0
    then ino
    else (if k == 5
        then 4
        else (if k == 6 then length name else (if leb 8 k then get_or name (k - 8) 0 else 0)))

-- A function that gives one of its places another value.
abbrev at : (k v : ℕ) → Buffer → Buffer
at k v f i = if i == k then v else f i

abbrev fresh : Buffer
fresh k = 0

-- The table of the inodes, with the directory as the inode 3 and the file as the inode 4.
abbrev table : Buffer
table = at 257 0x40 (at 261 4 (at 296 21 (at 388 0xB8 (at 389 0x0B fresh))))

abbrev sectors : ℕ → Buffer
sectors n =
    if n == 110
    then table
    else (if n == 140 then entry 3 boot_name else (if n == 142 then entry 4 kernel_name else fresh))

abbrev device : BlockDevice
device = record { read_block = λ n. some (sectors n); blk_size = 512; tot_length = 2048 }

abbrev first_sector : Buffer
first_sector = at 454 100 (at 8 5 fresh)

abbrev vsb : Ext2VfsSuperBlock
vsb = record {
  block_size = 1024;
  num_groups = 1;
  dev = device;
  mbr = mbr_of first_sector;
  part_num = 0;
  grp_table = first_sector;
  ext_sb = record (ext2_super_block first_sector) {
    num_inodes = 64;
    num_group_inodes = 64;
    inode_size = 128;
  };
}

abbrev content : Buffer
content = store 512 512 (sectors 111) (store 512 0 (sectors 110) fresh)

abbrev root : Ext2VfsInode
root = ext2_vfs_inode_init (ext2_inode (at 1 0x40 (at 5 4 (at 40 20 fresh))) 0) 2 vsb

abbrev boot : Ext2VfsInode
boot = ext2_vfs_inode_init (ext2_inode content 256) 3 vsb

abbrev kernel : Ext2VfsInode
kernel = ext2_vfs_inode_init (ext2_inode content 384) 4 vsb

abbrev image : IsPartition vsb sectors
image = record { reads = λ n. refl; some_bytes = omega arith; whole = refl; number = omega arith }

-- What the two directories list, and their inodes.
in_root : readdir 7001 0x200000 root fresh ≡ some (true, (boot_name, some boot) ∷ [])
unfolding readdir read_dir_blocks read_entries read_inode read_from_table read_inode_block
    read_direct ignoring ext2_read_block read_sectors and_then mbr_read_block read_into read_all
    align_pointer
in_root = refl

boot_inode : read_inode vsb 3 fresh ≡ some (some boot)
unfolding read_inode read_from_table ext2_read_block read_sectors and_then mbr_read_block read_into
    read_all ignoring
boot_inode = refl

in_boot : readdir 7001 0x200000 boot fresh ≡ some (true, (kernel_name, some kernel) ∷ [])
unfolding readdir read_dir_blocks read_entries read_inode read_from_table read_inode_block
    read_direct ignoring ext2_read_block read_sectors and_then mbr_read_block read_into read_all
    align_pointer
in_boot = refl

kernel_inode : read_inode vsb 4 fresh ≡ some (some kernel)
unfolding read_inode read_from_table ext2_read_block read_sectors and_then mbr_read_block read_into
    read_all ignoring
kernel_inode = refl

-- A digest that stands for MD5: the length of what it was given, and a constant.
abbrev digest : List ℕ → List ℕ
digest ctx = length ctx % 256 ∷ (7 ∷ [])

abbrev out : Out
out = record { screen = []; serial = [] }

drive_init_lem_example :
    drive_init [] ◌++◌ digest 2 7001 0x200000 0 vsb root fresh out
    ≡ some (
        append_both out (
          hex
            (digest (bytes_from 3000 0 (file_at kernel sectors image (omega arith) (omega arith))))
          ++ (b'\n' ∷ [])))
drive_init_lem_example =
    drive_init_lem [] ◌++◌ digest (λ ctx xs ys. ap digest (append_assoc ctx xs ys))
      (λ ctx. ap digest (append-nil ctx))
      (λ ctx. (mod-lt (length ctx) (omega arith), (omega arith, tt))) 2 7001 0x200000 0 vsb root
      boot kernel fresh out ((boot_name, some boot) ∷ []) ((kernel_name, some kernel) ∷ []) in_root
      (here boot [] refl tt) boot_inode in_boot (here kernel [] refl tt) kernel_inode sectors image
      (omega arith) (omega arith) (omega arith) (inr (omega arith, omega arith)) (omega arith)
      (omega arith)
