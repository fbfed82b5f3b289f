-- ===== src/Ext2.antt =====
-- src/ext2.c: blocks, inodes, directories and files of an ext2 partition. `none` is a halt, by a
-- failed assertion or a division by zero. What kmalloc returns is a buffer with bytes of no
-- importance, which the functions take as an argument, `fresh`; kfree has no effect here.
pub mod Layout
pub mod Sectors
pub mod Lookup
pub mod Inodes
pub mod Files
pub mod Chunks
pub mod Reading
pub mod Ending
pub mod Amount
pub mod FileBytes
pub mod Anywhere
pub mod Overrun
pub mod Table
pub mod Dirs
pub mod Entries
pub mod Pow
mod Tests
use banj_os.Base.{
  ℕ, zero, suc, ◌+◌, ◌-◌, ◌*◌, ◌/◌, ◌%◌, ◌^◌, Bool, true, false, Option, none, some, ltb, leb, ◌==◌,
  if◌then◌else◌,
}
use banj_os.Disk.{Buffer, le32, BlockDevice, Mbr, mbr_read_block}
use banj_os.Ext2.Layout.{Ext2SuperBlock, Ext2Inode}

pub record Ext2VfsSuperBlock : Type 0 where
  pub block_size : ℕ
  pub num_groups : ℕ
  pub dev : BlockDevice
  pub mbr : Mbr
  pub part_num : ℕ
  pub grp_table : Buffer
  pub ext_sb : Ext2SuperBlock

pub record Ext2VfsInode : Type 0 where
  pub ino : ℕ
  pub st_mode : ℕ
  pub st_uid : ℕ
  pub st_gid : ℕ
  pub st_size : ℕ
  pub ext_in : Ext2Inode
  pub vsb : Ext2VfsSuperBlock

-- The loop of `pow2`, `n` turns.
abbrev pub double : (n number : ℕ) → ℕ
double zero number = number
double (suc n) number = double n (number * 2 % 2 ^ 64)

pub pow2 : ℕ → ℕ
pow2 n = double n 1

-- What follows a read that must succeed.
unfoldable pub and_then :
    Option (Bool × Buffer) → (Buffer → Option (Bool × Buffer)) → Option (Bool × Buffer)
and_then none k = none
and_then (some (false, b)) k = some (false, b)
and_then (some (true, b)) k = k b

-- What follows a read whose result is ignored.
unfoldable pub ignoring {ℓ} : {A : Type ℓ} → Option (Bool × Buffer) → (Buffer → Option A) → Option A
ignoring none k = none
ignoring (some (ok, b)) k = k b

-- The loop of `ext2_read_block`, `n` turns from `i` on.
unfoldable pub read_sectors :
    (n i : ℕ) (vsb : Ext2VfsSuperBlock) (sector_num : ℕ) → Buffer → Option (Bool × Buffer)
read_sectors zero i vsb sector_num b = some (true, b)
read_sectors (suc n) i vsb sector_num b =
    and_then
      (mbr_read_block (vsb.dev) (vsb.mbr) (vsb.part_num) ((sector_num + i) % 2 ^ 64)
        (vsb.dev.blk_size * i) b)
      (λ b'. read_sectors n (suc i) vsb sector_num b')

unfoldable pub ext2_read_block :
    (vsb : Ext2VfsSuperBlock) (block_num : ℕ) → Buffer → Option (Bool × Buffer)
ext2_read_block vsb block_num b =
    if vsb.dev.blk_size == 0
    then none
    else (let num_sectors = vsb.block_size / vsb.dev.blk_size in
        read_sectors num_sectors 0 vsb (block_num * num_sectors % 2 ^ 64) b)

abbrev pub num_direct_blocks : ℕ
num_direct_blocks = 12

-- The four branches, on the number of a block in the file.
unfoldable pub read_direct : Ext2VfsInode → (block : ℕ) → Buffer → Option Buffer
read_direct vino block dst =
    ignoring (ext2_read_block (vino.vsb) (vino.ext_in.direct_blocks block) dst) (λ d. some d)

unfoldable pub read_single : Ext2VfsInode → (block : ℕ) (fresh dst : Buffer) → Option Buffer
read_single vino block fresh dst =
    ignoring (ext2_read_block (vino.vsb) (vino.ext_in.singly_indirect_block) fresh)
      (λ indirect_block.
        ignoring
          (ext2_read_block (vino.vsb) (le32 indirect_block (4 * (block - num_direct_blocks))) dst)
          (λ d. some d))

unfoldable pub read_double :
    Ext2VfsInode → (num_indirect_per off : ℕ) (fresh dst : Buffer) → Option Buffer
read_double vino num_indirect_per off fresh dst =
    let single_off = off / num_indirect_per in
    let double_off = off % num_indirect_per in
    ignoring (ext2_read_block (vino.vsb) (vino.ext_in.singly_indirect_block) fresh)
      (λ indirect_block.
        ignoring (ext2_read_block (vino.vsb) (le32 indirect_block (4 * single_off)) fresh)
          (λ indirecter_block.
            ignoring (ext2_read_block (vino.vsb) (le32 indirect_block (4 * double_off)) dst)
              (λ d. some d)))

unfoldable pub read_triple :
    Ext2VfsInode → (num_indirect_per off : ℕ) (fresh dst : Buffer) → Option Buffer
read_triple vino num_indirect_per off fresh dst =
    let square = num_indirect_per * num_indirect_per % 2 ^ 64 in
    let single_off = off / square in
    let double_off = off % square in
    let triple_off = double_off / num_indirect_per in
    let quad_off = double_off % num_indirect_per in
    ignoring (ext2_read_block (vino.vsb) (vino.ext_in.doubly_indirect_block) fresh)
      (λ indirect_block.
        ignoring (ext2_read_block (vino.vsb) (le32 indirect_block (4 * single_off)) fresh)
          (λ indirecter_block.
            ignoring
              (ext2_read_block (vino.vsb) (le32 indirecter_block (4 * triple_off)) indirecter_block)
              (λ indirecter_block'.
                ignoring (ext2_read_block (vino.vsb) (le32 indirect_block (4 * quad_off)) dst)
                  (λ d. some d))))

-- Behind the last branch nothing is read.
unfoldable pub read_inode_block : Ext2VfsInode → (block : ℕ) (fresh dst : Buffer) → Option Buffer
read_inode_block vino block fresh dst =
    let per = vino.vsb.block_size / 4 in
    let square = per * per % 2 ^ 64 in
    let cube = square * per % 2 ^ 64 in
    let past_direct = block - num_direct_blocks in
    if ltb block num_direct_blocks
    then read_direct vino block dst
    else (if ltb past_direct per
        then read_single vino block fresh dst
        else (if ltb (past_direct - per) square
            then read_double vino per (past_direct - per) fresh dst
            else (if ltb (past_direct - per - square) cube
                then read_triple vino per (past_direct - per - square) fresh dst
                else some dst)))

-- The loops of `read_inode` and `ext2_superblock_init`, `n` turns from `i` on.
unfoldable pub read_all :
    (n i : ℕ) (dev : BlockDevice) (mbr : Mbr) (part_num first : ℕ) → Buffer → Option Buffer
read_all zero i dev mbr part_num first b = some b
read_all (suc n) i dev mbr part_num first b =
    ignoring (mbr_read_block dev mbr part_num ((first + i) % 2 ^ 64) (dev.blk_size * i) b)
      (λ b'. read_all n (suc i) dev mbr part_num first b')
