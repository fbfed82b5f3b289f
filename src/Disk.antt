-- ===== src/Disk.antt =====
-- src/mbr.c, and include/block_device.h: block devices, the bytes of packed structures, and the
-- partition table. A buffer gives its bytes by their offsets. A device is one that registers
-- through `struct BlockDevice`; a read of it gives the block's bytes, or `none` when it returns 0.
-- Where a result is an Option, `none` is a halt: a failed assertion or a division by zero.
use banj_os.Base.{
  ℕ, ◌+◌, ◌-◌, ◌*◌, ◌%◌, ◌^◌, Bool, true, false, ◌&&◌, Option, none, some, ltb, leb, if◌then◌else◌,
}

abbrev pub Buffer : Type 0
Buffer = ℕ → ℕ

abbrev pub le16 : Buffer → ℕ → ℕ
le16 b o = b o + 256 * b (o + 1)

abbrev pub le32 : Buffer → ℕ → ℕ
le32 b o = le16 b o + 65536 * le16 b (o + 2)

-- `n` bytes of `bytes` at the offset.
abbrev pub store : (n off : ℕ) (bytes : Buffer) → Buffer → Buffer
store n off bytes b k = if leb off k && ltb k (off + n) then bytes (k - off) else b k

pub record BlockDevice : Type 0 where
  pub read_block : (blk_num : ℕ) → Option Buffer
  pub blk_size : ℕ
  pub tot_length : ℕ

-- `dev->read_block(dev, blk_num, dst)`, where `dst` is the offset in the buffer.
unfoldable pub read_into : (dev : BlockDevice) (blk_num off : ℕ) → Buffer → Bool × Buffer
read_into dev blk_num off b = elim (dev.read_block blk_num) [
  | none ↦ (false, b)
  | some bytes ↦ (true, store (dev.blk_size) off bytes b)
]

pub record MbrPartition : Type 0 where
  pub status : ℕ
  pub first_sector_head : ℕ
  pub first_sector_high : ℕ
  pub first_sector_low : ℕ
  pub part_type : ℕ
  pub last_sector_head : ℕ
  pub last_sector_high : ℕ
  pub last_sector_low : ℕ
  pub first_sector_lba : ℕ
  pub num_sectors : ℕ

abbrev pub mbr_partition : (b : Buffer) (o : ℕ) → MbrPartition
mbr_partition b o = record {
  status = b o;
  first_sector_head = b (o + 1);
  first_sector_high = b (o + 2);
  first_sector_low = b (o + 3);
  part_type = b (o + 4);
  last_sector_head = b (o + 5);
  last_sector_high = b (o + 6);
  last_sector_low = b (o + 7);
  first_sector_lba = le32 b (o + 8);
  num_sectors = le32 b (o + 12);
}

pub record Mbr : Type 0 where
  pub bootstrap_code : Buffer
  pub partitions : ℕ → MbrPartition
  pub boot_signature : ℕ

abbrev pub mbr_of : Buffer → Mbr
mbr_of b = record {
  bootstrap_code = b;
  partitions = λ p. mbr_partition b (446 + 16 * p);
  boot_signature = le16 b 510;
}

unfoldable pub mbr_init : (mbr : Buffer) → BlockDevice → Bool × Buffer
mbr_init mbr dev = read_into dev 0 0 mbr

unfoldable pub mbr_read_block :
    (dev : BlockDevice) (mbr : Mbr) (part_num blk_num off : ℕ) → Buffer → Option (Bool × Buffer)
mbr_read_block dev mbr part_num blk_num off b =
    if ltb part_num 4
    then some
        (read_into dev (((mbr.partitions part_num).first_sector_lba + blk_num) % 2 ^ 64) off b)
    else none
