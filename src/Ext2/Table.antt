-- ===== src/Ext2/Table.antt =====
-- Where an inode is read from.
use native.Mathlib.Nat.{mod-eq_of_lt}
use banj_os.Base.{
  ℕ, zero, suc, ◌+◌, ◌-◌, ◌*◌, ◌/◌, ◌%◌, ◌^◌, ◌<◌, ◌≤◌, ◌≡◌, refl, Bool, true, false, Option, none,
  some, arith, ltb, leb, ◌==◌, le→ltb,
}
use banj_os.Disk.{Buffer, mbr_read_block}
use banj_os.Ext2.Layout.{group_descriptor, ext2_inode}
use banj_os.Ext2.{
  Ext2VfsSuperBlock, Ext2VfsInode, and_then, ignoring, read_sectors, read_all, ext2_read_block,
}
use banj_os.Ext2.Inodes.{ext2_vfs_inode_init, read_from_table, read_inode}
use banj_os.Ext2.Sectors.{IsPartition, block_byte, ext2_read_block_lem}

-- Where no read fails, ignoring the results makes no difference.
read_all-read_sectors :
    (n i : ℕ) (vsb : Ext2VfsSuperBlock) (s : ℕ) (b b' : Buffer)
    → read_sectors n i vsb s b ≡ some (true, b')
    → read_all n i (vsb.dev) (vsb.mbr) (vsb.part_num) s b ≡ some b'
unfolding read_sectors read_all and_then ignoring
read_all-read_sectors zero i vsb s b b' e = ground (arith, e)
read_all-read_sectors (suc n) i vsb s b b' e =
    go
      (mbr_read_block (vsb.dev) (vsb.mbr) (vsb.part_num) ((s + i) % 2 ^ 64) (vsb.dev.blk_size * i)
        b)
      refl (λ b1 h. read_all-read_sectors n (suc i) vsb s b1 b' h)
  where
    go :
        (o : Option (Bool × Buffer))
        → mbr_read_block
            (vsb.dev)
            (vsb.mbr)
            (vsb.part_num)
            ((s + i) % 2 ^ 64)
            (vsb.dev.blk_size * i)
            b
          ≡ o
        → ((b1 : Buffer)
            → read_sectors n (suc i) vsb s b1 ≡ some (true, b')
            → read_all n (suc i) (vsb.dev) (vsb.mbr) (vsb.part_num) s b1 ≡ some b')
        → read_all (suc n) i (vsb.dev) (vsb.mbr) (vsb.part_num) s b ≡ some b'
    go none q next = absurd (let e' = rw (read_sectors, q) at e in ground (arith, e'))
    go (some (false, b1)) q next = absurd (let e' = rw (read_sectors, q) at e in ground (arith, e'))
    go (some (true, b1)) q next = rw (read_all, q) (next b1 (rw (read_sectors, q) at e))

module _ (vsb : Ext2VfsSuperBlock) (sectors : ℕ → Buffer) (ok : IsPartition vsb sectors) where
  -- An inode of the disk: the one at the byte `at` of the table.
  abbrev pub InodeAt : (o : Option (Option Ext2VfsInode)) (table at inode_num : ℕ) → Type 0
  InodeAt o table at inode_num =
      (b : Buffer) × (o
        ≡ some (some (ext2_vfs_inode_init (ext2_inode b (at % vsb.block_size)) inode_num vsb)))
      × ((k : ℕ)
          → k < vsb.block_size
          → b k ≡ block_byte vsb sectors ok (table + at / vsb.block_size) k)

  pub read_from_table-InodeAt :
      (table index inode_num : ℕ) (fresh : Buffer)
      → 0 < vsb.block_size
      → let at = index * vsb.ext_sb.inode_size in
        at < 2 ^ 64
        → table + at / vsb.block_size < 2 ^ 64
        → InodeAt (read_from_table vsb table index inode_num fresh) table at inode_num
  unfolding read_from_table ext2_read_block
  read_from_table-InodeAt table index inode_num fresh p h1 h2 =
      let at = index * vsb.ext_sb.inode_size in
      let (b, e, image, rest) =
        ext2_read_block_lem vsb sectors ok (table + at / vsb.block_size) fresh in
      let pos = ok.some_bytes in
      let t1 : (vsb.block_size == 0) ≡ false = ground (arith, p) in
      let t2 : (vsb.dev.blk_size == 0) ≡ false = ground (arith, pos) in
      let m1 : at % 2 ^ 64 ≡ at = mod-eq_of_lt h1 in
      let m2 : (table + at / vsb.block_size) % 2 ^ 64 ≡ table + at / vsb.block_size =
        mod-eq_of_lt h2 in
      let e' = rw (ext2_read_block, t2) at e in
      (
        b,
        rw (read_from_table, m1, m2, t1, t2, read_all-read_sectors _ _ vsb _ fresh b e', m1) refl,
        image,
      )

  -- On a partition whose sectors can all be read, for an inode number from 1 to the number of
  -- inodes, which fits in 32 bits, whose group is there and where no product or sum wraps:
  -- `read_inode` gives the inode with the bytes of the table of its group, at its place in the
  -- group times the size of an inode.
  pub read_inode-InodeAt :
      (inode_num : ℕ) (fresh : Buffer)
      → 0 < inode_num
      → inode_num ≤ vsb.ext_sb.num_inodes
      → vsb.ext_sb.num_inodes < 2 ^ 32
      → 0 < vsb.ext_sb.num_group_inodes
      → (inode_num - 1) / vsb.ext_sb.num_group_inodes < vsb.num_groups
      → 0 < vsb.block_size
      → let at = (inode_num - 1) % vsb.ext_sb.num_group_inodes * vsb.ext_sb.inode_size in
        let table =
          (group_descriptor
            (vsb.grp_table)
            ((inode_num - 1) / vsb.ext_sb.num_group_inodes)).start_block_addr_inode_table in
        at < 2 ^ 64
        → table + at / vsb.block_size < 2 ^ 64
        → InodeAt (read_inode vsb inode_num fresh) table at inode_num
  unfolding read_inode
  read_inode-InodeAt inode_num fresh h0 h1 h2 h3 h4 h5 h6 h7 =
      let per = vsb.ext_sb.num_group_inodes in
      let w : (inode_num + (2 ^ 64 - 1)) % 2 ^ 64 ≡ inode_num - 1 = omega (arith, h0, h1, h2) in
      let t1 : ltb (vsb.ext_sb.num_inodes) inode_num ≡ false =
        le→ltb (vsb.ext_sb.num_inodes) inode_num h1 in
      let t2 : (per == 0) ≡ false = ground (arith, h3) in
      let t3 : leb (vsb.num_groups) ((inode_num - 1) / per) ≡ false = ground (arith, h4) in
      rw (read_inode, w, t1, t2, t3)
        (read_from_table-InodeAt
          ((group_descriptor (vsb.grp_table) ((inode_num - 1) / per)).start_block_addr_inode_table)
          ((inode_num - 1) % per) inode_num fresh h5 h6 h7)
