-- ===== src/Ext2/Overrun.antt =====
-- A read of less than a block.
use banj_os.Base.{
  ℕ, suc, ◌+◌, ◌-◌, ◌/◌, ◌%◌, ◌<◌, ◌≤◌, ◌≡◌, refl, ◌∙◌, true, false, some, arith, leb, ◌==◌, le→ltb,
  if◌then◌else◌, inl, inr, Bool-cases,
}
use banj_os.Disk.{Buffer}
use banj_os.Ext2.{Ext2VfsInode}
use banj_os.Ext2.Sectors.{IsPartition}
use banj_os.Ext2.Lookup.{read_inode_block_lem}
use banj_os.Ext2.Files.{Ext2File, Reading, chunk, copy_chunk, read_loop, ext2_file_read}
use banj_os.Ext2.Chunks.{read_turn}

module _ (inode : Ext2VfsInode) where
  chunk_count :
      (len cursor : ℕ)
      → let size = inode.vsb.block_size in
        len + cursor % size ≤ size
        → (chunk inode len cursor 0).1 ≡ (if cursor % size == 0 then len else size - cursor % size)
  unfolding chunk
  chunk_count len cursor h = elim (Bool-cases (cursor % inode.vsb.block_size == 0)) [
    | inl y ↦
        let fits : leb len (0 + inode.vsb.block_size) ≡ true = ground (arith, h) in
        rw (y, fits) (omega arith)
    | inr n ↦ rw n refl
  ]

  ended :
      (fuel len : ℕ) (fresh : Buffer) (r : Reading)
      → len ≤ r.bytes_read
      → read_loop (suc fuel) inode len fresh r ≡ some r
  unfolding read_loop
  ended fuel len fresh r h = rw (read_loop, le→ltb (r.bytes_read) len h) refl

  copied_count :
      (len : ℕ) (content : Buffer) (r : Reading)
      → (copy_chunk inode len content r).bytes_read
        ≡ r.bytes_read + (chunk inode len (r.cursor) (r.bytes_read)).1
  unfolding copy_chunk
  copied_count len content r = refl

-- On a partition whose sectors can all be read, with fuel for two turns: a read of some bytes that
-- the block at the cursor can serve, with the cursor within the file and the block direct or
-- singly indirect, returns `len` at a block boundary, whatever is left of the file, and elsewhere
-- all that is left of the block, whatever `len` is.
pub ext2_file_read-one_chunk :
    (inode : Ext2VfsInode) (sectors : ℕ → Buffer)
    → IsPartition (inode.vsb) sectors
    → (fuel cursor len : ℕ) (dst fresh : Buffer)
    → let size = inode.vsb.block_size in
      0 < len
      → cursor < inode.st_size
      → cursor / size < 12 + size / 4
      → len + cursor % size ≤ size
      → (file : Ext2File) × (dst' : Buffer) × (ext2_file_read
            (suc (suc fuel))
            (record { inode = inode; cursor = cursor })
            dst
            len
            fresh
          ≡ some (if cursor % size == 0 then len else size - cursor % size, file, dst'))
unfolding ext2_file_read
ext2_file_read-one_chunk inode sectors ok fuel cursor len dst fresh h1 h2 h3 h4 =
    let size = inode.vsb.block_size in
    let r : Reading = record {
      cursor = cursor;
      bytes_read = 0;
      block = cursor / size;
      content_block = fresh;
      dst = dst;
    } in
    let (content, c, image) =
      read_inode_block_lem inode sectors ok (cursor / size) fresh fresh h3 in
    let step = read_turn inode sectors ok (suc fuel) len fresh r content h1 h2 c in
    let r1 = copy_chunk inode len content r in
    let count : r1.bytes_read ≡ (if cursor % size == 0 then len else size - cursor % size) =
      copied_count inode len content r ∙ (omega arith) ∙ chunk_count inode len cursor h4 in
    let enough : len ≤ r1.bytes_read = rw count (ground (arith, h4)) in
    let test : (size == 0) ≡ false = ground (arith, h1, h4) in
    (
      record { inode = inode; cursor = r1.cursor },
      r1.dst,
      rw (ext2_file_read, test, step, ended inode fuel len fresh r1 enough, count) refl,
    )
