-- ===== src/Ext2/Files.antt =====
-- src/ext2.c: open files. The numbers that C keeps in an `int` stay below 2 ^ 31, and none is
-- negative.
use banj_os.Base.{
  ℕ, zero, suc, ◌+◌, ◌-◌, ◌/◌, ◌%◌, true, false, ◌&&◌, Option, none, some, ltb, leb, ◌==◌,
  if◌then◌else◌,
}
use banj_os.Disk.{Buffer, store}
use banj_os.Ext2.{Ext2VfsInode, read_inode_block}

pub record Ext2File : Type 0 where
  pub inode : Ext2VfsInode
  pub cursor : ℕ

abbrev pub ext2_file_open : Ext2VfsInode → Ext2File
ext2_file_open inode = record { inode = inode; cursor = 0 }

-- The local variables; `dst` has moved on by `bytes_read`.
pub record Reading : Type 0 where
  pub cursor : ℕ
  pub bytes_read : ℕ
  pub block : ℕ
  pub content_block : Buffer
  pub dst : Buffer

-- Where in the block the copy starts, and how much of it is copied.
unfoldable pub chunk : Ext2VfsInode → (len cursor bytes_read : ℕ) → ℕ × ℕ
chunk inode len cursor bytes_read =
    let size = inode.vsb.block_size in
    if cursor % size == 0
    then (if leb len (bytes_read + size)
        then (0, len - bytes_read)
        else (if leb (inode.st_size) (cursor + size)
            then (0, inode.st_size - cursor)
            else (0, size)))
    else (cursor % size, size - cursor % size)

-- The state after a copy out of the content of a block.
unfoldable pub copy_chunk : Ext2VfsInode → (len : ℕ) (content : Buffer) → Reading → Reading
copy_chunk inode len content r =
    let (start, copied) = chunk inode len (r.cursor) (r.bytes_read) in
    record {
      cursor = r.cursor + copied;
      bytes_read = r.bytes_read + copied;
      block = r.block + 1;
      content_block = content;
      dst = store copied (r.bytes_read) (λ k. content (start + k)) (r.dst);
    }

-- The loop of `ext2_file_read`; `none` is also the end of the fuel.
unfoldable pub read_loop :
    (fuel : ℕ) → Ext2VfsInode → (len : ℕ) (fresh : Buffer) → Reading → Option Reading
read_loop zero inode len fresh r = none
read_loop (suc fuel) inode len fresh r =
    elim (ltb (r.bytes_read) len && ltb (r.cursor) (inode.st_size)) [
      | true ↦ elim (read_inode_block inode (r.block) fresh (r.content_block)) [
        | none ↦ none
        | some content ↦ read_loop fuel inode len fresh (copy_chunk inode len content r)
      ]
      | false ↦ some r
    ]

-- The number of bytes read, the file after it, and the buffer `dst`.
unfoldable pub ext2_file_read :
    (fuel : ℕ)
    → Ext2File
    → (dst : Buffer) (len : ℕ) (fresh : Buffer) → Option (ℕ × Ext2File × Buffer)
ext2_file_read fuel file dst len fresh =
    let size = file.inode.vsb.block_size in
    if size == 0
    then none
    else elim (read_loop fuel (file.inode) len fresh (record {
      cursor = file.cursor;
      bytes_read = 0;
      block = file.cursor / size;
      content_block = fresh;
      dst = dst;
    })) [
      | none ↦ none
      | some r ↦ some (r.bytes_read, record { inode = file.inode; cursor = r.cursor }, r.dst)
    ]
