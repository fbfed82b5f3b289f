-- ===== src/Ext2/FileBytes.antt =====
-- src/ext2.c: which bytes of a file a read gives, and a read at a block boundary.
use native.Mathlib.Nat.{mul-add-div, mul-add-mod_self_left, div-add-mod, mod-lt}
use banj_os.Base.{
  ℕ, ◌+◌, ◌-◌, ◌*◌, ◌/◌, ◌%◌, ◌<◌, ◌≤◌, ◌≡◌, refl, sym, ap, ◌∙◌, false, some, arith, ◌==◌,
  if◌then◌else◌,
}
use banj_os.Disk.{Buffer}
use banj_os.Ext2.{Ext2VfsInode}
use banj_os.Ext2.Sectors.{IsPartition}
use banj_os.Ext2.Files.{Reading, read_loop, ext2_file_read}
use banj_os.Ext2.Chunks.{Copied, file_byte, blocks_of}
use banj_os.Ext2.Amount.{amount, read_loop-amount}

-- How much is left of the block at the cursor, where the cursor is inside a block.
abbrev pub first : Ext2VfsInode → (cursor : ℕ) → ℕ
first inode cursor =
    if cursor % inode.vsb.block_size == 0
    then 0
    else inode.vsb.block_size - cursor % inode.vsb.block_size

module _ (inode : Ext2VfsInode) (sectors : ℕ → Buffer) (ok : IsPartition (inode.vsb) sectors)
    (pos : 0 < inode.vsb.block_size)
    (indexed : blocks_of inode ≤ 12 + inode.vsb.block_size / 4) where
  -- The byte of the file at a place.
  abbrev pub file_at : ℕ → ℕ
  file_at c = file_byte inode sectors ok (c / inode.vsb.block_size) (c % inode.vsb.block_size)

  -- The `n` bytes of the file from the cursor on stand in `dst'`, with the rest as in `dst`.
  abbrev pub IsRead : (cursor n : ℕ) (dst dst' : Buffer) → Type 0
  IsRead cursor n dst dst' =
      ((k : ℕ) → k < n → dst' k ≡ file_at (cursor + k)) × ((k : ℕ) → n ≤ k → dst' k ≡ dst k)

  pub Copied-file_at :
      (cursor n from block k : ℕ) (d d' : Buffer)
      → Copied inode sectors ok (from + n) from block d d'
      → cursor ≡ inode.vsb.block_size * block
      → k < n
      → d' (from + k) ≡ file_at (cursor + k)
  Copied-file_at cursor n from block k d d' c b h =
      let size = inode.vsb.block_size in
      let e = div-add-mod k size in
      let place : from + size * (k / size) + k % size ≡ from + k = omega (arith, e) in
      let q : (cursor + k) / size ≡ block + k / size =
        ap (λ c. (c + k) / size) b ∙ mul-add-div pos block k in
      let m : (cursor + k) % size ≡ k % size =
        ap (λ c. (c + k) % size) b ∙ mul-add-mod_self_left size block k in
      rw (q, m)
        (ap d' (sym place)
          ∙ c.inside (k / size) (k % size) (mod-lt k pos) (omega (arith, place, h)))

  -- From the loop to the call.
  pub read_of_loop :
      (fuel cursor len : ℕ) (dst fresh : Buffer) (r : Reading)
      → read_loop fuel inode len fresh (record {
        cursor = cursor;
        bytes_read = 0;
        block = cursor / inode.vsb.block_size;
        content_block = fresh;
        dst = dst;
      })
        ≡ some r
      → ext2_file_read fuel (record { inode = inode; cursor = cursor }) dst len fresh
        ≡ some (r.bytes_read, record { inode = inode; cursor = r.cursor }, r.dst)
  unfolding ext2_file_read
  read_of_loop fuel cursor len dst fresh r e =
      let test : (inode.vsb.block_size == 0) ≡ false = ground (arith, pos) in
      rw (ext2_file_read, test, e) refl

  abbrev pub Reads : (fuel cursor len n : ℕ) (dst fresh : Buffer) → Type 0
  Reads fuel cursor len n dst fresh =
      (dst' : Buffer) × (ext2_file_read fuel (record { inode = inode; cursor = cursor }) dst len
          fresh
        ≡ some (n, record { inode = inode; cursor = cursor + n }, dst'))
      × IsRead cursor n dst dst'

  pub reads :
      (fuel cursor len n : ℕ) (dst fresh : Buffer) (r : Reading)
      → read_loop fuel inode len fresh (record {
        cursor = cursor;
        bytes_read = 0;
        block = cursor / inode.vsb.block_size;
        content_block = fresh;
        dst = dst;
      })
        ≡ some r
      → r.bytes_read ≡ n
      → r.cursor ≡ cursor + n
      → IsRead cursor n dst (r.dst)
      → Reads fuel cursor len n dst fresh
  reads fuel cursor len n dst fresh r e f g i =
      (r.dst, rw (f, g) at (read_of_loop fuel cursor len dst fresh r e), i)

  pub at_boundary :
      (fuel cursor len : ℕ) (dst fresh : Buffer)
      → cursor % inode.vsb.block_size ≡ 0
      → cursor ≤ inode.st_size
      → len < fuel
      → Reads fuel cursor len (amount inode len cursor) dst fresh
  at_boundary fuel cursor len dst fresh h1 h2 h3 =
      let size = inode.vsb.block_size in
      let split = div-add-mod cursor size in
      let b : cursor ≡ size * (cursor / size) = omega (arith, split, h1) in
      let (r, e, f, g, c) =
        read_loop-amount inode sectors ok pos indexed fuel len fresh
          (record {
            cursor = cursor;
            bytes_read = 0;
            block = cursor / size;
            content_block = fresh;
            dst = dst;
          })
          b (omega arith) h2 (omega (arith, h3)) in
      let z : amount inode (len - 0) cursor ≡ amount inode len cursor =
        let e : len - 0 ≡ len = omega arith in ap (λ l. amount inode l cursor) e in
      reads fuel cursor len (amount inode len cursor) dst fresh r e (f ∙ (omega (arith, z)))
        (g ∙ ap (λ n. cursor + n) z)
        (
          λ k h.
              ap (r.dst) (omega arith)
              ∙ Copied-file_at cursor (amount inode (len - 0) cursor) 0 (cursor / size) k dst
                  (r.dst) c b (omega (arith, h, z)),
          λ k h. c.behind k (omega (arith, h, z)),
        )
