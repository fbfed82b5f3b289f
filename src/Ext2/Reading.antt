-- ===== src/Ext2/Reading.antt =====
-- Reading from a file at a block boundary, within the file.
use native.Mathlib.Nat.{mul-suc, div-add-mod, mod-lt}
use banj_os.Base.{
  ℕ, zero, suc, ◌+◌, ◌-◌, ◌*◌, ◌/◌, ◌%◌, ◌<◌, ◌≤◌, ◌≡◌, refl, ap, ◌∙◌, false, some, arith, ltb,
  ◌==◌, inl, inr, Bool-cases, ltb→lt, ltb→le,
}
use banj_os.Disk.{Buffer, store}
use banj_os.Ext2.{Ext2VfsInode}
use banj_os.Ext2.Sectors.{IsPartition}
use banj_os.Ext2.Lookup.{read_inode_block_lem}
use banj_os.Ext2.Files.{Reading, copy_chunk, read_loop, ext2_file_read}
use banj_os.Ext2.Chunks.{
  Copied, IsAligned, Ends, stopped, read_turn, block_of_file, last_chunk, full_chunk, copied,
  last-Copied, full-Copied, in_file,
}

module _ (inode : Ext2VfsInode) (sectors : ℕ → Buffer) (ok : IsPartition (inode.vsb) sectors)
    (pos : 0 < inode.vsb.block_size) where
  read_loop-stopped :
      (fuel len : ℕ) (fresh : Buffer) (r : Reading)
      → r.bytes_read ≡ len
      → Ends inode sectors ok pos (read_loop (suc fuel) inode len fresh r) len r
  read_loop-stopped fuel len fresh r e = (
    r,
    stopped inode sectors ok fuel len fresh r e,
    e,
    omega (arith, e),
    record {
      inside = λ m j l h. absurd (omega (arith, h, e));
      before = λ k h. refl;
      behind = λ k h. refl;
    },
  )

  read_loop-last :
      (fuel len : ℕ) (fresh : Buffer) (r : Reading)
      → IsAligned inode sectors ok len r
      → r.bytes_read < len
      → len ≤ r.bytes_read + inode.vsb.block_size
      → Ends inode sectors ok pos (read_loop (suc (suc fuel)) inode len fresh r) len r
  read_loop-last fuel len fresh r a h1 h2 =
      let w = in_file inode sectors ok pos len r a h1 in
      let (content, c, (image, _)) =
        read_inode_block_lem inode sectors ok (r.block) fresh (r.content_block)
          (block_of_file inode sectors ok pos len r a h1) in
      let step = read_turn inode sectors ok (suc fuel) len fresh r content h1 w c in
      let same =
        copied inode sectors ok pos (len - r.bytes_read) len content r
          (last_chunk inode sectors ok pos len r a h2) in
      let e : (copy_chunk inode len content r).bytes_read ≡ len =
        ap (λ r. r.bytes_read) same ∙ omega (arith, h1) in
      (
        copy_chunk inode len content r,
        step ∙ stopped inode sectors ok fuel len fresh (copy_chunk inode len content r) e,
        e,
        ap (λ r. r.cursor) same,
        rw same (last-Copied inode sectors ok pos len r content h1 h2 image),
      )

  -- After a whole block the loop goes on at the next boundary.
  full_turn :
      (fuel len : ℕ) (fresh : Buffer) (r : Reading)
      → IsAligned inode sectors ok len r
      → r.bytes_read + inode.vsb.block_size < len
      → (r1 : Reading) × (read_loop (suc fuel) inode len fresh r
          ≡ read_loop fuel inode len fresh r1)
        × IsAligned inode sectors ok len r1
        × (r1.bytes_read ≡ r.bytes_read + inode.vsb.block_size)
        × (r1.cursor ≡ r.cursor + inode.vsb.block_size)
        × ((d' : Buffer)
            → Copied inode sectors ok len (r1.bytes_read) (r1.block) (r1.dst) d'
            → Copied inode sectors ok len (r.bytes_read) (r.block) (r.dst) d')
  full_turn fuel len fresh r a h =
      let size = inode.vsb.block_size in
      let b = a.boundary in
      let w = a.within in
      let m = a.mapped in
      let less : r.bytes_read < len = omega (arith, h) in
      let (content, c, (image, _)) =
        read_inode_block_lem inode sectors ok (r.block) fresh (r.content_block)
          (block_of_file inode sectors ok pos len r a less) in
      let step =
        read_turn inode sectors ok fuel len fresh r content less
          (in_file inode sectors ok pos len r a less) c in
      let same =
        copied inode sectors ok pos size len content r
          (full_chunk inode sectors ok pos len r a h) in
      let one : r.block + 1 ≡ suc (r.block) = omega arith in
      (
        record {
          cursor = r.cursor + size;
          bytes_read = r.bytes_read + size;
          block = r.block + 1;
          content_block = content;
          dst = store size (r.bytes_read) (λ k. content (0 + k)) (r.dst);
        },
        step ∙ ap (λ r'. read_loop fuel inode len fresh r') same,
        record {
          boundary = rw one (simp mul-suc (omega (arith, b)));
          rest = omega (arith, h);
          within = omega (arith, w, h);
          mapped = omega (arith, m, h);
        },
        refl,
        refl,
        λ d' q. full-Copied inode sectors ok pos len r content d' h image q,
      )

  pub read_loop-Ends :
      (fuel len : ℕ) (fresh : Buffer) (r : Reading)
      → IsAligned inode sectors ok len r
      → len - r.bytes_read < fuel
      → Ends inode sectors ok pos (read_loop fuel inode len fresh r) len r
  read_loop-Ends zero len fresh r a h = absurd (omega (arith, h))
  read_loop-Ends (suc zero) len fresh r a h =
      let q = a.rest in read_loop-stopped zero len fresh r (omega (arith, h, q))
  read_loop-Ends (suc (suc fuel)) len fresh r a h = elim (Bool-cases (ltb (r.bytes_read) len)) [
    | inr n ↦
        let le = ltb→le (r.bytes_read) len n in
        let q = a.rest in read_loop-stopped (suc fuel) len fresh r (omega (arith, le, q))
    | inl y ↦ elim (Bool-cases (ltb (r.bytes_read + inode.vsb.block_size) len)) [
      | inl more ↦
          let less = ltb→lt _ len more in
          let (r1, e, a1, b1, c1, back) = full_turn (suc fuel) len fresh r a less in
          let (r', e', f, g, q) =
            read_loop-Ends (suc fuel) len fresh r1 a1 (omega (arith, b1, h, pos, less)) in
          (r', e ∙ e', f, g ∙ omega (arith, b1, c1, less), back (r'.dst) q)
      | inr last ↦ read_loop-last fuel len fresh r a (ltb→lt _ len y) (ltb→le _ len last)
    ]
  ]

  -- On a partition whose sectors can all be read, with blocks that are not empty and more fuel
  -- than `len`: a read of `len` bytes at a block boundary, where the bytes end within the file and
  -- within its direct and singly indirect blocks, returns `len`, moves the cursor by `len`, copies
  -- exactly those bytes of the file's blocks to `dst` and leaves the rest of `dst`.
  pub ext2_file_read_lem :
      (fuel cursor len : ℕ) (dst fresh : Buffer)
      → cursor % inode.vsb.block_size ≡ 0
      → cursor + len ≤ inode.st_size
      → cursor + len ≤ inode.vsb.block_size * (12 + inode.vsb.block_size / 4)
      → len < fuel
      → (dst' : Buffer) × (ext2_file_read fuel
            (record { inode = inode; cursor = cursor })
            dst
            len
            fresh
          ≡ some (len, record { inode = inode; cursor = cursor + len }, dst'))
        × Copied inode sectors ok len 0 (cursor / inode.vsb.block_size) dst dst'
  unfolding ext2_file_read
  ext2_file_read_lem fuel cursor len dst fresh h1 h2 h3 h4 =
      let size = inode.vsb.block_size in
      let split = div-add-mod cursor size in
      let ends = div-add-mod (inode.st_size + size - 1) size in
      let last = mod-lt (inode.st_size + size - 1) pos in
      let (r', e, f, g, c) =
        read_loop-Ends fuel len fresh
          (record {
            cursor = cursor;
            bytes_read = 0;
            block = cursor / size;
            content_block = fresh;
            dst = dst;
          })
          (record {
            boundary = omega (arith, split, h1);
            rest = omega arith;
            within = omega (arith, h2, ends, last);
            mapped = omega (arith, h3);
          })
          (omega (arith, h4)) in
      let test : (size == 0) ≡ false = ground (arith, pos) in
      let g' : r'.cursor ≡ cursor + len = g ∙ omega arith in
      (r'.dst, rw (ext2_file_read, test, e, f, g') refl, c)
