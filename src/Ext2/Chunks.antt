-- ===== src/Ext2/Chunks.antt =====
-- The chunks that a read from a file copies, at a block boundary.
use native.Mathlib.Nat.{
  mul-suc, mul-zero, lt_of_mul-lt-mul_left, mul-le-mul_left, mul-mod_right, div-add-mod,
}
use banj_os.Base.{
  ℕ, zero, suc, ◌+◌, ◌-◌, ◌*◌, ◌/◌, ◌%◌, ◌<◌, ◌≤◌, ◌≡◌, refl, ap, ◌∙◌, true, false, Option, some,
  arith, ltb, ◌==◌, lt→ltb, le→ltb, eq→==,
}
use banj_os.Disk.{Buffer, store}
use banj_os.Ext2.{Ext2VfsInode, read_inode_block}
use banj_os.Ext2.Sectors.{IsPartition, block_byte}
use banj_os.Ext2.Lookup.{file_block}
use banj_os.Ext2.Files.{Reading, chunk, copy_chunk, read_loop}

store_inside : (n off j : ℕ) (bytes b : Buffer) → j < n → store n off bytes b (off + j) ≡ bytes j
store_inside n off j bytes b h = let e : off + j - off ≡ j = omega arith in rw e (ground (arith, h))

-- The number of blocks that hold the file's bytes.
abbrev pub blocks_of : Ext2VfsInode → ℕ
blocks_of inode = (inode.st_size + inode.vsb.block_size - 1) / inode.vsb.block_size

-- A boundary before the end of the blocks is more than a block before it, or a block.
next_boundary : (size a b : ℕ) → size * a < size * b → size * a + size ≤ size * b
next_boundary size a b h =
    let l =
      mul-le-mul_left {m = suc a} {n = b} size
        (omega (arith, lt_of_mul-lt-mul_left size {m = a} {n = b} h)) in
    let e = mul-suc size a in omega (arith, l, e)

module _ (inode : Ext2VfsInode) (sectors : ℕ → Buffer) (ok : IsPartition (inode.vsb) sectors) where
  -- The byte `j` of the block `block` of the file.
  abbrev pub file_byte : (block j : ℕ) → ℕ
  file_byte block j = block_byte (inode.vsb) sectors ok (file_block inode sectors ok block) j

  -- The bytes of `dst` from `from` up to `len` come from the blocks from `block` on; those before and
  -- behind are as in `d`.
  pub record Copied (len from block : ℕ) (d d' : Buffer) : Type 0 where
    pub inside :
        (m j : ℕ)
        → j < inode.vsb.block_size
        → from + inode.vsb.block_size * m + j < len
        → d' (from + inode.vsb.block_size * m + j) ≡ file_byte (block + m) j
    pub before : (k : ℕ) → k < from → d' k ≡ d k
    pub behind : (k : ℕ) → len ≤ k → d' k ≡ d k

  -- At a block boundary, not behind `len`, with `len` within the blocks of the file.
  pub record IsAligned (len : ℕ) (r : Reading) : Type 0 where
    pub boundary : r.cursor ≡ inode.vsb.block_size * r.block
    pub rest : r.bytes_read ≤ len
    pub within : r.cursor + (len - r.bytes_read) ≤ inode.vsb.block_size * blocks_of inode
    pub mapped :
        r.cursor + (len - r.bytes_read) ≤ inode.vsb.block_size * (12 + inode.vsb.block_size / 4)

  pub stopped :
      (fuel len : ℕ) (fresh : Buffer) (r : Reading)
      → r.bytes_read ≡ len
      → read_loop (suc fuel) inode len fresh r ≡ some r
  unfolding read_loop
  stopped fuel len fresh r e =
      let t : ltb (r.bytes_read) len ≡ false = le→ltb (r.bytes_read) len (omega (arith, e)) in
      rw (read_loop, t) refl

  pub read_turn :
      (fuel len : ℕ) (fresh : Buffer) (r : Reading) (content : Buffer)
      → r.bytes_read < len
      → r.cursor < inode.st_size
      → read_inode_block inode (r.block) fresh (r.content_block) ≡ some content
      → read_loop (suc fuel) inode len fresh r
        ≡ read_loop fuel inode len fresh (copy_chunk inode len content r)
  unfolding read_loop
  read_turn fuel len fresh r content h1 h2 e =
      rw (read_loop, lt→ltb (r.bytes_read) len h1, lt→ltb (r.cursor) (inode.st_size) h2, e) refl

  module _ (pos : 0 < inode.vsb.block_size) where
    -- What the loop gives: the rest of `len`.
    abbrev pub Ends : Option Reading → (len : ℕ) → Reading → Type 0
    Ends o len r =
        (r' : Reading) × (o ≡ some r')
        × (r'.bytes_read ≡ len)
        × (r'.cursor ≡ r.cursor + (len - r.bytes_read))
        × Copied len (r.bytes_read) (r.block) (r.dst) (r'.dst)

    -- Of the last block of the file one byte at least is the file's.
    pub last_block : inode.vsb.block_size * blocks_of inode < inode.st_size + inode.vsb.block_size
    last_block =
        let e = div-add-mod (inode.st_size + inode.vsb.block_size - 1) (inode.vsb.block_size) in
        omega (arith, pos, e)

    pub in_file :
        (len : ℕ) (r : Reading) → IsAligned len r → r.bytes_read < len → r.cursor < inode.st_size
    in_file len r a h =
        let b = a.boundary in
        let w = a.within in
        let n =
          next_boundary (inode.vsb.block_size) (r.block) (blocks_of inode)
            (omega (arith, b, w, h)) in
        omega (arith, b, n, last_block)

    in_file_next :
        (len : ℕ) (r : Reading)
        → IsAligned len r
        → r.bytes_read + inode.vsb.block_size < len
        → r.cursor + inode.vsb.block_size < inode.st_size
    in_file_next len r a h =
        let size = inode.vsb.block_size in
        let b = a.boundary in
        let w = a.within in
        let e = mul-suc size (r.block) in
        let n = next_boundary size (suc (r.block)) (blocks_of inode) (omega (arith, b, w, h, e)) in
        omega (arith, b, n, e, last_block)

    pub block_of_file :
        (len : ℕ) (r : Reading)
        → IsAligned len r
        → r.bytes_read < len
        → r.block < 12 + inode.vsb.block_size / 4
    block_of_file len r a h =
        let b = a.boundary in
        let m = a.mapped in lt_of_mul-lt-mul_left (inode.vsb.block_size) (omega (arith, b, m, h))

    at_boundary :
        (len : ℕ) (r : Reading) → IsAligned len r → (r.cursor % inode.vsb.block_size == 0) ≡ true
    at_boundary len r a =
        rw (a.boundary) (eq→== _ 0 (mul-mod_right (inode.vsb.block_size) (r.block)))

    pub last_chunk :
        (len : ℕ) (r : Reading)
        → IsAligned len r
        → len ≤ r.bytes_read + inode.vsb.block_size
        → chunk inode len (r.cursor) (r.bytes_read) ≡ (0, len - r.bytes_read)
    unfolding chunk
    last_chunk len r a h = rw (at_boundary len r a) (ground (arith, h))

    pub full_chunk :
        (len : ℕ) (r : Reading)
        → IsAligned len r
        → r.bytes_read + inode.vsb.block_size < len
        → chunk inode len (r.cursor) (r.bytes_read) ≡ (0, inode.vsb.block_size)
    unfolding chunk
    full_chunk len r a h =
        let w = in_file_next len r a h in rw (at_boundary len r a) (ground (arith, h, w))

    pub copied :
        (n len : ℕ) (content : Buffer) (r : Reading)
        → chunk inode len (r.cursor) (r.bytes_read) ≡ (0, n)
        → copy_chunk inode len content r ≡ record {
          cursor = r.cursor + n;
          bytes_read = r.bytes_read + n;
          block = r.block + 1;
          content_block = content;
          dst = store n (r.bytes_read) (λ k. content (0 + k)) (r.dst);
        }
    unfolding copy_chunk
    copied n len content r e = rw (copy_chunk, e) refl

    -- The last chunk, out of the block `block`.
    pub last-Copied :
        (len : ℕ) (r : Reading) (content : Buffer)
        → r.bytes_read < len
        → len ≤ r.bytes_read + inode.vsb.block_size
        → ((k : ℕ) → k < inode.vsb.block_size → content k ≡ file_byte (r.block) k)
        → Copied len
            (r.bytes_read)
            (r.block)
            (r.dst)
            (store (len - r.bytes_read) (r.bytes_read) (λ k. content (0 + k)) (r.dst))
    last-Copied len r content h1 h2 image = record {
      inside = inside_go;
      before = λ k h. ground (arith, h);
      behind = λ k h. ground (arith, h, h1);
    }
      where
        inside_go :
            (m j : ℕ)
            → j < inode.vsb.block_size
            → r.bytes_read + inode.vsb.block_size * m + j < len
            → store
                (len - r.bytes_read)
                (r.bytes_read)
                (λ k. content (0 + k))
                (r.dst)
                (r.bytes_read + inode.vsb.block_size * m + j)
              ≡ file_byte (r.block + m) j
        inside_go zero j l h =
            let here : r.bytes_read + inode.vsb.block_size * 0 + j ≡ r.bytes_read + j =
              simp mul-zero (omega arith) in
            let same : r.block + 0 ≡ r.block = omega arith in
            let h' = rw here at h in
            let e : 0 + (r.bytes_read + j - r.bytes_read) ≡ j = omega arith in
            rw (here, same)
              (store_inside (len - r.bytes_read) (r.bytes_read) j (λ k. content (0 + k)) (r.dst)
                  (omega (arith, h'))
                ∙ (let z : 0 + j ≡ j = omega arith in ap content z)
                ∙ image j l)
        inside_go (suc m) j l h = absurd (let h' = simp mul-suc at h in omega (arith, h', h2))

    -- A whole block, and then the rest.
    pub full-Copied :
        (len : ℕ) (r : Reading) (content d' : Buffer)
        → r.bytes_read + inode.vsb.block_size < len
        → ((k : ℕ) → k < inode.vsb.block_size → content k ≡ file_byte (r.block) k)
        → Copied len
            (r.bytes_read + inode.vsb.block_size)
            (r.block + 1)
            (store (inode.vsb.block_size) (r.bytes_read) (λ k. content (0 + k)) (r.dst))
            d'
        → Copied len (r.bytes_read) (r.block) (r.dst) d'
    full-Copied len r content d' h1 image c = record {
      inside = inside_go;
      before = λ k h. c.before k (omega (arith, h)) ∙ ground (arith, h);
      behind = λ k h. c.behind k h ∙ ground (arith, h, h1);
    }
      where
        inside_go :
            (m j : ℕ)
            → j < inode.vsb.block_size
            → r.bytes_read + inode.vsb.block_size * m + j < len
            → d' (r.bytes_read + inode.vsb.block_size * m + j) ≡ file_byte (r.block + m) j
        inside_go zero j l h =
            let here : r.bytes_read + inode.vsb.block_size * 0 + j ≡ r.bytes_read + j =
              simp mul-zero (omega arith) in
            let same : r.block + 0 ≡ r.block = omega arith in
            rw (here, same)
              (c.before (r.bytes_read + j) (omega (arith, l))
                ∙ store_inside (inode.vsb.block_size) (r.bytes_read) j (λ k. content (0 + k))
                    (r.dst) l
                ∙ (let z : 0 + j ≡ j = omega arith in ap content z)
                ∙ image j l)
        inside_go (suc m) j l h =
            let here : r.bytes_read + inode.vsb.block_size * suc m + j
                ≡ r.bytes_read + inode.vsb.block_size + inode.vsb.block_size * m + j =
              simp mul-suc (omega arith) in
            let same : r.block + suc m ≡ r.block + 1 + m = omega arith in
            rw (here, same) (c.inside m j l (rw here at h))
