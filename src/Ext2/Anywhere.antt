-- ===== src/Ext2/Anywhere.antt =====
-- src/ext2.c: a read from a file at any place.
use native.Mathlib.Nat.{
  mul-suc, mul-add-div, mul-add-mod_self_left, div-add-mod, mod-lt, mod-eq_of_lt, div-eq_of_lt,
  lt_of_mul-lt-mul_left,
}
use mathlib.Core.Path.{subst}
use banj_os.Base.{
  ℕ, zero, suc, ◌+◌, ◌-◌, ◌*◌, ◌/◌, ◌%◌, ◌<◌, ◌≤◌, ◌≡◌, ◌≢◌, refl, sym, ap, ◌∙◌, false, some, arith,
  ltb, leb, ◌==◌, inl, inr, Bool-cases, ==→eq, ltb→lt, ltb→le,
}
use banj_os.Disk.{Buffer, store}
use banj_os.Ext2.{Ext2VfsInode}
use banj_os.Ext2.Sectors.{IsPartition}
use banj_os.Ext2.Lookup.{read_inode_block_lem}
use banj_os.Ext2.Files.{Reading, chunk, copy_chunk, read_loop, ext2_file_read}
use banj_os.Ext2.Chunks.{read_turn, Copied, file_byte, blocks_of}
use banj_os.Ext2.Amount.{amount, read_loop-amount, all_blocks}
use banj_os.Ext2.FileBytes.{first, file_at, IsRead, Copied-file_at, Reads, reads, at_boundary}

amount_after :
    (inode : Ext2VfsInode) (len cursor m : ℕ)
    → m ≤ len
    → cursor + m ≤ inode.st_size
    → m + amount inode (len - m) (cursor + m) ≡ amount inode len cursor
amount_after inode len cursor m h1 h2 =
    let e : cursor + m + (len - m) ≡ cursor + len = omega (arith, h1) in
    elim (Bool-cases (leb (cursor + len) (inode.vsb.block_size * blocks_of inode))) [
      | inl y ↦ rw (e, y) (omega (arith, h1))
      | inr past ↦ rw (e, past) (omega (arith, h2))
    ]

stored : (n k : ℕ) (bytes b : Buffer) → k < n → store n 0 bytes b k ≡ bytes k
stored n k bytes b h = let e : k - 0 ≡ k = omega arith in rw e (ground (arith, h))

module _ (inode : Ext2VfsInode) (sectors : ℕ → Buffer) (ok : IsPartition (inode.vsb) sectors)
    (pos : 0 < inode.vsb.block_size)
    (indexed : blocks_of inode ≤ 12 + inode.vsb.block_size / 4) where
  -- The first turn inside a block: the state it leaves.
  abbrev begun : (cursor : ℕ) (dst content : Buffer) → Reading
  begun cursor dst content =
      let size = inode.vsb.block_size in
      let n = size - cursor % size in
      record {
        cursor = cursor + n;
        bytes_read = n;
        block = cursor / size + 1;
        content_block = content;
        dst = store n 0 (λ k. content (cursor % size + k)) dst;
      }

  begun_lem :
      (len cursor : ℕ) (dst fresh content : Buffer)
      → cursor % inode.vsb.block_size ≢ 0
      → copy_chunk inode len content (record {
        cursor = cursor;
        bytes_read = 0;
        block = cursor / inode.vsb.block_size;
        content_block = fresh;
        dst = dst;
      })
        ≡ begun cursor dst content
  unfolding copy_chunk chunk
  begun_lem len cursor dst fresh content h =
      let t : (cursor % inode.vsb.block_size == 0) ≡ false = ground (arith, h) in
      let z : 0 + (inode.vsb.block_size - cursor % inode.vsb.block_size)
          ≡ inode.vsb.block_size - cursor % inode.vsb.block_size =
        omega arith in
      rw (copy_chunk, chunk, t, z) refl

  -- What a byte of the block at the cursor is of the file.
  in_block :
      (cursor k : ℕ)
      → k < inode.vsb.block_size - cursor % inode.vsb.block_size
      → file_at inode sectors ok pos indexed (cursor + k)
        ≡ file_byte inode sectors ok
            (cursor / inode.vsb.block_size)
            (cursor % inode.vsb.block_size + k)
  in_block cursor k h =
      let size = inode.vsb.block_size in
      let q = cursor / size in
      let m = cursor % size in
      let split = div-add-mod cursor size in
      let e : cursor + k ≡ size * q + (m + k) = omega (arith, split) in
      let small : m + k < size = omega (arith, h) in
      let none_more : (m + k) / size ≡ 0 = div-eq_of_lt small in
      let d : (cursor + k) / size ≡ q =
        ap (λ c. c / size) e ∙ mul-add-div pos q (m + k) ∙ omega (arith, none_more) in
      let r : (cursor + k) % size ≡ m + k =
        ap (λ c. c % size) e ∙ mul-add-mod_self_left size q (m + k) ∙ mod-eq_of_lt small in
      rw (d, r) refl

  begun-IsRead :
      (cursor n : ℕ) (dst content d' : Buffer)
      → let size = inode.vsb.block_size in
        let m = size - cursor % size in
        ((k : ℕ) → k < size → content k ≡ file_byte inode sectors ok (cursor / size) k)
        → Copied inode sectors ok (m + n) m (cursor / size + 1) ((begun cursor dst content).dst) d'
        → cursor + m ≡ size * (cursor / size + 1)
        → IsRead inode sectors ok pos indexed cursor (m + n) dst d'
  begun-IsRead cursor n dst content d' image c b = (inside_go, behind_go)
    where
      inside_go :
          (k : ℕ)
          → k < inode.vsb.block_size - cursor % inode.vsb.block_size + n
          → d' k ≡ file_at inode sectors ok pos indexed (cursor + k)
      inside_go k h =
          let size = inode.vsb.block_size in
          let m = size - cursor % size in
          elim (Bool-cases (ltb k m)) [
            | inl y ↦
                let l = ltb→lt k m y in
                c.before k l
                ∙ stored m k (λ k. content (cursor % size + k)) dst l
                ∙ image (cursor % size + k) (omega (arith, l))
                ∙ sym (in_block cursor k l)
            | inr past ↦
                let g = ltb→le k m past in
                let e : m + (k - m) ≡ k = omega (arith, g) in
                let e' : cursor + m + (k - m) ≡ cursor + k = omega (arith, g) in
                ap d' (sym e)
                ∙ Copied-file_at inode sectors ok pos indexed (cursor + m) n m (cursor / size + 1)
                    (k - m) ((begun cursor dst content).dst) d' c b (omega (arith, h, g))
                ∙ ap (file_at inode sectors ok pos indexed) e'
          ]

      behind_go :
          (k : ℕ) → inode.vsb.block_size - cursor % inode.vsb.block_size + n ≤ k → d' k ≡ dst k
      behind_go k h = c.behind k h ∙ ground (arith, h)

  inside_block :
      (fuel cursor len : ℕ) (dst fresh : Buffer)
      → let m = inode.vsb.block_size - cursor % inode.vsb.block_size in
        cursor % inode.vsb.block_size ≢ 0
        → m ≤ len
        → cursor + m ≤ inode.st_size
        → len < suc fuel
        → Reads inode sectors ok pos indexed
            (suc fuel)
            cursor
            len
            (m + amount inode (len - m) (cursor + m))
            dst
            fresh
  inside_block fuel cursor len dst fresh h1 h2 h3 h4 =
      let size = inode.vsb.block_size in
      let q = cursor / size in
      let m = size - cursor % size in
      let split = div-add-mod cursor size in
      let small = mod-lt cursor pos in
      let blocks = all_blocks inode sectors ok pos indexed in
      let here : q < blocks_of inode =
        lt_of_mul-lt-mul_left size (omega (arith, split, h3, small, blocks)) in
      let (content, c, (image, _)) =
        read_inode_block_lem inode sectors ok q fresh fresh (omega (arith, here, indexed)) in
      let step =
        read_turn inode sectors ok fuel len fresh
          (record { cursor = cursor; bytes_read = 0; block = q; content_block = fresh; dst = dst })
          content (omega (arith, h2, small)) (omega (arith, h3, small)) c in
      let begin = begun cursor dst content in
      let b : cursor + m ≡ size * (q + 1) =
        let one : q + 1 ≡ suc q = omega arith in
        let e = mul-suc size q in rw one (omega (arith, e, split, small)) in
      let (r, e, f, g, copied) =
        read_loop-amount inode sectors ok pos indexed fuel len fresh begin b h2 h3
          (omega (arith, h4, small)) in
      reads inode sectors ok pos indexed (suc fuel) cursor len
        (m + amount inode (len - m) (cursor + m)) dst fresh r
        (step
          ∙ ap (λ s. read_loop fuel inode len fresh s) (begun_lem len cursor dst fresh content h1)
          ∙ e)
        f (omega (arith, g))
        (begun-IsRead cursor (amount inode (len - m) (cursor + m)) dst content (r.dst) image copied
          b)

  -- On a partition whose sectors can all be read, with blocks that are not empty, a file whose blocks
  -- are direct or singly indirect, and more fuel than `len`: a read of `len` bytes at a cursor where
  -- neither `len` nor the file ends before the next boundary returns `amount`, which is `len` if the
  -- blocks of the file hold that many bytes, even where the file itself ends before them in its last
  -- block, and else what is left of the file. So many bytes of the file's blocks from the cursor on
  -- stand in `dst`, with the rest of `dst` as before, and the cursor has moved by as much.
  pub ext2_file_read-IsRead :
      (fuel cursor len : ℕ) (dst fresh : Buffer)
      → first inode cursor ≤ len
      → cursor + first inode cursor ≤ inode.st_size
      → len < fuel
      → (dst' : Buffer) × (ext2_file_read fuel
            (record { inode = inode; cursor = cursor })
            dst
            len
            fresh
          ≡ some (
            amount inode len cursor,
            record { inode = inode; cursor = cursor + amount inode len cursor },
            dst',
          ))
        × IsRead inode sectors ok pos indexed cursor (amount inode len cursor) dst dst'
  ext2_file_read-IsRead zero cursor len dst fresh h1 h2 h3 = absurd (omega (arith, h3))
  ext2_file_read-IsRead (suc fuel) cursor len dst fresh h1 h2 h3 =
      elim (Bool-cases (cursor % inode.vsb.block_size == 0)) [
        | inl y ↦
            let h2' = rw y at h2 in
            at_boundary inode sectors ok pos indexed (suc fuel) cursor len dst fresh (==→eq _ 0 y)
              (omega (arith, h2')) h3
        | inr n ↦
            let m = inode.vsb.block_size - cursor % inode.vsb.block_size in
            let inside : cursor % inode.vsb.block_size ≢ 0 = ground (arith, n) in
            let h1' : m ≤ len = rw n at h1 in
            let h2' : cursor + m ≤ inode.st_size = rw n at h2 in
            subst (λ n. Reads inode sectors ok pos indexed (suc fuel) cursor len n dst fresh)
              (amount_after inode len cursor m h1' h2')
              (inside_block fuel cursor len dst fresh inside h1' h2' h3)
      ]
