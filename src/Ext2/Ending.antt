-- ===== src/Ext2/Ending.antt =====
-- src/ext2.c: a read from a file that reaches the end of the file.
use native.Mathlib.Nat.{mul-suc, mul-zero, add-mod_right}
use banj_os.Base.{
  ℕ, zero, suc, ◌+◌, ◌-◌, ◌*◌, ◌%◌, ◌<◌, ◌≤◌, ◌≡◌, refl, sym, ap, ◌∙◌, false, none, some, arith,
  ltb, leb, ◌&&◌, inl, inr, Bool-cases, Option-cases, ltb→lt, ltb→le, lt→ltb, eq→==, leb→le,
}
use banj_os.Disk.{Buffer}
use banj_os.Ext2.{Ext2VfsInode, read_inode_block}
use banj_os.Ext2.Sectors.{IsPartition}
use banj_os.Ext2.Files.{Reading, chunk, copy_chunk, read_loop}
use banj_os.Ext2.Chunks.{read_turn}

module _ (inode : Ext2VfsInode) where
  pub at_end :
      (fuel len : ℕ) (fresh : Buffer) (r : Reading)
      → inode.st_size ≤ r.cursor
      → read_loop (suc fuel) inode len fresh r ≡ some r
  unfolding read_loop
  at_end fuel len fresh r h =
      let t : (ltb (r.bytes_read) len && ltb (r.cursor) (inode.st_size)) ≡ false =
        ground (arith, h) in
      rw (read_loop, t) refl

  -- The last chunk of a file.
  end_chunk :
      (len cursor bytes_read : ℕ)
      → cursor % inode.vsb.block_size ≡ 0
      → bytes_read + inode.vsb.block_size < len
      → inode.st_size ≤ cursor + inode.vsb.block_size
      → chunk inode len cursor bytes_read ≡ (0, inode.st_size - cursor)
  unfolding chunk
  end_chunk len cursor bytes_read h1 h2 h3 = rw (eq→== _ 0 h1) (ground (arith, h2, h3))

  exact_chunk :
      (n cursor bytes_read : ℕ)
      → cursor % inode.vsb.block_size ≡ 0
      → n ≤ inode.vsb.block_size
      → chunk inode (bytes_read + n) cursor bytes_read ≡ (0, n)
  unfolding chunk
  exact_chunk n cursor bytes_read h1 h2 =
      let e : bytes_read + n - bytes_read ≡ n = omega arith in
      rw (eq→== _ 0 h1, e) (ground (arith, h2))

  whole_chunk :
      (len cursor bytes_read : ℕ)
      → cursor % inode.vsb.block_size ≡ 0
      → bytes_read + inode.vsb.block_size < len
      → cursor + inode.vsb.block_size < inode.st_size
      → chunk inode len cursor bytes_read ≡ (0, inode.vsb.block_size)
  unfolding chunk
  whole_chunk len cursor bytes_read h1 h2 h3 = rw (eq→== _ 0 h1) (ground (arith, h2, h3))

  copy_chunk_same :
      (len len' n : ℕ) (content : Buffer) (r : Reading)
      → chunk inode len (r.cursor) (r.bytes_read) ≡ (0, n)
      → chunk inode len' (r.cursor) (r.bytes_read) ≡ (0, n)
      → copy_chunk inode len content r ≡ copy_chunk inode len' content r
  unfolding copy_chunk
  copy_chunk_same len len' n content r h h' = rw (copy_chunk, h, h') refl

  copy_chunk_cursor :
      (len n : ℕ) (content : Buffer) (r : Reading)
      → chunk inode len (r.cursor) (r.bytes_read) ≡ (0, n)
      → ((copy_chunk inode len content r).cursor ≡ r.cursor + n)
        × ((copy_chunk inode len content r).bytes_read ≡ r.bytes_read + n)
        × ((copy_chunk inode len content r).block ≡ r.block + 1)
  unfolding copy_chunk
  copy_chunk_cursor len n content r h = rw (copy_chunk, h) (refl, refl, refl)

  failed_turn :
      (fuel len : ℕ) (fresh : Buffer) (r : Reading)
      → r.bytes_read < len
      → r.cursor < inode.st_size
      → read_inode_block inode (r.block) fresh (r.content_block) ≡ none
      → read_loop (suc fuel) inode len fresh r ≡ none
  unfolding read_loop
  failed_turn fuel len fresh r h1 h2 e =
      rw (read_loop, lt→ltb (r.bytes_read) len h1, lt→ltb (r.cursor) (inode.st_size) h2, e) refl

  at_end_same :
      (fuel len len' : ℕ) (fresh : Buffer) (r : Reading)
      → inode.st_size ≤ r.cursor
      → read_loop fuel inode len fresh r ≡ read_loop fuel inode len' fresh r
  unfolding read_loop
  at_end_same zero len len' fresh r h = refl
  at_end_same (suc fuel) len len' fresh r h =
      at_end fuel len fresh r h ∙ sym (at_end fuel len' fresh r h)

module _ (inode : Ext2VfsInode) (sectors : ℕ → Buffer) (ok : IsPartition (inode.vsb) sectors) where
  -- One turn of two loops that both go on, with the same chunk.
  same_turn :
      (fuel len len' : ℕ) (fresh : Buffer) (r : Reading)
      → r.bytes_read < len
      → r.bytes_read < len'
      → r.cursor < inode.st_size
      → ((content : Buffer)
          → read_loop fuel inode len fresh (copy_chunk inode len content r)
            ≡ read_loop fuel inode len' fresh (copy_chunk inode len' content r))
      → read_loop (suc fuel) inode len fresh r ≡ read_loop (suc fuel) inode len' fresh r
  same_turn fuel len len' fresh r h1 h2 h3 next =
      elim (Option-cases (read_inode_block inode (r.block) fresh (r.content_block))) [
        | inl e ↦
            failed_turn inode fuel len fresh r h1 h3 e
            ∙ sym (failed_turn inode fuel len' fresh r h2 h3 e)
        | inr (content, e) ↦
            read_turn inode sectors ok fuel len fresh r content h1 h3 e
            ∙ next content
            ∙ sym (read_turn inode sectors ok fuel len' fresh r content h2 h3 e)
      ]

  rest_end :
      (fuel len : ℕ) (fresh content : Buffer) (r : Reading)
      → r.cursor % inode.vsb.block_size ≡ 0
      → r.bytes_read + inode.vsb.block_size < len
      → r.cursor < inode.st_size
      → inode.st_size ≤ r.cursor + inode.vsb.block_size
      → let rest = r.bytes_read + (inode.st_size - r.cursor) in
        read_loop fuel inode len fresh (copy_chunk inode len content r)
        ≡ read_loop fuel inode rest fresh (copy_chunk inode rest content r)
  rest_end fuel len fresh content r h1 h2 h3 h4 =
      let left = inode.st_size - r.cursor in
      let rest = r.bytes_read + left in
      let c = end_chunk inode len (r.cursor) (r.bytes_read) h1 h2 h4 in
      let c' = exact_chunk inode left (r.cursor) (r.bytes_read) h1 (omega (arith, h4)) in
      let (moved, _, _) = copy_chunk_cursor inode rest left content r c' in
      ap (λ s. read_loop fuel inode len fresh s)
        (copy_chunk_same inode len rest left content r c c')
      ∙ at_end_same inode fuel len rest fresh (copy_chunk inode rest content r)
          (omega (arith, moved, h3))

  rest_whole :
      (fuel len : ℕ) (fresh content : Buffer) (r : Reading)
      → r.cursor % inode.vsb.block_size ≡ 0
      → r.bytes_read + inode.vsb.block_size < len
      → r.cursor + inode.vsb.block_size < inode.st_size
      → ((s : Reading)
          → s.cursor ≡ r.cursor + inode.vsb.block_size
          → s.bytes_read ≡ r.bytes_read + inode.vsb.block_size
          → read_loop fuel inode len fresh s
            ≡ read_loop fuel inode (s.bytes_read + (inode.st_size - s.cursor)) fresh s)
      → let rest = r.bytes_read + (inode.st_size - r.cursor) in
        read_loop fuel inode len fresh (copy_chunk inode len content r)
        ≡ read_loop fuel inode rest fresh (copy_chunk inode rest content r)
  rest_whole fuel len fresh content r h1 h2 h3 next =
      let size = inode.vsb.block_size in
      let rest = r.bytes_read + (inode.st_size - r.cursor) in
      let c = whole_chunk inode len (r.cursor) (r.bytes_read) h1 h2 h3 in
      let c' = whole_chunk inode rest (r.cursor) (r.bytes_read) h1 (omega (arith, h3)) h3 in
      let s = copy_chunk inode rest content r in
      let (moved, more, _) = copy_chunk_cursor inode rest size content r c' in
      let e : s.bytes_read + (inode.st_size - s.cursor) ≡ rest = omega (arith, moved, more, h3) in
      ap (λ s. read_loop fuel inode len fresh s)
        (copy_chunk_same inode len rest size content r c c')
      ∙ next s moved more
      ∙ ap (λ l. read_loop fuel inode l fresh s) e

  -- With more asked for than the `k` blocks that hold the rest of the file, the loop does what it
  -- does when just the rest is asked for.
  pub read_loop-rest :
      (fuel len k : ℕ) (fresh : Buffer) (r : Reading)
      → r.cursor % inode.vsb.block_size ≡ 0
      → inode.st_size - r.cursor ≤ inode.vsb.block_size * k
      → r.bytes_read + inode.vsb.block_size * k < len
      → read_loop fuel inode len fresh r
        ≡ read_loop fuel inode (r.bytes_read + (inode.st_size - r.cursor)) fresh r
  unfolding read_loop
  read_loop-rest zero len k fresh r h1 h2 h3 = refl
  read_loop-rest (suc fuel) len zero fresh r h1 h2 h3 =
      let z = mul-zero (inode.vsb.block_size) in
      at_end_same inode (suc fuel) len (r.bytes_read + (inode.st_size - r.cursor)) fresh r
        (omega (arith, h2, z))
  read_loop-rest (suc fuel) len (suc k) fresh r h1 h2 h3 =
      let size = inode.vsb.block_size in
      let rest = r.bytes_read + (inode.st_size - r.cursor) in
      let e = mul-suc size k in
      elim (Bool-cases (ltb (r.cursor) (inode.st_size))) [
        | inr n ↦ at_end_same inode (suc fuel) len rest fresh r (ltb→le _ _ n)
        | inl y ↦
            let before = ltb→lt _ _ y in
            same_turn fuel len rest fresh r (omega (arith, h3, e, before)) (omega (arith, before))
              before
              (λ content. elim (Bool-cases (leb (inode.st_size) (r.cursor + size))) [
                | inl l ↦
                    rest_end fuel len fresh content r h1 (omega (arith, h3, e)) before
                      (leb→le _ _ l)
                | inr m ↦
                    let more : r.cursor + size < inode.st_size = ground (arith, m) in
                    rest_whole fuel len fresh content r h1 (omega (arith, h3, e)) more
                      (λ s moved more'.
                        read_loop-rest fuel len k fresh s
                          (rw moved (add-mod_right (r.cursor) size ∙ h1))
                          (omega (arith, moved, h2, e)) (omega (arith, more', h3, e)))
              ])
      ]
