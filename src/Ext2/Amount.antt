-- ===== src/Ext2/Amount.antt =====
-- src/ext2.c: how much a read from a file at a block boundary gives.
use native.Mathlib.Nat.{mul-sub, mul-le-mul_left, mul-mod_right, div-add-mod, mod-lt}
use mathlib.Core.Path.{subst}
use banj_os.Base.{
  ℕ, ◌+◌, ◌-◌, ◌*◌, ◌/◌, ◌%◌, ◌<◌, ◌≤◌, ◌≡◌, sym, ap, ◌∙◌, Option, some, arith, leb, inl, inr,
  Bool-cases, leb→le, if◌then◌else◌,
}
use banj_os.Disk.{Buffer}
use banj_os.Ext2.{Ext2VfsInode}
use banj_os.Ext2.Sectors.{IsPartition}
use banj_os.Ext2.Files.{Reading, read_loop}
use banj_os.Ext2.Chunks.{Copied, blocks_of}
use banj_os.Ext2.Reading.{read_loop-Ends}
use banj_os.Ext2.Ending.{read_loop-rest}

-- How many bytes a read of `len` bytes at a boundary gives: all of them if the blocks of the file
-- hold that many, also behind the end of the file in its last block, else those up to this end.
abbrev pub amount : Ext2VfsInode → (len cursor : ℕ) → ℕ
amount inode len cursor =
    if leb (cursor + len) (inode.vsb.block_size * blocks_of inode)
    then len
    else inode.st_size - cursor

module _ (inode : Ext2VfsInode) (sectors : ℕ → Buffer) (ok : IsPartition (inode.vsb) sectors)
    (pos : 0 < inode.vsb.block_size)
    (indexed : blocks_of inode ≤ 12 + inode.vsb.block_size / 4) where
  -- What the loop gives at a boundary in the file.
  abbrev pub Gives : Option Reading → (n : ℕ) → Reading → Type 0
  Gives o n r =
      (r' : Reading) × (o ≡ some r')
      × (r'.bytes_read ≡ r.bytes_read + n)
      × (r'.cursor ≡ r.cursor + n)
      × Copied inode sectors ok (r.bytes_read + n) (r.bytes_read) (r.block) (r.dst) (r'.dst)

  all_indexed :
      inode.vsb.block_size * blocks_of inode
      ≤ inode.vsb.block_size * (12 + inode.vsb.block_size / 4)
  all_indexed = mul-le-mul_left (inode.vsb.block_size) indexed

  pub all_blocks : inode.st_size ≤ inode.vsb.block_size * blocks_of inode
  all_blocks =
      let size = inode.vsb.block_size in
      let e = div-add-mod (inode.st_size + size - 1) size in
      let m = mod-lt (inode.st_size + size - 1) pos in omega (arith, e, m, pos)

  read_loop-within :
      (fuel n : ℕ) (fresh : Buffer) (r : Reading)
      → r.cursor ≡ inode.vsb.block_size * r.block
      → r.cursor + n ≤ inode.vsb.block_size * blocks_of inode
      → n < fuel
      → Gives (read_loop fuel inode (r.bytes_read + n) fresh r) n r
  read_loop-within fuel n fresh r b w h =
      let (r', e, f, g, c) =
        read_loop-Ends inode sectors ok pos fuel (r.bytes_read + n) fresh r
          (record {
            boundary = b;
            rest = omega arith;
            within = omega (arith, w);
            mapped = omega (arith, w, all_indexed);
          })
          (omega (arith, h)) in
      (r', e, f, omega (arith, g), c)

  pub read_loop-amount :
      (fuel len : ℕ) (fresh : Buffer) (r : Reading)
      → r.cursor ≡ inode.vsb.block_size * r.block
      → r.bytes_read ≤ len
      → r.cursor ≤ inode.st_size
      → len - r.bytes_read < fuel
      → Gives (read_loop fuel inode len fresh r) (amount inode (len - r.bytes_read) (r.cursor)) r
  read_loop-amount fuel len fresh r b h1 h2 h3 =
      let size = inode.vsb.block_size in
      let n = len - r.bytes_read in
      let left = inode.st_size - r.cursor in
      elim (Bool-cases (leb (r.cursor + n) (size * blocks_of inode))) [
        | inl y ↦
            let e : r.bytes_read + n ≡ len = omega (arith, h1) in
            rw y (
              subst (λ l. Gives (read_loop fuel inode l fresh r) n r) e
                (read_loop-within fuel n fresh r b (leb→le _ _ y) h3))
        | inr past ↦
            let m = mul-sub size (blocks_of inode) (r.block) in
            let more : size * blocks_of inode < r.cursor + n = ground (arith, past) in
            let zero_mod : r.cursor % size ≡ 0 =
              ap (λ c. c % size) b ∙ mul-mod_right size (r.block) in
            let same =
              read_loop-rest inode sectors ok fuel len (blocks_of inode - r.block) fresh r zero_mod
                (omega (arith, m, b, all_blocks)) (omega (arith, m, b, more, h1, h2, all_blocks)) in
            rw past (
              subst (λ o. Gives o left r) (sym same)
                (read_loop-within fuel left fresh r b (omega (arith, h2, all_blocks))
                  (omega (arith, h3, more, all_blocks))))
      ]
