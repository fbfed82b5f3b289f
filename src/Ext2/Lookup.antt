-- ===== src/Ext2/Lookup.antt =====
-- Which block of the disk is a block of a file.
use native.Mathlib.Nat.{mod-lt}
use banj_os.Base.{
  ℕ, zero, suc, ◌+◌, ◌-◌, ◌*◌, ◌/◌, ◌%◌, ◌^◌, ◌<◌, ◌≤◌, ◌≡◌, refl, ◌∙◌, false, Option, some, arith,
  ltb, lt→ltb, le→ltb, if◌then◌else◌, inl, inr, Bool-cases, ltb→le,
}
use banj_os.Disk.{Buffer, le32}
use banj_os.Ext2.{
  Ext2VfsInode, ignoring, ext2_read_block, num_direct_blocks, read_direct, read_single, read_double,
  read_inode_block,
}
use banj_os.Ext2.Sectors.{IsPartition, block_byte, ext2_read_block_lem}

square_pos : (p off : ℕ) → off < p * p % 2 ^ 64 → 0 < p
square_pos zero off h = absurd (omega (arith, h))
square_pos (suc p) off h = omega arith

module _ (vino : Ext2VfsInode) (sectors : ℕ → Buffer) (ok : IsPartition (vino.vsb) sectors) where
  -- The buffer `b'` is `b` with a block of the disk in front.
  abbrev pub IsImage : (block_num : ℕ) (b b' : Buffer) → Type 0
  IsImage block_num b b' =
      ((k : ℕ) → k < vino.vsb.block_size → b' k ≡ block_byte (vino.vsb) sectors ok block_num k)
      × ((k : ℕ) → vino.vsb.block_size ≤ k → b' k ≡ b k)

  -- The entry `i` of a block of block numbers.
  abbrev pub entry : (block_num i : ℕ) → ℕ
  entry block_num i = le32 (block_byte (vino.vsb) sectors ok block_num) (4 * i)

  le32-IsImage :
      (block_num i : ℕ) (b b' : Buffer)
      → IsImage block_num b b'
      → i < vino.vsb.block_size / 4
      → le32 b' (4 * i) ≡ entry block_num i
  le32-IsImage block_num i b b' (image, rest) h =
      rw
        (
          image (4 * i) (omega (arith, h)),
          image (4 * i + 1) (omega (arith, h)),
          image (4 * i + 2) (omega (arith, h)),
          image (4 * i + 2 + 1) (omega (arith, h)),
        )
        refl

  -- A result that is the image of a block.
  abbrev pub Reads : Option Buffer → (block_num : ℕ) → Buffer → Type 0
  Reads o block_num b = (b' : Buffer) × (o ≡ some b') × IsImage block_num b b'

  -- What goes on with the block that is read.
  reading :
      {A : Type 0} (block_num : ℕ) (b : Buffer) (k : Buffer → Option A)
      → (b' : Buffer) × (ignoring (ext2_read_block (vino.vsb) block_num b) k ≡ k b')
        × IsImage block_num b b'
  unfolding ignoring
  reading block_num b k =
      let (b', r, inside, behind) = ext2_read_block_lem (vino.vsb) sectors ok block_num b in
      (b', rw (ignoring, r) refl, (inside, behind))

  pub reading-Reads :
      (block_num : ℕ) (b : Buffer)
      → Reads (ignoring (ext2_read_block (vino.vsb) block_num b) (λ d. some d)) block_num b
  reading-Reads block_num b = reading block_num b (λ d. some d)

  pub read_single-Reads :
      (block : ℕ) (fresh b : Buffer)
      → block - 12 < vino.vsb.block_size / 4
      → Reads
          (read_single vino block fresh b)
          (entry (vino.ext_in.singly_indirect_block) (block - 12))
          b
  unfolding read_single
  read_single-Reads block fresh b h =
      let s = vino.ext_in.singly_indirect_block in
      let (f, r, image) = reading s fresh (λ t.
        ignoring (ext2_read_block (vino.vsb) (le32 t (4 * (block - num_direct_blocks))) b)
          (λ d. some d)) in
      let (b', r', image') = reading-Reads (entry s (block - 12)) b in
      let same : le32 f (4 * (block - num_direct_blocks)) ≡ entry s (block - 12) =
        le32-IsImage s (block - 12) fresh f image h in
      (b', r ∙ rw same r', image')

  pub read_double-Reads :
      (off : ℕ) (fresh b : Buffer)
      → let per = vino.vsb.block_size / 4 in
        0 < per
        → Reads
            (read_double vino per off fresh b)
            (entry (vino.ext_in.singly_indirect_block) (off % per))
            b
  unfolding read_double
  read_double-Reads off fresh b h =
      let per = vino.vsb.block_size / 4 in
      let s = vino.ext_in.singly_indirect_block in
      let (f, r, image) = reading s fresh (λ t.
        ignoring (ext2_read_block (vino.vsb) (le32 t (4 * (off / per))) fresh) (λ t'.
          ignoring (ext2_read_block (vino.vsb) (le32 t (4 * (off % per))) b) (λ d. some d))) in
      let (f', r1, image1) =
        reading (le32 f (4 * (off / per))) fresh (λ t'.
          ignoring (ext2_read_block (vino.vsb) (le32 f (4 * (off % per))) b) (λ d. some d)) in
      let (b', r', image') = reading-Reads (entry s (off % per)) b in
      let same : le32 f (4 * (off % per)) ≡ entry s (off % per) =
        le32-IsImage s (off % per) fresh f image (mod-lt off h) in
      (b', r ∙ r1 ∙ rw same r', image')

  -- The block of the disk for a block of the file that is direct or singly indirect.
  abbrev pub file_block : ℕ → ℕ
  file_block block =
      if ltb block 12
      then vino.ext_in.direct_blocks block
      else entry (vino.ext_in.singly_indirect_block) (block - 12)

  -- On a partition whose sectors can all be read, for a block of a file with a number below 12
  -- plus the entries of a block: `read_inode_block` fills the buffer with the block of the disk
  -- that the inode's direct blocks name, or from the number 12 on its singly indirect block.
  pub read_inode_block_lem :
      (block : ℕ) (fresh dst : Buffer)
      → block < 12 + vino.vsb.block_size / 4
      → Reads (read_inode_block vino block fresh dst) (file_block block) dst
  unfolding read_inode_block read_direct
  read_inode_block_lem block fresh dst h = elim (Bool-cases (ltb block 12)) [
    | inl y ↦ rw y (reading-Reads (vino.ext_in.direct_blocks block) dst)
    | inr n ↦
        let past = ltb→le block 12 n in
        let less : block - 12 < vino.vsb.block_size / 4 = omega (arith, past, h) in
        let test = lt→ltb (block - 12) (vino.vsb.block_size / 4) less in
        rw (n, test) (read_single-Reads block fresh dst less)
  ]

  -- On such a partition, behind the singly indirect blocks: the block `12 + per + off` of a file,
  -- where `per` is the number of entries of a block and `off` is below its square, reads as the
  -- block `12 + off % per` of the file, whatever the doubly indirect block holds.
  pub read_inode_block-double :
      (off : ℕ) (fresh dst : Buffer)
      → let per = vino.vsb.block_size / 4 in
        off < per * per % 2 ^ 64
        → Reads (read_inode_block vino (12 + per + off) fresh dst) (file_block (12 + off % per)) dst
  unfolding read_inode_block
  read_inode_block-double off fresh dst h =
      let per = vino.vsb.block_size / 4 in
      let t1 : ltb (12 + per + off) 12 ≡ false = le→ltb (12 + per + off) 12 (omega arith) in
      let e : 12 + per + off - 12 ≡ per + off = omega arith in
      let t2 : ltb (per + off) per ≡ false = le→ltb (per + off) per (omega arith) in
      let e2 : per + off - per ≡ off = omega arith in
      let t3 = lt→ltb off (per * per % 2 ^ 64) h in
      let t4 : ltb (12 + off % per) 12 ≡ false = le→ltb (12 + off % per) 12 (omega arith) in
      let e3 : 12 + off % per - 12 ≡ off % per = omega arith in
      rw (read_inode_block, t1, e, t2, e2, t3, t4, e3)
        (read_double-Reads off fresh dst (square_pos per off h))
