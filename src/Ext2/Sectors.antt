-- ===== src/Ext2/Sectors.antt =====
-- A block of an ext2 partition is read sector by sector.
use native.Mathlib.Nat.{mul-suc, mul-zero, div-add-mod, mod-lt, lt_of_mul-lt-mul_left}
use banj_os.Base.{
  ℕ, zero, suc, ◌+◌, ◌*◌, ◌/◌, ◌%◌, ◌^◌, ◌<◌, ◌≤◌, ◌≡◌, refl, ap, sym, ◌∙◌, true, false, some,
  arith, ◌==◌, lt→ltb,
}
use banj_os.Disk.{Buffer, store, read_into, mbr_read_block}
use banj_os.Ext2.{Ext2VfsSuperBlock, and_then, read_sectors, ext2_read_block}

-- A partition on a device whose every sector can be read, with blocks of whole sectors.
pub record IsPartition (vsb : Ext2VfsSuperBlock) (sectors : ℕ → Buffer) : Type 0 where
  pub reads : (n : ℕ) → vsb.dev.read_block n ≡ some (sectors n)
  pub some_bytes : 0 < vsb.dev.blk_size
  pub whole : vsb.block_size ≡ vsb.dev.blk_size * (vsb.block_size / vsb.dev.blk_size)
  pub number : vsb.part_num < 4

-- The sector of the device that is the sector `s` of the partition.
abbrev pub sector_of : Ext2VfsSuperBlock → ℕ → ℕ
sector_of vsb s = ((vsb.mbr.partitions (vsb.part_num)).first_sector_lba + s % 2 ^ 64) % 2 ^ 64

-- `n` sectors from the sector `s` on are in the buffer from `off` on, and the rest is as before.
pub record Filled (vsb : Ext2VfsSuperBlock) (sectors : ℕ → Buffer) (n s off : ℕ) (b b' : Buffer)
    : Type 0 where
  pub inside :
      (m j : ℕ)
      → m < n
      → j < vsb.dev.blk_size
      → b' (off + vsb.dev.blk_size * m + j) ≡ sectors (sector_of vsb (s + m)) j
  pub before : (k : ℕ) → k < off → b' k ≡ b k
  pub behind : (k : ℕ) → off + vsb.dev.blk_size * n ≤ k → b' k ≡ b k

module _ (vsb : Ext2VfsSuperBlock) (sectors : ℕ → Buffer) (ok : IsPartition vsb sectors) where
  one_sector :
      (s off : ℕ) (b : Buffer)
      → mbr_read_block (vsb.dev) (vsb.mbr) (vsb.part_num) (s % 2 ^ 64) off b
        ≡ some (true, store (vsb.dev.blk_size) off (sectors (sector_of vsb s)) b)
  unfolding mbr_read_block read_into
  one_sector s off b =
      let test = lt→ltb (vsb.part_num) 4 (ok.number) in
      rw (test, read_into, ok.reads (sector_of vsb s)) refl

  pub read_sectors-Filled :
      (n i s off : ℕ) (b : Buffer)
      → off ≡ vsb.dev.blk_size * i
      → (b' : Buffer) × (read_sectors n i vsb s b ≡ some (true, b'))
        × Filled vsb sectors n (s + i) off b b'
  unfolding read_sectors and_then
  read_sectors-Filled zero i s off b e = (
    b,
    refl,
    record {
      inside = λ m j h. absurd (omega (arith, h));
      before = λ k h. refl;
      behind = λ k h. refl;
    },
  )
  read_sectors-Filled (suc n) i s off b e =
      let size = vsb.dev.blk_size in
      let b1 = store size off (sectors (sector_of vsb (s + i))) b in
      let next : off + size ≡ size * suc i = simp mul-suc (omega (arith, e)) in
      let (b', r, f) = read_sectors-Filled n (suc i) s (off + size) b1 next in
      (
        b',
        rw (read_sectors, ← e, one_sector (s + i) off b) r,
        record {
          inside = λ m j h l. inside_go b' f m j h l;
          before = λ k h. f.before k (omega (arith, h)) ∙ ground (arith, h);
          behind = λ k h.
              let h' = simp mul-suc at h in f.behind k (omega (arith, h')) ∙ ground (arith, h');
        },
      )
    where
      inside_go :
          (b' : Buffer)
          → Filled vsb sectors n
              (s + suc i)
              (off + vsb.dev.blk_size)
              (store (vsb.dev.blk_size) off (sectors (sector_of vsb (s + i))) b)
              b'
          → (m j : ℕ) → m < suc n
          → j < vsb.dev.blk_size
          → b' (off + vsb.dev.blk_size * m + j) ≡ sectors (sector_of vsb (s + i + m)) j
      inside_go b' f zero j h l =
          let here : off + vsb.dev.blk_size * 0 + j ≡ off + j = simp mul-zero (omega arith) in
          let same : s + i + 0 ≡ s + i = omega arith in
          rw (here, same) (f.before (off + j) (omega (arith, l)) ∙ ground (arith, l))
      inside_go b' f (suc m) j h l =
          let here : off + vsb.dev.blk_size * suc m + j
              ≡ off + vsb.dev.blk_size + vsb.dev.blk_size * m + j =
            simp mul-suc (omega arith) in
          let same : s + i + suc m ≡ s + suc i + m = omega arith in
          rw (here, same) (f.inside m j (omega (arith, h)) l)

  -- The bytes of a block of the file system.
  abbrev pub block_byte : (block_num k : ℕ) → ℕ
  block_byte block_num k =
      let size = vsb.dev.blk_size in
      sectors (sector_of vsb (block_num * (vsb.block_size / size) % 2 ^ 64 + k / size)) (k % size)

  -- On a partition whose sectors can all be read, with blocks of whole sectors: reading a block
  -- succeeds, puts the bytes of the block's sectors at the start of the buffer and leaves the rest
  -- of the buffer.
  pub ext2_read_block_lem :
      (block_num : ℕ) (b : Buffer)
      → (b' : Buffer) × (ext2_read_block vsb block_num b ≡ some (true, b'))
        × ((k : ℕ) → k < vsb.block_size → b' k ≡ block_byte block_num k)
        × ((k : ℕ) → vsb.block_size ≤ k → b' k ≡ b k)
  unfolding ext2_read_block
  ext2_read_block_lem block_num b =
      let size = vsb.dev.blk_size in
      let pos = ok.some_bytes in
      let n = vsb.block_size / size in
      let s = block_num * n % 2 ^ 64 in
      let test : (size == 0) ≡ false = ground (arith, pos) in
      let (b', r, f) = read_sectors-Filled n 0 s 0 b (simp mul-zero refl) in
      let whole = ok.whole in
      (
        b',
        rw (ext2_read_block, test) r,
        λ k h.
            let split : 0 + size * (k / size) + k % size ≡ k = omega (arith, div-add-mod k size) in
            let less : k / size < n =
              lt_of_mul-lt-mul_left size
                (let d = div-add-mod k size in omega (arith, d, whole, h)) in
            ap b' (sym split)
            ∙ f.inside (k / size) (k % size) less (mod-lt k pos)
            ∙ (let same : s + 0 + k / size ≡ s + k / size = omega arith in rw same refl),
        λ k h. f.behind k (omega (arith, h, whole)),
      )
