-- ===== src/Start/Turns.antt =====
-- src/kmain.c: the reads of the loop that takes the digest of a file.
use banj_os.Base.{
  ℕ, zero, suc, ◌+◌, ◌-◌, ◌/◌, ◌%◌, ◌<◌, ◌≤◌, ◌≡◌, refl, sym, ap, ◌∙◌, some, arith, leb, [], ◌∷◌,
  ◌++◌, ◌⊎◌, inl, inr, Bool-cases, leb→le, if◌then◌else◌,
}
use banj_os.Disk.{Buffer}
use banj_os.Ext2.{Ext2VfsInode}
use banj_os.Ext2.Sectors.{IsPartition}
use banj_os.Ext2.Files.{Ext2File, ext2_file_read}
use banj_os.Ext2.Chunks.{blocks_of, last_block}
use banj_os.Ext2.Amount.{amount, all_blocks}
use banj_os.Ext2.Ending.{at_end}
use banj_os.Ext2.FileBytes.{first, read_of_loop}
use banj_os.Start.{bytes_from, chunk_len}

pub bytes_from-same :
    (n i j : ℕ) (f g : ℕ → ℕ)
    → ((k : ℕ) → k < n → f (i + k) ≡ g (j + k))
    → bytes_from n i f ≡ bytes_from n j g
unfolding bytes_from
bytes_from-same zero i j f g h = refl
bytes_from-same (suc n) i j f g h =
    let a : i + 0 ≡ i = omega arith in
    let b : j + 0 ≡ j = omega arith in
    let e : f i ≡ g j = ap f (sym a) ∙ h 0 (omega arith) ∙ ap g b in
    let rest = bytes_from-same n (suc i) (suc j) f g (λ k l.
      let a' : suc i + k ≡ i + suc k = omega arith in
      let b' : suc j + k ≡ j + suc k = omega arith in
      ap f a' ∙ h (suc k) (omega (arith, l)) ∙ ap g (sym b')) in
    rw (e, rest) refl

pub no_bytes : (i : ℕ) (f : ℕ → ℕ) → bytes_from 0 i f ≡ []
unfolding bytes_from
no_bytes i f = refl

pub bytes_from-append :
    (m n i : ℕ) (f : ℕ → ℕ) → bytes_from m i f ++ bytes_from n (i + m) f ≡ bytes_from (m + n) i f
unfolding bytes_from
bytes_from-append zero n i f =
    let a : i + 0 ≡ i = omega arith in let b : 0 + n ≡ n = omega arith in rw (a, b) refl
bytes_from-append (suc m) n i f =
    let a : suc m + n ≡ suc (m + n) = omega arith in
    let b : i + suc m ≡ suc i + m = omega arith in
    rw (a, b) (ap (λ l. f i ∷ l) (bytes_from-append m n (suc i) f))

module _ (inode : Ext2VfsInode) (sectors : ℕ → Buffer) (ok : IsPartition (inode.vsb) sectors)
    (pos : 0 < inode.vsb.block_size)
    (indexed : blocks_of inode ≤ 12 + inode.vsb.block_size / 4) where
  -- What is left of the file behind the cursor, after whole chunks, is nothing, or is at least a
  -- block and leaves at least a block of a chunk.
  abbrev pub Suits : (left : ℕ) → Type 0
  Suits left =
      (left % 7000 ≡ 0)
      ⊎ ((inode.vsb.block_size ≤ left % 7000) × (left % 7000 + inode.vsb.block_size ≤ 7000))

  abbrev pub file : (cursor : ℕ) → Ext2File
  file cursor = record { inode = inode; cursor = cursor }

  pub read_at_end :
      (fuel : ℕ) (fresh : Buffer)
      → ext2_file_read (suc fuel) (file (inode.st_size)) fresh chunk_len fresh
        ≡ some (0, file (inode.st_size), fresh)
  read_at_end fuel fresh =
      read_of_loop inode sectors ok pos indexed (suc fuel) (inode.st_size) chunk_len fresh fresh
        (record {
          cursor = inode.st_size;
          bytes_read = 0;
          block = inode.st_size / inode.vsb.block_size;
          content_block = fresh;
          dst = fresh;
        })
        (at_end inode fuel chunk_len fresh
          (record {
            cursor = inode.st_size;
            bytes_read = 0;
            block = inode.st_size / inode.vsb.block_size;
            content_block = fresh;
            dst = fresh;
          })
          (omega arith))

  pub first_le : (cursor : ℕ) → first inode cursor ≤ inode.vsb.block_size
  first_le cursor = ground arith

  -- How much a read of the loop gives.
  abbrev pub turn_len : (left : ℕ) → ℕ
  turn_len left = if leb 7000 left then 7000 else left

  pub amount_of_turn :
      (cursor : ℕ)
      → cursor ≤ inode.st_size
      → inode.vsb.block_size ≤ 7000
      → Suits (inode.st_size - cursor)
      → amount inode chunk_len cursor ≡ turn_len (inode.st_size - cursor)
  amount_of_turn cursor h1 h2 s =
      let below = all_blocks inode sectors ok pos indexed in
      let above = last_block inode sectors ok pos in
      elim s [
        | inl e ↦ ground (arith, below, above, h1, h2, e)
        | inr e ↦ ground (arith, below, above, h1, h2, e.0, e.1)
      ]

  pub room :
      (left : ℕ) → inode.vsb.block_size ≤ 7000 → Suits left → 0 < left → inode.vsb.block_size ≤ left
  room left h s p = elim s [
    | inl e ↦ omega (arith, h, e, p)
    | inr e ↦ omega (arith, h, e.0, e.1, p)
  ]

  pub Suits-rest : (left : ℕ) → Suits left → Suits (left - turn_len left)
  Suits-rest left s = elim (Bool-cases (leb 7000 left)) [
    | inl y ↦
        let l = leb→le 7000 left y in
        let e : (left - 7000) % 7000 ≡ left % 7000 = omega (arith, l) in rw y (rw e s)
    | inr n ↦ let z : left - left ≡ 0 = omega arith in rw (n, z) (inl refl)
  ]
