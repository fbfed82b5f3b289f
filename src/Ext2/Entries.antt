-- ===== src/Ext2/Entries.antt =====
-- The walk over the entries of a directory block.
use banj_os.Base.{
  ℕ, zero, suc, ◌+◌, ◌-◌, ◌^◌, ◌<◌, ◌≤◌, ◌≡◌, ◌≢◌, refl, ◌&&◌, not, Option, some, List, [], ◌∷◌,
  arith, ltb, ◌==◌, inl, inr, Bool-cases, length,
}
use banj_os.Regions.{align_pointer}
use banj_os.Disk.{Buffer}
use banj_os.Ext2.Layout.{dir_entry_header}
use banj_os.Ext2.{Ext2VfsSuperBlock, Ext2VfsInode}
use banj_os.Ext2.Inodes.{read_inode}
use banj_os.Ext2.Dirs.{Call, name_from, next_header, read_entries}

module _ (base : ℕ) (vsb : Ext2VfsSuperBlock) (content fresh : Buffer) where
  -- The place `p` has an entry in use.
  abbrev pub IsEntry : (p : ℕ) → Type 0
  IsEntry p = (p < vsb.block_size) × ((dir_entry_header content p).ino ≢ 0)

  -- The places where the walk looks for an entry: the beginning, and behind each entry in use.
  pub data Visited : ℕ → Type 0 where
    first : Visited 0
    behind :
        (p : ℕ) → Visited p → IsEntry p → Visited (next_header base p (dir_entry_header content p))

  next_forward :
      (p : ℕ)
      → ((q : ℕ) → content q < 256)
      → base + vsb.block_size + 2 ^ 17 ≤ 2 ^ 64
      → p < vsb.block_size
      → 0 < (dir_entry_header content p).entry_size
      → p < next_header base p (dir_entry_header content p)
  unfolding align_pointer
  next_forward p bytes room inside h =
      let b0 = bytes (p + 4) in
      let b1 = bytes (p + 4 + 1) in ground (arith, h, b0, b1, room, inside)

  ends_from :
      (fuel p : ℕ)
      → ((q : ℕ) → content q < 256)
      → base + vsb.block_size + 2 ^ 17 ≤ 2 ^ 64
      → ((q : ℕ) → Visited q → IsEntry q → 0 < (dir_entry_header content q).entry_size)
      → ((q : ℕ)
          → Visited q
          → IsEntry q
          → (i : Option Ext2VfsInode) × (read_inode vsb ((dir_entry_header content q).ino) fresh
              ≡ some i))
      → Visited p
      → vsb.block_size - p < fuel
      → (calls : List Call) × (read_entries fuel base p vsb content fresh ≡ some calls)
        × (length calls ≤ vsb.block_size - p)
  unfolding read_entries
  ends_from zero p bytes room sizes inodes v h = absurd (omega (arith, h))
  ends_from (suc fuel) p bytes room sizes inodes v h =
      elim (Bool-cases (ltb p (vsb.block_size) && not ((dir_entry_header content p).ino == 0))) [
        | inr stop ↦ ([], rw (read_entries, stop) refl, omega arith)
        | inl more ↦
            let header = dir_entry_header content p in
            let inside : p < vsb.block_size = ground (arith, more) in
            let used : header.ino ≢ 0 = ground (arith, more) in
            let forward = next_forward p bytes room inside (sizes p v (inside, used)) in
            let (i, r) = inodes p v (inside, used) in
            let (calls, e, l) =
              ends_from fuel (next_header base p header) bytes room sizes inodes
                (behind p v (inside, used)) (omega (arith, forward, h, inside)) in
            (
              (name_from (header.name_len_lsb) 0 header, i) ∷ calls,
              rw (read_entries, more, r, e) refl,
              omega (arith, l, forward, inside),
            )
      ]

  -- The walk over the entries of a directory block ends, with at most one call of the callback for
  -- each byte of the block, when the block has bytes, none of the entries in use that the walk comes
  -- to has the size zero, reading their inodes does not halt, the buffer is not at the end of the
  -- addresses, and the fuel is more than the bytes of the block.
  pub read_entries-ends :
      (fuel : ℕ)
      → ((q : ℕ) → content q < 256)
      → base + vsb.block_size + 2 ^ 17 ≤ 2 ^ 64
      → ((q : ℕ) → Visited q → IsEntry q → 0 < (dir_entry_header content q).entry_size)
      → ((q : ℕ)
          → Visited q
          → IsEntry q
          → (i : Option Ext2VfsInode) × (read_inode vsb ((dir_entry_header content q).ino) fresh
              ≡ some i))
      → vsb.block_size < fuel
      → (calls : List Call) × (read_entries fuel base 0 vsb content fresh ≡ some calls)
        × (length calls ≤ vsb.block_size)
  read_entries-ends fuel bytes room sizes inodes h =
      let (calls, e, l) = ends_from fuel 0 bytes room sizes inodes first (omega (arith, h)) in
      (calls, e, omega (arith, l))
