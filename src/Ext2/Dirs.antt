-- ===== src/Ext2/Dirs.antt =====
-- src/ext2.c: reading a directory. The callback's calls are the list of its arguments. `base` is the
-- address of the buffer with the block, and offsets count from there.
use banj_os.Base.{
  ℕ, zero, suc, ◌+◌, ◌-◌, ◌/◌, ◌%◌, ◌^◌, Bool, true, false, ◌&&◌, not, Option, none, some, List, [],
  ◌∷◌, ◌++◌, ltb, ◌==◌, if◌then◌else◌,
}
use banj_os.Regions.{align_pointer}
use banj_os.Disk.{Buffer}
use banj_os.Ext2.Layout.{Ext2DirEntryHeader, dir_entry_header}
use banj_os.Ext2.{Ext2VfsSuperBlock, Ext2VfsInode, read_inode_block}
use banj_os.Ext2.Inodes.{read_inode}

abbrev pub Call : Type 0
Call = List ℕ × Option Ext2VfsInode

-- The name of the entry, `n` characters from `i` on.
abbrev pub name_from : (n i : ℕ) → Ext2DirEntryHeader → List ℕ
name_from zero i header = []
name_from (suc n) i header = header.name i ∷ name_from n (suc i) header

abbrev pub next_header : (base p : ℕ) → Ext2DirEntryHeader → ℕ
next_header base p header = align_pointer (base + p + header.entry_size) 4 true - base

-- The entries of a block from the offset `p` on; `none` is also the end of the fuel.
unfoldable pub read_entries :
    (fuel base p : ℕ) → Ext2VfsSuperBlock → (content fresh : Buffer) → Option (List Call)
read_entries zero base p vsb content fresh = none
read_entries (suc fuel) base p vsb content fresh =
    let header = dir_entry_header content p in
    elim (ltb p (vsb.block_size) && not (header.ino == 0)) [
      | false ↦ some []
      | true ↦ elim (read_inode vsb (header.ino) fresh) [
        | none ↦ none
        | some entry_ino ↦
            elim (read_entries fuel base (next_header base p header) vsb content fresh) [
              | none ↦ none
              | some calls ↦ some ((name_from (header.name_len_lsb) 0 header, entry_ino) ∷ calls)
            ]
      ]
    ]

-- `n` blocks from the block `i` on.
unfoldable pub read_dir_blocks :
    (n i fuel base : ℕ) → Ext2VfsInode → (content fresh : Buffer) → Option (List Call)
read_dir_blocks zero i fuel base vino content fresh = some []
read_dir_blocks (suc n) i fuel base vino content fresh =
    elim (read_inode_block vino i fresh content) [
      | none ↦ none
      | some content' ↦ elim (read_entries fuel base 0 (vino.vsb) content' fresh) [
        | none ↦ none
        | some calls ↦ elim (read_dir_blocks n (suc i) fuel base vino content' fresh) [
          | none ↦ none
          | some calls' ↦ some (calls ++ calls')
        ]
      ]
    ]

-- The result, and the calls. The bit of a directory in the mode is 2 ^ 14.
unfoldable pub readdir :
    (fuel base : ℕ) → Ext2VfsInode → (fresh : Buffer) → Option (Bool × List Call)
readdir fuel base vino fresh =
    let size = vino.vsb.block_size in
    let num_blocks = vino.st_size / size + (if vino.st_size % size == 0 then 0 else 1) in
    if vino.st_mode / 2 ^ 14 % 2 == 0
    then some (false, [])
    else (if size == 0
        then none
        else elim (read_dir_blocks num_blocks 0 fuel base vino fresh fresh) [
          | none ↦ none
          | some calls ↦ some (true, calls)
        ])
