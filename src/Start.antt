-- ===== src/Start.antt =====
-- src/kmain.c: the cursor, and what the process `drive_init` does with the file system of a drive:
-- it looks for a file in a directory, reads the file and prints its digest. MD5 is a library, of
-- which a context and two of its functions are parameters. What the program prints on the way is
-- left out, but for the digest.
pub mod Find
pub mod Turns
pub mod Digest
pub mod Hex
pub mod Drive
pub mod Boot
mod Tests
mod BootTests
use banj_os.Base.{
  ℕ, zero, suc, ◌+◌, ◌-◌, ◌*◌, ◌/◌, ◌%◌, Bool, true, false, Option, none, some, List, [], ◌∷◌, ltb,
  leb, ◌==◌, if◌then◌else◌, length, get_or,
}
use banj_os.Ports.{Ports, outb}
use banj_os.Disk.{Buffer}
use banj_os.Str.{Memory, strcmp}
use banj_os.Printk.{Out, num, printk}
use banj_os.Ext2.{Ext2VfsSuperBlock, Ext2VfsInode}
use banj_os.Ext2.Inodes.{read_inode}
use banj_os.Ext2.Dirs.{Call, readdir}
use banj_os.Ext2.Files.{Ext2File, ext2_file_open, ext2_file_read}

unfoldable pub disable_cursor : {S : Type 0} → Ports S → S → S
disable_cursor io s = outb io 0x3D5 0x20 (outb io 0x3D4 0x0A s)

-- Memory with a name of at most 255 characters at 0 and a literal at 256.
abbrev pub with_names : (filename literal : List ℕ) → Memory
with_names filename literal p =
    if ltb p 256 then get_or filename p 0 else get_or literal (p - 256) 0

abbrev pub kernel_name : List ℕ
kernel_name = b'k' ∷ (b'e' ∷ (b'r' ∷ (b'n' ∷ (b'e' ∷ (b'l' ∷ [])))))

abbrev pub boot_name : List ℕ
boot_name = b'b' ∷ (b'o' ∷ (b'o' ∷ (b't' ∷ [])))

-- The callbacks `readdir_boot` and `readdir_kern`: `*ino` after a call. `none` is a use of NULL.
unfoldable pub readdir_name : (name : List ℕ) → Call → (ino : ℕ) → Option ℕ
readdir_name name (filename, inode) ino = elim (strcmp 256 0 256 (with_names filename name)) [
  | none ↦ none
  | some order ↦ if order == 0 then elim inode [ none ↦ none | some i ↦ some (i.ino) ] else some ino
]

abbrev pub readdir_boot : Call → (ino : ℕ) → Option ℕ
readdir_boot = readdir_name boot_name

abbrev pub readdir_kern : Call → (ino : ℕ) → Option ℕ
readdir_kern = readdir_name kernel_name

-- `*ino` after the calls that a directory makes.
unfoldable pub after_calls : (Call → ℕ → Option ℕ) → List Call → (ino : ℕ) → Option ℕ
after_calls callback [] ino = some ino
after_calls callback (c ∷ calls) ino = elim (callback c ino) [
  | none ↦ none
  | some ino' ↦ after_calls callback calls ino'
]

-- The inode whose number the callback leaves; NULL is used.
unfoldable pub find_inode :
    (fuel base : ℕ)
    → Ext2VfsSuperBlock
    → Ext2VfsInode
    → (Call → ℕ → Option ℕ)
    → (ino : ℕ) (fresh : Buffer) → Option (Ext2VfsInode × ℕ)
find_inode fuel base vsb dir callback ino fresh = elim (readdir fuel base dir fresh) [
  | none ↦ none
  | some (_, calls) ↦ elim (after_calls callback calls ino) [
    | none ↦ none
    | some ino' ↦ elim (read_inode vsb ino' fresh) [
      | none ↦ none
      | some none ↦ none
      | some (some inode) ↦ some (inode, ino')
    ]
  ]
]

-- The bytes `i` up to `i + n`.
unfoldable pub bytes_from : (n i : ℕ) → (ℕ → ℕ) → List ℕ
bytes_from zero i f = []
bytes_from (suc n) i f = f i ∷ bytes_from n (suc i) f

abbrev pub chunk_len : ℕ
chunk_len = 7000

module _ {C : Type 0} (MD5Update : C → List ℕ → C) where
  -- The loop that reads a file and hands it to the digest. The fuel is for the loop and for a read;
  -- `none` is also its end.
  unfoldable pub digest_file : (turns fuel : ℕ) → Ext2File → (fresh : Buffer) → C → Option C
  digest_file zero fuel file fresh ctx = none
  digest_file (suc turns) fuel file fresh ctx =
      elim (ext2_file_read fuel file fresh chunk_len fresh) [
        | none ↦ none
        | some (len, file', content) ↦ elim len [
          | zero ↦ some ctx
          | suc n ↦
              digest_file turns fuel file' fresh (MD5Update ctx (bytes_from (suc n) 0 content))
        ]
      ]

-- What is printed of the digest.
unfoldable pub print_digest : List ℕ → Out → Option Out
print_digest [] o = elim (printk (b'\n' ∷ []) [] o) [ none ↦ none | some (o', _) ↦ some o' ]
print_digest (d ∷ ds) o = elim (if ltb d 16 then printk (b'0' ∷ []) [] o else some (o, 0)) [
  | none ↦ none
  | some (o1, _) ↦ elim (printk (b'%' ∷ (b'x' ∷ [])) (num d ∷ []) o1) [
    | none ↦ none
    | some (o2, _) ↦ print_digest ds o2
  ]
]

-- `drive_init` from the superblock that the probe finds, with its root inode. `ino` is what the
-- variable holds before it is set.
unfoldable pub drive_init :
    {C : Type 0}
    → (MD5Init : C) → (MD5Update : C → List ℕ → C) → (MD5Final : C → List ℕ)
    → (turns fuel base ino : ℕ) → Ext2VfsSuperBlock
    → Ext2VfsInode
    → (fresh : Buffer) → Out
    → Option Out
drive_init MD5Init MD5Update MD5Final turns fuel base ino vsb root_inode fresh o =
    elim (find_inode fuel base vsb root_inode readdir_boot ino fresh) [
      | none ↦ none
      | some (boot, ino') ↦ elim (find_inode fuel base vsb boot readdir_kern ino' fresh) [
        | none ↦ none
        | some (kernel, _) ↦
            elim (digest_file MD5Update turns fuel (ext2_file_open kernel) fresh MD5Init) [
              | none ↦ none
              | some ctx ↦ print_digest (MD5Final ctx) o
            ]
      ]
    ]
