-- ===== src/Start/Drive.antt =====
-- src/kmain.c: what `drive_init` prints.
use banj_os.Base.{ℕ, ◌+◌, ◌*◌, ◌/◌, ◌<◌, ◌≤◌, ◌≡◌, true, some, List, [], ◌∷◌, ◌++◌, All}
use banj_os.Disk.{Buffer}
use banj_os.Printk.{Out}
use banj_os.Printk.Digits.{append_both}
use banj_os.Ext2.{Ext2VfsSuperBlock, Ext2VfsInode}
use banj_os.Ext2.Sectors.{IsPartition}
use banj_os.Ext2.Chunks.{blocks_of}
use banj_os.Ext2.FileBytes.{file_at}
use banj_os.Ext2.Inodes.{read_inode}
use banj_os.Ext2.Dirs.{Call, readdir}
use banj_os.Start.{bytes_from, boot_name, kernel_name, drive_init}
use banj_os.Start.Find.{Names, boot_name-IsName, kernel_name-IsName, find_inode-Names}
use banj_os.Start.Turns.{Suits}
use banj_os.Start.Digest.{digest_file_lem}
use banj_os.Start.Hex.{hex, print_digest-hex}

-- With an update after which the digest of two lists in turn is that of their concatenation: when the
-- root directory has one entry `boot` and otherwise names that `strcmp` tells from it, this entry's
-- directory one entry `kernel` in the same way, and both inodes can be read, on a partition whose
-- sectors can all be read, the blocks of the file `kernel` are direct or singly indirect, not empty and
-- of at most 7000 bytes, and of the file, cut into 7000 bytes at a time, nothing is left over, or at
-- least a block that leaves room for a block in 7000 bytes, then `drive_init` ends, and prints the
-- digest of exactly the bytes of this file, two hexadecimal digits for each of its bytes, and a line
-- feed.
pub drive_init_lem :
    {C : Type 0} (MD5Init : C) (MD5Update : C → List ℕ → C) (MD5Final : C → List ℕ)
    → ((ctx : C) (xs ys : List ℕ)
        → MD5Final (MD5Update (MD5Update ctx xs) ys) ≡ MD5Final (MD5Update ctx (xs ++ ys)))
    → ((ctx : C) → MD5Final (MD5Update ctx []) ≡ MD5Final ctx)
    → ((ctx : C) → All (λ d. d < 256) (MD5Final ctx))
    → (turns fuel base ino : ℕ) (vsb : Ext2VfsSuperBlock) (root boot kernel : Ext2VfsInode)
      (fresh : Buffer) (o : Out) (in_root in_boot : List Call)
    → readdir fuel base root fresh ≡ some (true, in_root)
    → Names boot_name 4 (boot.ino) in_root
    → read_inode vsb (boot.ino) fresh ≡ some (some boot)
    → readdir fuel base boot fresh ≡ some (true, in_boot)
    → Names kernel_name 6 (kernel.ino) in_boot
    → read_inode vsb (kernel.ino) fresh ≡ some (some kernel)
    → (sectors : ℕ → Buffer) (ok : IsPartition (kernel.vsb) sectors)
      (pos : 0 < kernel.vsb.block_size)
      (indexed : blocks_of kernel ≤ 12 + kernel.vsb.block_size / 4)
    → kernel.vsb.block_size ≤ 7000
    → Suits kernel sectors ok pos indexed (kernel.st_size)
    → kernel.st_size + 7000 ≤ 7000 * turns
    → 7000 < fuel
    → let contents = bytes_from (kernel.st_size) 0 (file_at kernel sectors ok pos indexed) in
      drive_init MD5Init MD5Update MD5Final turns fuel base ino vsb root fresh o
      ≡ some (append_both o (hex (MD5Final (MD5Update MD5Init contents)) ++ (b'\n' ∷ [])))
unfolding drive_init
drive_init_lem MD5Init MD5Update MD5Final joined nothing final turns fuel base ino vsb root boot
      kernel fresh o in_root in_boot l1 n1 i1 l2 n2 i2 sectors ok pos indexed h1 s h2 h3 =
    let e1 =
      find_inode-Names boot_name 4 boot_name-IsName fuel base ino vsb root boot fresh in_root l1 n1
        i1 in
    let e2 =
      find_inode-Names kernel_name 6 kernel_name-IsName fuel base (boot.ino) vsb boot kernel fresh
        in_boot l2 n2 i2 in
    let (ctx, ran, digest) =
      digest_file_lem kernel sectors ok pos indexed MD5Update MD5Final joined nothing turns fuel
        fresh MD5Init h1 s h2 h3 in
    rw (drive_init, e1, e2, ran, ← digest) (print_digest-hex (MD5Final ctx) o (final ctx))
