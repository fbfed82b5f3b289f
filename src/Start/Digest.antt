-- ===== src/Start/Digest.antt =====
-- src/kmain.c: what the digest of a file is taken of.
use mathlib.Core.Path.{subst}
use banj_os.Base.{
  ℕ, zero, suc, ◌+◌, ◌-◌, ◌*◌, ◌/◌, ◌<◌, ◌≤◌, ◌≡◌, refl, sym, ap, ◌∙◌, Option, some, arith, ltb,
  List, [], ◌++◌, inl, inr, Bool-cases, ltb→lt, ltb→le,
}
use banj_os.Disk.{Buffer}
use banj_os.Ext2.{Ext2VfsInode}
use banj_os.Ext2.Sectors.{IsPartition}
use banj_os.Ext2.Files.{Ext2File, ext2_file_read}
use banj_os.Ext2.Chunks.{blocks_of}
use banj_os.Ext2.FileBytes.{file_at}
use banj_os.Ext2.Anywhere.{ext2_file_read-IsRead}
use banj_os.Start.{bytes_from, chunk_len, digest_file}
use banj_os.Start.Turns.{
  no_bytes, bytes_from-append, bytes_from-same, Suits, file, read_at_end, first_le, turn_len,
  amount_of_turn, room, Suits-rest,
}

module _ (inode : Ext2VfsInode) (sectors : ℕ → Buffer) (ok : IsPartition (inode.vsb) sectors)
    (pos : 0 < inode.vsb.block_size)
    (indexed : blocks_of inode ≤ 12 + inode.vsb.block_size / 4) where
  module _ {C : Type 0} (MD5Update : C → List ℕ → C) where
    digest_step :
        (turns fuel cursor n : ℕ) (fresh content : Buffer) (ctx : C) (file' : Ext2File)
        → 0 < n
        → ext2_file_read fuel (file inode sectors ok pos indexed cursor) fresh chunk_len fresh
          ≡ some (n, file', content)
        → digest_file MD5Update
            (suc turns)
            fuel
            (file inode sectors ok pos indexed cursor)
            fresh
            ctx
          ≡ digest_file MD5Update turns fuel file' fresh (MD5Update ctx (bytes_from n 0 content))
    unfolding digest_file
    digest_step turns fuel cursor zero fresh content ctx file' p e = absurd (omega (arith, p))
    digest_step turns fuel cursor (suc n) fresh content ctx file' p e = rw (digest_file, e) refl

    digest_end :
        (turns fuel : ℕ) (fresh : Buffer) (ctx : C)
        → digest_file MD5Update
            (suc turns)
            (suc fuel)
            (file inode sectors ok pos indexed (inode.st_size))
            fresh
            ctx
          ≡ some ctx
    unfolding digest_file
    digest_end turns fuel fresh ctx =
        rw (digest_file, read_at_end inode sectors ok pos indexed fuel fresh) refl

    -- One turn that reads some bytes.
    digest_turn :
        (turns fuel cursor : ℕ) (fresh : Buffer) (ctx : C)
        → cursor < inode.st_size
        → inode.vsb.block_size ≤ 7000
        → Suits inode sectors ok pos indexed (inode.st_size - cursor)
        → 7000 < fuel
        → let n = turn_len inode sectors ok pos indexed (inode.st_size - cursor) in
          digest_file MD5Update
            (suc turns)
            fuel
            (file inode sectors ok pos indexed cursor)
            fresh
            ctx
          ≡ digest_file MD5Update turns fuel
              (file inode sectors ok pos indexed (cursor + n))
              fresh
              (MD5Update ctx (bytes_from n cursor (file_at inode sectors ok pos indexed)))
    digest_turn turns fuel cursor fresh ctx h1 h2 s h3 =
        let left = inode.st_size - cursor in
        let at_least = room inode sectors ok pos indexed left h2 s (omega (arith, h1)) in
        let f = first_le inode sectors ok pos indexed cursor in
        let (content, e, (inside, _)) =
          ext2_file_read-IsRead inode sectors ok pos indexed fuel cursor chunk_len fresh fresh
            (omega (arith, f, h2)) (omega (arith, f, at_least, h1)) h3 in
        let a = amount_of_turn inode sectors ok pos indexed cursor (omega (arith, h1)) h2 s in
        let some_bytes : 0 < turn_len inode sectors ok pos indexed left = ground (arith, h1) in
        let same : bytes_from (turn_len inode sectors ok pos indexed left) 0 content
            ≡ bytes_from (turn_len inode sectors ok pos indexed left) cursor
                (file_at inode sectors ok pos indexed) =
          bytes_from-same (turn_len inode sectors ok pos indexed left) 0 cursor content
            (file_at inode sectors ok pos indexed)
            (λ k l.
              let z : 0 + k ≡ k = omega arith in ap content z ∙ inside k (omega (arith, a, l))) in
        digest_step turns fuel cursor (turn_len inode sectors ok pos indexed left) fresh content ctx
          (file inode sectors ok pos indexed (cursor + turn_len inode sectors ok pos indexed left))
          some_bytes
          (subst
            (λ n.
              ext2_file_read fuel (file inode sectors ok pos indexed cursor) fresh chunk_len fresh
              ≡ some (n, file inode sectors ok pos indexed (cursor + n), content))
            a e)
        ∙ ap
            (λ l.
              digest_file MD5Update turns fuel
                (file inode sectors ok pos indexed
                  (cursor + turn_len inode sectors ok pos indexed left))
                fresh (MD5Update ctx l))
            same

    -- The loop ends with a context whose digest is that of one update with the rest of the file.
    abbrev pub Digests : (MD5Final : C → List ℕ) (ctx : C) (contents : List ℕ) → Option C → Type 0
    Digests MD5Final ctx contents result =
        (ctx' : C) × (result ≡ some ctx') × (MD5Final ctx' ≡ MD5Final (MD5Update ctx contents))

    digest_from :
        (MD5Final : C → List ℕ)
        → ((ctx : C) (xs ys : List ℕ)
            → MD5Final (MD5Update (MD5Update ctx xs) ys) ≡ MD5Final (MD5Update ctx (xs ++ ys)))
        → ((ctx : C) → MD5Final (MD5Update ctx []) ≡ MD5Final ctx)
        → (turns fuel cursor : ℕ) (fresh : Buffer) (ctx : C) → cursor ≤ inode.st_size
        → inode.vsb.block_size ≤ 7000
        → Suits inode sectors ok pos indexed (inode.st_size - cursor)
        → inode.st_size - cursor + 7000 ≤ 7000 * turns
        → 7000 < fuel
        → Digests MD5Final ctx
            (bytes_from (inode.st_size - cursor) cursor (file_at inode sectors ok pos indexed))
            (digest_file MD5Update turns fuel (file inode sectors ok pos indexed cursor) fresh ctx)
    digest_from MD5Final joined nothing zero fuel cursor fresh ctx h1 h2 s h3 h4 =
        absurd (omega (arith, h3))
    digest_from MD5Final joined nothing (suc turns) zero cursor fresh ctx h1 h2 s h3 h4 =
        absurd (omega (arith, h4))
    digest_from MD5Final joined nothing (suc turns) (suc fuel) cursor fresh ctx h1 h2 s h3 h4 =
        elim (Bool-cases (ltb cursor (inode.st_size))) [
          | inr n ↦
              let e : inode.st_size ≡ cursor = omega (arith, h1, ltb→le _ _ n) in
              let at = file_at inode sectors ok pos indexed in
              let none_left : inode.st_size - inode.st_size ≡ 0 = omega arith in
              subst
                (λ c. Digests MD5Final ctx (bytes_from (inode.st_size - c) c at) (
                  digest_file MD5Update (suc turns) (suc fuel) (file inode sectors ok pos indexed c)
                    fresh ctx))
                e
                (
                  ctx,
                  digest_end turns fuel fresh ctx,
                  sym (
                      ap (λ m. MD5Final (MD5Update ctx (bytes_from m (inode.st_size) at))) none_left
                      ∙ ap (λ l. MD5Final (MD5Update ctx l)) (no_bytes (inode.st_size) at)
                      ∙ nothing ctx),
                )
          | inl y ↦
              let left = inode.st_size - cursor in
              let n = turn_len inode sectors ok pos indexed left in
              let at = file_at inode sectors ok pos indexed in
              let here = ltb→lt _ _ y in
              let fits : n ≤ left = ground arith in
              let some_bytes : 0 < n = ground (arith, here) in
              let e : left - n ≡ inode.st_size - (cursor + n) = omega arith in
              let all : n + (inode.st_size - (cursor + n)) ≡ left = omega (arith, fits) in
              let (ctx', ran, digest) =
                digest_from MD5Final joined nothing turns (suc fuel) (cursor + n) fresh
                  (MD5Update ctx (bytes_from n cursor at)) (omega (arith, fits, here)) h2
                  (subst (Suits inode sectors ok pos indexed) e
                    (Suits-rest inode sectors ok pos indexed left s))
                  (ground (arith, h3, here)) h4 in
              (
                ctx',
                digest_turn turns (suc fuel) cursor fresh ctx here h2 s h4 ∙ ran,
                digest
                    ∙ joined ctx (bytes_from n cursor at)
                        (bytes_from (inode.st_size - (cursor + n)) (cursor + n) at)
                    ∙ ap (λ l. MD5Final (MD5Update ctx l))
                        (bytes_from-append n (inode.st_size - (cursor + n)) cursor at
                          ∙ ap (λ m. bytes_from m cursor at) all),
              )
        ]

    -- On a partition whose sectors can all be read, for a file whose blocks are direct or singly
    -- indirect, not empty and of at most 7000 bytes, with an update after which the digest of two
    -- lists in turn is that of their concatenation: when of the file, cut into 7000 bytes at a time,
    -- nothing is left over, or at least a block that leaves room for a block in 7000 bytes, then the
    -- loop ends, and the digest is that of exactly the bytes of the file, in their order.
    pub digest_file_lem :
        (MD5Final : C → List ℕ)
        → ((ctx : C) (xs ys : List ℕ)
            → MD5Final (MD5Update (MD5Update ctx xs) ys) ≡ MD5Final (MD5Update ctx (xs ++ ys)))
        → ((ctx : C) → MD5Final (MD5Update ctx []) ≡ MD5Final ctx)
        → (turns fuel : ℕ) (fresh : Buffer) (ctx : C) → inode.vsb.block_size ≤ 7000
        → Suits inode sectors ok pos indexed (inode.st_size)
        → inode.st_size + 7000 ≤ 7000 * turns
        → 7000 < fuel
        → Digests MD5Final ctx
            (bytes_from (inode.st_size) 0 (file_at inode sectors ok pos indexed))
            (digest_file MD5Update turns fuel (record { inode = inode; cursor = 0 }) fresh ctx)
    digest_file_lem MD5Final joined nothing turns fuel fresh ctx h1 s h2 h3 =
        let z : inode.st_size - 0 ≡ inode.st_size = omega arith in
        subst
          (λ n.
            Digests MD5Final ctx (bytes_from n 0 (file_at inode sectors ok pos indexed))
              (digest_file MD5Update turns fuel (file inode sectors ok pos indexed 0) fresh ctx))
          z
          (digest_from MD5Final joined nothing turns fuel 0 fresh ctx (omega arith) h1
            (subst (Suits inode sectors ok pos indexed) (sym z) s) (omega (arith, h2)) h3)
