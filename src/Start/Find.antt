-- ===== src/Start/Find.antt =====
-- src/kmain.c: what the callbacks `readdir_boot` and `readdir_kern` find in a directory.
use banj_os.Base.{
  ℕ, zero, suc, ◌+◌, ◌-◌, ◌<◌, ◌≤◌, ◌≡◌, ◌≢◌, refl, sym, ap, ◌∙◌, true, false, some, arith, ltb,
  ◌==◌, List, [], ◌∷◌, All, get_or, inl, inr, Bool-cases, ==→eq,
}
use banj_os.Disk.{Buffer}
use banj_os.Str.{Memory, min, difference, strcmp_from, strcmp}
use banj_os.Str.Copy.{IsString, strlen_lem}
use banj_os.Str.Compare.{strcmp-beginning}
use banj_os.Ext2.{Ext2VfsSuperBlock, Ext2VfsInode}
use banj_os.Ext2.Inodes.{read_inode}
use banj_os.Ext2.Dirs.{Call, readdir}
use banj_os.Start.{with_names, boot_name, kernel_name, readdir_name, after_calls, find_inode}

-- The name has `n` characters, and is not too long for a directory entry.
pub record IsName (name : List ℕ) (n : ℕ) : Type 0 where
  pub letters : (i : ℕ) → i < n → (0 < get_or name i 0) × (get_or name i 0 < 256)
  pub ended : get_or name n 0 ≡ 0
  pub short : n < 256

-- The names differ at the place `i` first, and there the first one does not have the character with
-- which the second begins.
pub record Differ (name literal : List ℕ) (n k i : ℕ) : Type 0 where
  pub name_ok : IsName name n
  pub before : i < n
  pub within : i < k
  pub same : (j : ℕ) → j < i → get_or name j 0 ≡ get_or literal j 0
  pub other : get_or name i 0 ≢ get_or literal i 0
  pub not_first : get_or name i 0 ≢ get_or literal 0 0

-- The call is for a name that `strcmp` tells from the literal of `k` characters.
abbrev pub Other : (literal : List ℕ) (k : ℕ) → Call → Type 0
Other literal k (filename, inode) = (n : ℕ) × (i : ℕ) × Differ filename literal n k i

-- One of the calls is for the literal itself, with an inode of the number `ino`, and all others are
-- for other names.
pub data Names (literal : List ℕ) (k ino : ℕ) : List Call → Type 0 where
  here :
      (inode : Ext2VfsInode) (calls : List Call)
      → inode.ino ≡ ino
      → All (Other literal k) calls
      → Names literal k ino ((literal, some inode) ∷ calls)
  there :
      (c : Call) (calls : List Call)
      → Other literal k c
      → Names literal k ino calls
      → Names literal k ino (c ∷ calls)

difference_ne : (c d : ℕ) → c < 256 → d < 256 → c ≢ d → (difference c d == 0) ≡ false
difference_ne c d h1 h2 n = ground (arith, h1, h2, n)

difference_self : (c : ℕ) → (difference c c == 0) ≡ true
difference_self c = ground arith

-- The loop ends at the first difference.
strcmp_from-differ :
    (n k i a b : ℕ) (m : Memory)
    → k ≤ i
    → i < k + n
    → ((j : ℕ) → j < i → m (a + j) ≡ m (b + j))
    → (difference (m (a + i)) (m (b + i)) == 0) ≡ false
    → strcmp_from n k a b m ≡ difference (m (a + i)) (m b)
unfolding strcmp_from
strcmp_from-differ zero k i a b m h1 h2 same d = absurd (omega (arith, h1, h2))
strcmp_from-differ (suc n) k i a b m h1 h2 same d = elim (Bool-cases (i == k)) [
  | inl y ↦ let e = ==→eq i k y in let d' = rw e at d in rw (e, d') refl
  | inr x ↦
      let less : k < i = ground (arith, x, h1) in
      let e = same k less in
      let z = difference_self (m (b + k)) in
      let ih =
        strcmp_from-differ n (k + 1) i a b m (omega (arith, less)) (omega (arith, h2)) same d in
      rw (e, z) ih
]

module _ (name literal : List ℕ) where
  name-IsString : (n : ℕ) → IsName name n → IsString (with_names name literal) 0 n
  name-IsString n ok = record {
    inside = λ i h.
        let s = ok.short in
        let e : ltb (0 + i) 256 ≡ true = ground (arith, s, h) in
        let z : 0 + i ≡ i = omega arith in rw (e, z) (ok.letters i h).0;
    terminator =
        let s = ok.short in
        let e : ltb (0 + n) 256 ≡ true = ground (arith, s) in
        let z : 0 + n ≡ n = omega arith in rw (e, z) (ok.ended);
  }

  literal-at : (i : ℕ) → with_names name literal (256 + i) ≡ get_or literal i 0
  literal-at i =
      let e : ltb (256 + i) 256 ≡ false = ground arith in
      let z : 256 + i - 256 ≡ i = omega arith in rw (e, z) refl

  name-at : (i : ℕ) → i < 256 → with_names name literal (0 + i) ≡ get_or name i 0
  name-at i h =
      let e : ltb (0 + i) 256 ≡ true = ground (arith, h) in
      let z : 0 + i ≡ i = omega arith in rw (e, z) refl

  literal-IsString : (k : ℕ) → IsName literal k → IsString (with_names name literal) 256 k
  literal-IsString k ok = record {
    inside = λ i h. rw (literal-at i) (ok.letters i h).0;
    terminator = rw (literal-at k) (ok.ended);
  }

  strcmp-literal :
      (k : ℕ)
      → IsName literal k
      → name ≡ literal
      → strcmp 256 0 256 (with_names name literal) ≡ some 0
  strcmp-literal k ok e =
      let s = ok.short in
      let own : IsName name k = rw e ok in
      strcmp-beginning 256 0 256 k k (with_names name literal) (name-IsString k own)
        (literal-IsString k ok) (omega arith) s
        (λ j h. name-at j (omega (arith, h, s)) ∙ ap (λ l. get_or l j 0) e ∙ sym (literal-at j))

  strcmp-other :
      (n k i : ℕ)
      → IsName literal k
      → Differ name literal n k i
      → (r : ℕ) × (strcmp 256 0 256 (with_names name literal) ≡ some r) × ((r == 0) ≡ false)
  unfolding strcmp
  strcmp-other n k i ok d =
      let m = with_names name literal in
      let s = d.name_ok.short in
      let sk = ok.short in
      let b = d.before in
      let w = d.within in
      let at_i = name-at i (omega (arith, b, s)) in
      let lit_i = literal-at i in
      let lit_0 : m 256 ≡ get_or literal 0 0 = literal-at 0 in
      let c = (d.name_ok.letters i b).1 in
      let c' = (ok.letters i w).1 in
      let c0 = (ok.letters 0 (omega (arith, w))).1 in
      let differ : (difference (m (0 + i)) (m (256 + i)) == 0) ≡ false =
        rw (at_i, lit_i) (difference_ne _ _ c c' (d.other)) in
      let run =
        strcmp_from-differ (min n k) 0 i 0 256 m (omega arith) (ground (arith, b, w))
          (λ j h. name-at j (omega (arith, h, b, s)) ∙ d.same j h ∙ sym (literal-at j)) differ in
      (
        difference (m (0 + i)) (m 256),
        rw
            (
              strcmp,
              strlen_lem 256 0 n m (name-IsString n (d.name_ok)) s,
              strlen_lem 256 256 k m (literal-IsString k ok) sk,
              run,
            )
            refl,
        rw (at_i, lit_0) (difference_ne _ _ c c0 (d.not_first)),
      )

-- What a directory with the entry leaves in `*ino`.
module _ (literal : List ℕ) (k : ℕ) (ok : IsName literal k) where
  after_calls-others :
      (ino : ℕ) (calls : List Call)
      → All (Other literal k) calls
      → after_calls (readdir_name literal) calls ino ≡ some ino
  unfolding after_calls readdir_name
  after_calls-others ino [] h = refl
  after_calls-others ino ((filename, inode) ∷ calls) ((n, i, d), hs) =
      let (r, e, z) = strcmp-other filename literal n k i ok d in
      rw (after_calls, readdir_name, e, z) (after_calls-others ino calls hs)

  after_calls-Names :
      (before ino : ℕ) (calls : List Call)
      → Names literal k ino calls
      → after_calls (readdir_name literal) calls before ≡ some ino
  unfolding after_calls readdir_name
  after_calls-Names before ino _ (here inode calls same others) =
      let e = strcmp-literal literal literal k ok refl in
      rw (after_calls, readdir_name, e, same) (after_calls-others ino calls others)
  after_calls-Names before ino _ (there (filename, inode) calls (n, i, d) rest) =
      let (r, e, z) = strcmp-other filename literal n k i ok d in
      rw (after_calls, readdir_name, e, z) (after_calls-Names before ino calls rest)

  pub find_inode-Names :
      (fuel base before : ℕ) (vsb : Ext2VfsSuperBlock) (dir found : Ext2VfsInode) (fresh : Buffer)
      (calls : List Call)
      → readdir fuel base dir fresh ≡ some (true, calls)
      → Names literal k (found.ino) calls
      → read_inode vsb (found.ino) fresh ≡ some (some found)
      → find_inode fuel base vsb dir (readdir_name literal) before fresh ≡ some (found, found.ino)
  unfolding find_inode
  find_inode-Names fuel base before vsb dir found fresh calls listed names inode =
      rw (find_inode, listed, after_calls-Names before (found.ino) calls names, inode) refl

pub boot_name-IsName : IsName boot_name 4
boot_name-IsName = record { letters = go; ended = refl; short = omega arith }
  where
    go : (i : ℕ) → i < 4 → (0 < get_or boot_name i 0) × (get_or boot_name i 0 < 256)
    go zero h = (omega arith, omega arith)
    go (suc zero) h = (omega arith, omega arith)
    go (suc (suc zero)) h = (omega arith, omega arith)
    go (suc (suc (suc zero))) h = (omega arith, omega arith)
    go (suc (suc (suc (suc i)))) h = absurd (omega (arith, h))

pub kernel_name-IsName : IsName kernel_name 6
kernel_name-IsName = record { letters = go; ended = refl; short = omega arith }
  where
    go : (i : ℕ) → i < 6 → (0 < get_or kernel_name i 0) × (get_or kernel_name i 0 < 256)
    go zero h = (omega arith, omega arith)
    go (suc zero) h = (omega arith, omega arith)
    go (suc (suc zero)) h = (omega arith, omega arith)
    go (suc (suc (suc zero))) h = (omega arith, omega arith)
    go (suc (suc (suc (suc zero)))) h = (omega arith, omega arith)
    go (suc (suc (suc (suc (suc zero))))) h = (omega arith, omega arith)
    go (suc (suc (suc (suc (suc (suc i)))))) h = absurd (omega (arith, h))
