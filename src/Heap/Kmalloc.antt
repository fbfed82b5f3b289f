-- ===== src/Heap/Kmalloc.antt =====
-- kmalloc and kfree, for the sizes that the pools serve.
use banj_os.Base.{
  ℕ, suc, ◌+◌, ◌-◌, ◌/◌, ◌≤◌, ◌<◌, ◌≡◌, refl, ap, sym, true, false, Option, some, List, [], ◌∷◌,
  arith, ◌==◌, ltb, lt→ltb, has, erase, update, eq→==,
}
use mathlib.Core.Path.{subst}
use banj_os.Regions.{page_size}
use banj_os.Paging.Virtual.{Space, alloc_page}
use banj_os.Heap.{
  Heap, header_size, block_sizes_len, init_pools, init_alloc, push_block, take_block, find_pool,
  kmalloc_pool, kmalloc, kfree,
}
use banj_os.Heap.Blocks.{IsHeap, block_size, push-IsHeap}
use banj_os.Heap.Carve.{Carved, push_space}
use banj_os.Heap.Calls.{
  IsKmalloc, Fits, find_pool_go, alloc_page_lem, divides, pool_allocate_page-Carved, Handed,
  take-Handed,
}

abbrev pub PageFor : (table : ℕ) → Heap → Type 0
PageFor table h = (v : ℕ) × (s : Space) × (alloc_page table (h.space) ≡ some (v, s))

-- What a call of `kmalloc` gives.
abbrev pub Serves : Option (ℕ × Heap) → (size : ℕ) (live : List ℕ) (owner : ℕ → ℕ) → Type 0
Serves o size live owner =
    (block : ℕ) × (h' : Heap) × (o ≡ some (block + header_size, h'))
    × Handed size block h' live owner

take-Serves :
    (i size x : ℕ) (xs : List ℕ) (h : Heap) (free : ℕ → List ℕ) (live : List ℕ)
    (owner owner0 : ℕ → ℕ)
    → IsKmalloc h free live owner
    → Fits i size
    → free i ≡ x ∷ xs
    → ((a : ℕ) → has a live ≡ true → owner a ≡ owner0 a)
    → Serves (some (take_block i h)) size live owner0
take-Serves i size x xs h free live owner owner0 ok fits e same =
    let (addr, r) = take-Handed i size x xs h free live owner owner0 ok fits e same in
    (x, (take_block i h).1, ap (λ a. some (a, (take_block i h).1)) addr, r)

at_break :
    (h : Heap) (free : ℕ → List ℕ) (live : List ℕ) (owner : ℕ → ℕ) (top : ℕ)
    → top ≡ h.space.brk
    → IsHeap h free live owner top
    → 0 < top
    → IsKmalloc h free live owner
at_break h free live owner top e ok pos = record {
  heap = subst (λ t. IsHeap h free live owner t) e ok;
  positive = subst (λ t. 0 < t) e pos;
}

fresh-Serves :
    (i n size : ℕ) (h h' : Heap) (s : Space) (free : ℕ → List ℕ) (live : List ℕ) (owner : ℕ → ℕ)
    → IsKmalloc h free live owner
    → Fits i size
    → 0 < n
    → 0 < s.brk
    → Carved i n (s.brk) (record h { space = s }) h' free live owner
    → Serves (some (take_block i h')) size live owner
fresh-Serves i n size h h' s free live owner ok fits p b c = go (c.free' i) refl
  where
    go : (xs : List ℕ) → c.free' i ≡ xs → Serves (some (take_block i h')) size live owner
    go [] e = absurd (let m = rw e at (c.more) in omega (arith, m, p))
    go (x ∷ xs) e =
        take-Serves i size x xs h' (c.free') live (c.owner') owner
          (at_break h' (c.free') live (c.owner') (s.brk) (ap (λ s. s.brk) (sym (c.space))) (c.ok) b)
          fits e (λ a y. c.owners a ((ok.heap.live_owner a y).0))

-- A pool with a free block hands out the first; an empty one takes a page.
kmalloc_pool-Serves :
    (table i size : ℕ) (h : Heap) (free : ℕ → List ℕ) (live : List ℕ) (owner : ℕ → ℕ)
    → IsKmalloc h free live owner
    → PageFor table h
    → Fits i size
    → Serves (kmalloc_pool table i h) size live owner
unfolding kmalloc_pool
kmalloc_pool-Serves table i size h free live owner ok (v, s, e) fits = go (free i) refl
  where
    go : (xs : List ℕ) → free i ≡ xs → Serves (kmalloc_pool table i h) size live owner
    go [] q =
        let (h', c, r) =
          pool_allocate_page-Carved table i h free live owner v s ok (fits.is_pool) e in
        let empty : (h.pools i).head ≡ 0 = rw q at (ok.heap.chain i (fits.is_pool)) in
        let test : ((h.pools i).head == 0) ≡ true = eq→== ((h.pools i).head) 0 empty in
        let d = divides i (fits.is_pool) in
        rw (kmalloc_pool, test, c)
          (fresh-Serves i (page_size / block_size i) size h h' s free live owner ok fits (d.2)
            (let b = (alloc_page_lem table (h.space) v s e).1 in omega (arith, b)) r)
    go (x ∷ xs) q =
        let c = rw q at (ok.heap.chain i (fits.is_pool)) in
        let test : ((h.pools i).head == 0) ≡ false =
          (let a = c.0 in let b = c.1 in ground (arith, a, b)) in
        rw (kmalloc_pool, test)
          (take-Serves i size x xs h free live owner owner ok fits q (λ a y. refl))

-- From pools in order, with a page to be had: `kmalloc` of at most 2032 bytes returns the address
-- 16 bytes into a block of the smallest pool whose blocks hold the bytes and the header. The block
-- was not in use and is apart from every block in use; those keep their pools, and the pools are
-- in order with it in use.
pub kmalloc_lem :
    (fuel table size : ℕ) (h : Heap) (free : ℕ → List ℕ) (live : List ℕ) (owner : ℕ → ℕ)
    → IsKmalloc h free live owner
    → PageFor table h
    → size ≤ 2032
    → Serves (kmalloc fuel table size h) size live owner
unfolding kmalloc
kmalloc_lem fuel table size h free live owner ok page small =
    let fits =
      find_pool_go block_sizes_len 0 size (h.pools) (omega arith) (ok.heap.sizes)
        (λ j l. absurd (omega (arith, l))) small in
    let test : ltb (find_pool block_sizes_len 0 size (h.pools)) block_sizes_len ≡ true =
      lt→ltb (find_pool block_sizes_len 0 size (h.pools)) block_sizes_len (fits.is_pool) in
    rw (kmalloc, test)
      (kmalloc_pool-Serves table (find_pool block_sizes_len 0 size (h.pools)) size h free live owner
        ok page fits)

-- From pools in order: `kfree` of the address it was given for a block in use ends. The block is
-- the first free one of its pool then, it is not in use any more, and the pools are in order.
pub kfree_lem :
    (table block : ℕ) (h : Heap) (free : ℕ → List ℕ) (live : List ℕ) (owner : ℕ → ℕ)
    → IsKmalloc h free live owner
    → has block live ≡ true
    → (i : ℕ) × (h' : Heap) × (owner block ≡ suc i)
      × (kfree table (block + header_size) h ≡ some h')
      × IsKmalloc h' (update free i (block ∷ free i)) (erase block live) owner
unfolding kfree
kfree_lem table block h free live owner ok y =
    let lo = ok.heap.live_owner block y in
    let pos = lo.0 in
    let first = lo.1 in
    let i = owner block - 1 in
    let o : owner block ≡ suc i = omega (arith, pos) in
    let back : block + header_size - header_size ≡ block = omega arith in
    let test : (h.first block == 0) ≡ false = ground (arith, first, pos) in
    let same : h.first block - 1 ≡ i = ap (λ k. k - 1) first in
    (
      i,
      push_block i block h,
      o,
      rw (kfree, back, test, same) refl,
      at_break (push_block i block h) (update free i (block ∷ free i)) (erase block live) owner
          (h.space.brk) (ap (λ s. s.brk) (sym (push_space i block h)))
          (push-IsHeap h free live owner (h.space.brk) (ok.heap) i block y o) (ok.positive),
    )

-- Before any call: six empty pools.
pub init_alloc-IsKmalloc :
    (h : Heap) → 0 < h.space.brk → IsKmalloc (init_alloc h) (λ i. []) [] (λ a. 0)
unfolding init_alloc init_pools
init_alloc-IsKmalloc h pos = record {
  heap = record {
    sizes = λ i l. pool_sizes i l;
    chain = λ i l. heads i l;
    once = λ i l. tt;
    once_live = tt;
    free_owner = λ i a l y. absurd (false-true y);
    live_owner = λ a y. absurd (false-true y);
    range = λ a. omega arith;
    apart = λ a b i e. absurd (omega (arith, e));
    below = λ a i e. absurd (omega (arith, e));
  };
  positive = pos;
}
  where
    false-true : false ≡ true → ⊥
    false-true e = ground (arith, e)

    pool_sizes : (i : ℕ) → i < 6 → ((init_alloc h).pools i).max_size + header_size ≡ block_size i
    pool_sizes i l = ground arith

    heads : (i : ℕ) → i < 6 → ((init_alloc h).pools i).head ≡ 0
    heads i l = ground arith
