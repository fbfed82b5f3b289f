-- ===== src/Heap/Calls.antt =====
-- What kmalloc and kfree promise for the sizes that the pools serve.
use banj_os.Base.{
  ℕ, zero, suc, ◌+◌, ◌*◌, ◌/◌, ◌%◌, ◌≤◌, ◌<◌, ◌≡◌, ◌≢◌, ◌∙◌, ◌⊎◌, refl, ap, true, false, some, List,
  ◌∷◌, arith, ◌==◌, eq→==, ltb, ltb→lt, ltb→le, Bool-cases, inl, inr, has, update,
}
use banj_os.Regions.{page_size}
use banj_os.Paging.Virtual.{Space, sbrk, alloc_page, mark_found}
use banj_os.Paging.{Mmu, Found, halted, missing, at, get_entry}
use banj_os.Heap.{KmallocPool, Heap, header_size, take_block, pool_allocate_page, find_pool}
use banj_os.Heap.Blocks.{IsHeap, block_size, block_size_bound, take-IsHeap}
use banj_os.Heap.Carve.{Carved, carve-Carved}

-- The pools over the pages up to the break.
pub record IsKmalloc (h : Heap) (free : ℕ → List ℕ) (live : List ℕ) (owner : ℕ → ℕ) : Type 0 where
  pub heap : IsHeap h free live owner (h.space.brk)
  pub positive : 0 < h.space.brk

-- The smallest pool whose blocks hold `size` bytes and the header.
pub record Fits (i size : ℕ) : Type 0 where
  pub is_pool : i < 6
  pub holds : size + header_size ≤ block_size i
  pub smallest : (j : ℕ) → j < i → block_size j < size + header_size

pub find_pool_go :
    (n i size : ℕ) (pools : ℕ → KmallocPool)
    → n + i ≡ 6
    → ((j : ℕ) → j < 6 → (pools j).max_size + header_size ≡ block_size j)
    → ((j : ℕ) → j < i → block_size j < size + header_size)
    → size ≤ 2032
    → Fits (find_pool n i size pools) size
unfolding find_pool
find_pool_go zero i size pools e sizes less h =
    absurd (let l = less 5 (omega (arith, e)) in omega (arith, l, h))
find_pool_go (suc n) i size pools e sizes less h =
    let here = sizes i (omega (arith, e)) in
    elim (Bool-cases (ltb ((pools i).max_size) size)) [
      | inl small ↦
          let s = ltb→lt ((pools i).max_size) size small in
          rw small (
            find_pool_go n (suc i) size pools (omega (arith, e)) sizes
              (λ j l. elim (Bool-cases (ltb j i)) [
                | inl p ↦ less j (ltb→lt j i p)
                | inr p ↦
                    let q : j ≡ i = omega (arith, ltb→le j i p, l) in rw q (omega (arith, here, s))
              ])
              h)
      | inr large ↦
          let s = ltb→le ((pools i).max_size) size large in
          rw large
            (record { is_pool = omega (arith, e); holds = omega (arith, here, s); smallest = less })
    ]

pub alloc_page_lem :
    (table : ℕ) (s : Space) (v : ℕ) (s' : Space)
    → alloc_page table s ≡ some (v, s')
    → (v ≡ s.brk) × (s'.brk ≡ s.brk + page_size)
unfolding alloc_page mark_found sbrk
alloc_page_lem table s v s' e = go (get_entry table (s.brk) true (s.mmu)) refl
  where
    go :
        (r : Found × Mmu)
        → get_entry table (s.brk) true (s.mmu) ≡ r
        → (v ≡ s.brk) × (s'.brk ≡ s.brk + page_size)
    go (halted, m) q = absurd (let e' = rw (alloc_page, q) at e in ground arith)
    go (missing, m) q = absurd (let e' = rw (alloc_page, q) at e in ground arith)
    go (at t i, m) q = let e' = rw (alloc_page, q) at e in (ground arith, ground arith)

pub divides :
    (i : ℕ)
    → i < 6
    → (page_size % block_size i ≡ 0)
      × (page_size ≡ page_size / block_size i * block_size i)
      × (0 < page_size / block_size i)
      × (page_size / block_size i < page_size)
divides zero h = omega arith
divides (suc zero) h = omega arith
divides (suc (suc zero)) h = omega arith
divides (suc (suc (suc zero))) h = omega arith
divides (suc (suc (suc (suc zero)))) h = omega arith
divides (suc (suc (suc (suc (suc zero))))) h = omega arith
divides (suc (suc (suc (suc (suc (suc n)))))) h = absurd (omega arith)

-- A page more for a pool.
pub pool_allocate_page-Carved :
    (table i : ℕ) (h : Heap) (free : ℕ → List ℕ) (live : List ℕ) (owner : ℕ → ℕ) (v : ℕ) (s : Space)
    → IsKmalloc h free live owner
    → i < 6
    → alloc_page table (h.space) ≡ some (v, s)
    → (h' : Heap) × (pool_allocate_page table i h ≡ some h')
      × Carved i (page_size / block_size i) (s.brk) (record h { space = s }) h' free live owner
unfolding pool_allocate_page
pool_allocate_page-Carved table i h free live owner v s ok li e =
    let (ev, eb) = alloc_page_lem table (h.space) v s e in
    let (d, q, p, f) = divides i li in
    let step = ok.heap.sizes i li in
    let (h', c, r) =
      carve-Carved (page_size / block_size i) 4095 i (h.space.brk) (s.brk) (record h { space = s })
        free live owner
        (record {
          sizes = ok.heap.sizes;
          chain = ok.heap.chain;
          once = ok.heap.once;
          once_live = ok.heap.once_live;
          free_owner = ok.heap.free_owner;
          live_owner = ok.heap.live_owner;
          range = ok.heap.range;
          apart = ok.heap.apart;
          below = ok.heap.below;
        })
        li (ok.positive) (eb ∙ ap (λ k. h.space.brk + k) q)
        (let b = block_size_bound i li in omega (arith, b)) (omega (arith, f)) in
    let test : (page_size % block_size i == 0) ≡ true = eq→== (page_size % block_size i) 0 d in
    (h', rw (pool_allocate_page, e, step, test, ev, ← eb) c, r)

-- A block of at least `size` bytes, handed out to nobody else, apart from all other blocks in use.
pub record Handed (size block : ℕ) (h' : Heap) (live : List ℕ) (owner : ℕ → ℕ) : Type 0 where
  pub free' : ℕ → List ℕ
  pub owner' : ℕ → ℕ
  pub pool : ℕ
  pub ok : IsKmalloc h' free' (block ∷ live) owner'
  pub owned : owner' block ≡ suc pool
  pub fits : Fits pool size
  pub fresh : has block live ≡ false
  pub owners : (a : ℕ) → has a live ≡ true → owner' a ≡ owner a
  pub apart :
      (a i : ℕ)
      → has a live ≡ true
      → owner a ≡ suc i
      → (a + block_size i ≤ block) ⊎ (block + block_size pool ≤ a)

take_space : (i : ℕ) (h : Heap) → (take_block i h).1.space ≡ h.space
unfolding take_block
take_space i h = refl

pub take-Handed :
    (i size x : ℕ) (xs : List ℕ) (h : Heap) (free : ℕ → List ℕ) (live : List ℕ)
    (owner owner0 : ℕ → ℕ)
    → IsKmalloc h free live owner
    → Fits i size
    → free i ≡ x ∷ xs
    → ((a : ℕ) → has a live ≡ true → owner a ≡ owner0 a)
    → ((take_block i h).0 ≡ x + header_size) × Handed size x ((take_block i h).1) live owner0
take-Handed i size x xs h free live owner owner0 ok fits e same =
    let (addr, after) =
      take-IsHeap h free live owner (h.space.brk) (ok.heap) i x xs (fits.is_pool) e in
    let fo = ok.heap.free_owner i x (fits.is_pool) (rw e (ground arith)) in
    let o = fo.0 in
    let n = fo.1 in
    (
      addr,
      record {
        free' = update free i xs;
        owner' = owner;
        pool = i;
        ok = record {
          heap = rw (take_space i h) after;
          positive = rw (take_space i h) (ok.positive);
        };
        owned = o;
        fits = fits;
        fresh = n;
        owners = same;
        apart = λ a j y q.
            let q' = same a y ∙ q in
            let p = (ok.heap.live_owner a y).0 in
            elim (Bool-cases (ltb a x)) [
              | inl l ↦ inl (ok.heap.apart a x j q' (omega (arith, o)) (ltb→lt a x l))
              | inr l ↦
                  let ne : a ≢ x = (λ z. ground (arith, z, y, n)) in
                  let le = ltb→le a x l in inr (ok.heap.apart x a i o p (omega (arith, le, ne)))
            ];
      },
    )
