-- ===== src/Heap.antt =====
-- src/allocator.c: kmalloc and kfree, with six pools of blocks over virtual pages. A pool is its
-- index, a pointer to it is one more, 0 for NULL. `first` and `second` are the words at the start
-- of each block: its header while it is handed out, and the link of the free list while it is not.
pub mod Blocks
pub mod Carve
pub mod Calls
pub mod Kmalloc
mod Tests
use banj_os.Base.{
  ℕ, zero, suc, ◌+◌, ◌-◌, ◌*◌, ◌/◌, ◌%◌, ◌^◌, Bool, true, false, Option, none, some, List, [], ◌∷◌,
  ltb, ◌==◌, if◌then◌else◌, get_or, update,
}
use banj_os.Regions.{page_size}
use banj_os.Paging.{Mmu}
use banj_os.Paging.Range.{Outcome, done, halts, faults, spins}
use banj_os.Paging.Virtual.{Space, alloc_page, alloc_pages, free_pages}

pub record KmallocPool : Type 0 where
  pub max_size : ℕ
  pub head : ℕ

pub record Heap : Type 0 where
  pub space : Space
  pub pools : ℕ → KmallocPool
  pub first : ℕ → ℕ
  pub second : ℕ → ℕ

abbrev pub header_size : ℕ
header_size = 16

abbrev pub block_sizes : List ℕ
block_sizes = 32 ∷ 64 ∷ 128 ∷ 512 ∷ 1024 ∷ 2048 ∷ []

abbrev pub block_sizes_len : ℕ
block_sizes_len = 6

-- The loop of `init_alloc`, `n` turns from `i` on.
pub init_pools : (n i : ℕ) → (ℕ → KmallocPool) → ℕ → KmallocPool
init_pools zero i pools = pools
init_pools (suc n) i pools =
    init_pools n (suc i)
      (update pools i (record { max_size = get_or block_sizes i 0 - header_size; head = 0 }))

pub init_alloc : Heap → Heap
init_alloc h = record h { pools = init_pools block_sizes_len 0 (h.pools) }

abbrev pub set_head : Heap → (i head : ℕ) → ℕ → KmallocPool
set_head h i head = update (h.pools) i (record { max_size = (h.pools i).max_size; head = head })

-- A block becomes the first of a pool's free list.
pub push_block : (i block : ℕ) → Heap → Heap
push_block i block h = record h {
  pools = set_head h i block;
  first = update (h.first) block ((h.pools i).head);
}

-- The loop of `pool_allocate_page`; `none` is the end of the fuel.
pub carve : (fuel i block end step : ℕ) → Heap → Option Heap
carve zero i block end step h = none
carve (suc fuel) i block end step h =
    let rest = carve fuel i (block + step) end step (push_block i block h) in
    if ltb block end then rest else some h

-- `none` is also the failed assertion, and a page that cannot be had.
pub pool_allocate_page : (table i : ℕ) → Heap → Option Heap
pool_allocate_page table i h = elim (alloc_page table (h.space)) [
  | none ↦ none
  | some (page, space') ↦
      let step = (h.pools i).max_size + header_size in
      if page_size % step == 0
      then carve page_size i page (page + page_size) step (record h { space = space' })
      else none
]

-- The loop over the pools, `n` turns from `i` on.
pub find_pool : (n i size : ℕ) → (ℕ → KmallocPool) → ℕ
find_pool zero i size pools = i
find_pool (suc n) i size pools =
    let rest = find_pool n (suc i) size pools in if ltb ((pools i).max_size) size then rest else i

-- The first block of the pool's free list, with its header.
pub take_block : (i : ℕ) → Heap → ℕ × Heap
take_block i h =
    let addr = (h.pools i).head in
    (
      addr + header_size,
      record h {
        pools = set_head h i (h.first addr);
        first = update (h.first) addr (suc i);
        second = update (h.second) addr 0;
      },
    )

pub kmalloc_pool : (table i : ℕ) → Heap → Option (ℕ × Heap)
kmalloc_pool table i h =
    if (h.pools i).head == 0
    then elim (pool_allocate_page table i h) [ none ↦ none | some h' ↦ some (take_block i h') ]
    else some (take_block i h)

abbrev pub num_pages : ℕ → ℕ
num_pages size = size / page_size + (if size % page_size == 0 then 0 else 1)

-- The pages of a large block, with its header.
pub kmalloc_pages : (fuel table size : ℕ) → Heap → Option (ℕ × Heap)
kmalloc_pages fuel table size h =
    let size' = (size + header_size) % 2 ^ 64 in
    elim (alloc_pages fuel table (num_pages size' % 2 ^ 32) (h.space)) [
      | none ↦ none
      | some (addr, brk, done m) ↦ some (
        addr + header_size,
        record h {
          space = record { mmu = m; brk = brk };
          first = update (h.first) addr 0;
          second = update (h.second) addr size';
        },
      )
      | some (addr, brk, o) ↦ none
    ]

pub kmalloc : (fuel table size : ℕ) → Heap → Option (ℕ × Heap)
kmalloc fuel table size h =
    let i = find_pool block_sizes_len 0 size (h.pools) in
    if ltb i block_sizes_len then kmalloc_pool table i h else kmalloc_pages fuel table size h

pub kfree : (table addr : ℕ) → Heap → Option Heap
kfree table addr h =
    let block = addr - header_size in
    let pool = h.first block in
    if pool == 0
    then elim (free_pages (num_pages (h.second block) % 2 ^ 32) table addr (h.space.mmu)) [
      | none ↦ none
      | some m ↦ some (record h { space = record { mmu = m; brk = h.space.brk } })
    ]
    else some (push_block (pool - 1) block h)
