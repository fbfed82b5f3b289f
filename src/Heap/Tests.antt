-- ===== src/Heap/Tests.antt =====
-- Blocks of a fresh heap.
use banj_os.Base.{
  ℕ, suc, ◌-◌, ◌+◌, ◌^◌, ◌≡◌, refl, Option, none, some, List, [], ◌∷◌, arith, update, erase,
}
use banj_os.Paging.Virtual.{sbrk, alloc_page, mark_found, mark_available_callback}
use banj_os.Paging.{next_table, descend, get_entry, link}
use banj_os.Frames.{pf_alloc, take_region}
use banj_os.Paging.Tests.{begin}
use banj_os.Heap.{
  Heap, header_size, init_pools, init_alloc, find_pool, push_block, carve, pool_allocate_page,
  take_block, kmalloc_pool, kmalloc, kfree,
}
use banj_os.Heap.Calls.{IsKmalloc}
use banj_os.Heap.Kmalloc.{PageFor, Serves, kmalloc_lem, kfree_lem, init_alloc-IsKmalloc}

abbrev empty : Heap
empty = record {
  space = record { mmu = begin; brk = 2 ^ 39 };
  pools = λ _. record { max_size = 0; head = 0 };
  first = λ _. 0;
  second = λ _. 0;
}

abbrev no_blocks : ℕ → List ℕ
no_blocks i = []

ready : IsKmalloc (init_alloc empty) no_blocks [] (λ a. 0)
ready = init_alloc-IsKmalloc empty (omega arith)

page : PageFor 0x1000 (init_alloc empty)
unfolding init_alloc alloc_page mark_found sbrk mark_available_callback get_entry descend next_table
    pf_alloc take_region link
page = (2 ^ 39, _, refl)

served : Serves (kmalloc 1 0x1000 100 (init_alloc empty)) 100 [] (λ a. 0)
served = kmalloc_lem 1 0x1000 100 (init_alloc empty) no_blocks [] (λ a. 0) ready page (omega arith)

kmalloc_lem_example : Serves (kmalloc 1 0x1000 2032 (init_alloc empty)) 2032 [] (λ a. 0)
kmalloc_lem_example =
    kmalloc_lem 1 0x1000 2032 (init_alloc empty) no_blocks [] (λ a. 0) ready page (omega arith)

kfree_lem_example :
    (i : ℕ) × (h' : Heap) × (served.3.owner' (served.0) ≡ suc i)
    × (kfree 0x1000 (served.0 + header_size) (served.1) ≡ some h')
    × IsKmalloc h'
        (update (served.3.free') i (served.0 ∷ served.3.free' i))
        (erase (served.0) (served.0 ∷ []))
        (served.3.owner')
kfree_lem_example =
    kfree_lem 0x1000 (served.0) (served.1) (served.3.free') (served.0 ∷ []) (served.3.owner')
      (served.3.ok) (ground arith)

abbrev result : Option (ℕ × Heap) → ℕ
result (some (a, h)) = a
result none = 0

-- The last block of the page cut first is handed out first.
first_address : result (kmalloc 1 0x1000 100 (init_alloc empty)) ≡ 2 ^ 39 + 4096 - 128 + 16
unfolding kmalloc find_pool kmalloc_pool take_block pool_allocate_page carve push_block init_alloc
    init_pools alloc_page mark_found sbrk mark_available_callback get_entry descend next_table
    pf_alloc take_region link
first_address = refl
