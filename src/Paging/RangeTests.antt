-- ===== src/Paging/RangeTests.antt =====
-- The first page table of a machine with seven frames, and ranges of pages in it.
use banj_os.Base.{ℕ, ◌+◌, ◌*◌, ◌^◌, ◌≡◌, refl, Bool, true, false, Option, some, [], ◌∷◌, arith, inr}
use banj_os.Regions.{page_size}
use banj_os.Frames.{Frames, pf_alloc, take_region}
use banj_os.Frames.Alloc.{start-IsFrames}
use banj_os.Paging.{blank, Tables, at, link, next_table, descend, get_entry, direct_map_callback}
use banj_os.Paging.Pool.{IsPool}
use banj_os.Paging.Tree.{lookup}
use banj_os.Paging.Range.{Outcome, done, page_table_walk, last_end, init_page_table}
use banj_os.Paging.DirectMap.{Maps, init_page_table-Maps}
use banj_os.Paging.Virtual.{
  Space, sbrk, mark_available_callback, alloc_pages, mark_pages, free_page,
}
use banj_os.Paging.Tests.{begin, level, begin-IsTree, mapped}
use banj_os.Paging.Backed.{AllFault, alloc_pages-AllFault, Frees, free_page_lem}

abbrev memory : Frames
memory = record {
  free_list = 0;
  link = λ _. 0;
  regions = record { start = 0x1000; end = 0x8000; next = 0x1000 } ∷ [];
}

abbrev rest : Frames
rest = record memory { regions = record { start = 0x1000; end = 0x8000; next = 0x2000 } ∷ [] }

abbrev nothing : Tables
nothing t i = blank

memory-IsPool : IsPool memory []
memory-IsPool = record {
  free = [];
  frames =
      start-IsFrames (record { start = 0x1000; end = 0x8000; next = 0x1000 } ∷ []) (λ _. 0)
        (omega arith);
  regions_below = (omega arith, tt);
  free_below = tt;
}

first_frame : pf_alloc memory ≡ some (0x1000, rest)
unfolding pf_alloc take_region
first_frame = refl

init_page_table-Maps_example :
    (o : Outcome) × (init_page_table 9 memory nothing ≡ some (0x1000, o))
    × Maps 0x1000 4096 0x8000 o
unfolding last_end
init_page_table-Maps_example =
    init_page_table-Maps 8 memory nothing [] 0x1000 rest 0x8000 memory-IsPool first_frame refl
      (omega arith) (omega arith)

abbrev is_done : Option (ℕ × Outcome) → Bool
is_done (some (p, done s)) = true
is_done _ = false

-- Seven frames are enough.
all_mapped : is_done (init_page_table 9 memory nothing) ≡ true
unfolding init_page_table last_end page_table_walk get_entry descend next_table pf_alloc take_region
    link direct_map_callback
all_mapped = refl

abbrev heap : Space
heap = record { mmu = begin; brk = 2 ^ 39 }

alloc_pages-AllFault_example :
    (o : Outcome) × (alloc_pages 3 0x1000 2 heap ≡ some (2 ^ 39, 2 ^ 39 + page_size * 2, o))
    × AllFault 0x1000 (2 ^ 39) (2 ^ 39 + page_size * 2) o
alloc_pages-AllFault_example =
    alloc_pages-AllFault 2 0x1000 heap level (0x1000 ∷ []) begin-IsTree refl refl (omega arith)
      (omega arith)

abbrev marked_all : Option (ℕ × ℕ × Outcome) → Bool
marked_all (some (v, brk, done s)) = true
marked_all _ = false

both_marked : marked_all (alloc_pages 3 0x1000 2 heap) ≡ true
unfolding alloc_pages mark_pages sbrk page_table_walk get_entry descend next_table pf_alloc
    take_region link mark_available_callback
both_marked = refl

freed : lookup 3 0x1000 0x69420 (mapped.tables) ≡ some (0x4000, 0x69)
unfolding get_entry descend next_table pf_alloc take_region link
freed = refl

first_page : get_entry 0x1000 0 false mapped ≡ (at 0x4000 0, mapped)
unfolding get_entry descend next_table pf_alloc take_region link
first_page = refl

absent_page : (mapped.tables 0x4000 0).present ≡ false
unfolding get_entry descend next_table pf_alloc take_region link
absent_page = refl

unmarked_page : (mapped.tables 0x4000 0).available1 ≡ 0
unfolding get_entry descend next_table pf_alloc take_region link
unmarked_page = refl

untouched : (mapped.tables 0x4000 0x69).addr ≡ 0
unfolding get_entry descend next_table pf_alloc take_region link
untouched = refl

free_page_lem_example : Frees 0x4000 0x69 mapped (free_page 0x1000 0x69420 mapped)
free_page_lem_example =
    free_page_lem 0x1000 0x69420 0x4000 0x69 mapped freed
      (inr (0x4000, 0, first_page, absent_page, unmarked_page)) (λ n. absurd (n untouched))
