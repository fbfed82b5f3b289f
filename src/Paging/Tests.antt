-- ===== src/Paging/Tests.antt =====
-- One address mapped in an empty tree of tables.
use banj_os.Base.{ℕ, none, some, ◌^◌, ◌≡◌, refl, true, false, [], ◌∷◌, arith, ◌==◌, if◌then◌else◌}
use banj_os.Frames.{Frames, pf_alloc, take_region}
use banj_os.Paging.{blank, Mmu, link, next_table, missing, at, descend, get_entry}
use banj_os.Paging.Words.{SetsEntry, pt_entry-set_entry_word}
use banj_os.Paging.Virtual.{
  Space, sbrk, alloc_page, mark_found, mark_available_callback, page_fault_handler,
}
use banj_os.Paging.Fault.{page_fault_handler-alloc_page}
use banj_os.Paging.Tree.{IsTree}
use banj_os.Paging.Translate.{Reaches, get_entry-get_entry}

-- The top table is the frame 0x1000, and the region has the frames up to 0x8000.
abbrev pub begin : Mmu
begin = record {
  frames = record {
    free_list = 0;
    link = λ _. 0;
    regions = record { start = 0x1000; end = 0x8000; next = 0x2000 } ∷ [];
  };
  tables = λ t i. blank;
}

abbrev pub level : ℕ → ℕ
level t = if 0x1000 == t then 4 else 0

pub begin-IsTree : IsTree begin level (0x1000 ∷ [])
begin-IsTree = record {
  pool = record {
    free = [];
    frames = record {
      chain = refl;
      ready = omega arith;
      once_free = tt;
      once_out = (refl, tt);
      apart = λ a i. ground (arith, i);
      was_free = λ a i. ground arith;
      was_out = λ a i. ground arith;
    };
    regions_below = (omega arith, tt);
    free_below = tt;
  };
  in_use = λ t h. ground (arith, h);
  below = λ t i k h q. absurd (ground (arith, q));
  single = λ t i t' i' k h h' q q' e. absurd (ground (arith, q));
}

abbrev pub mapped : Mmu
mapped = (get_entry 0x1000 0x69420 true begin).1

pub reached : get_entry 0x1000 0x69420 true begin ≡ (at 0x4000 0x69, mapped)
unfolding get_entry descend next_table pf_alloc take_region link
reached = refl

not_mapped : (get_entry 0x1000 0x69420 false begin).0 ≡ missing
unfolding get_entry descend next_table
not_mapped = refl

get_entry-get_entry_example : get_entry 0x1000 0x69420 false mapped ≡ (at 0x4000 0x69, mapped)
get_entry-get_entry_example =
    get_entry-get_entry 0x1000 0x69420 begin level (0x1000 ∷ []) 0x4000 0x69 mapped begin-IsTree
      refl reached false

-- A page of the kernel heap, handed out and touched.
abbrev space : Space
space = record { mmu = begin; brk = 2 ^ 39 }

abbrev handed_out : Space
handed_out = elim (alloc_page 0x1000 space) [ none ↦ space | some (v, s) ↦ s ]

handed : alloc_page 0x1000 space ≡ some (2 ^ 39, handed_out)
unfolding alloc_page sbrk mark_found get_entry descend next_table pf_alloc take_region link
handed = refl

abbrev after_frame : Frames
after_frame = elim (pf_alloc (handed_out.mmu.frames)) [
  | none ↦ handed_out.mmu.frames
  | some (p, f) ↦ f
]

one_left : pf_alloc (handed_out.mmu.frames) ≡ some (0x5000, after_frame)
unfolding alloc_page sbrk mark_found get_entry descend next_table pf_alloc take_region link
    mark_available_callback
one_left = refl

page_fault_handler-alloc_page_example :
    (m : Mmu) × (page_fault_handler 0x1000 (2 ^ 39) (handed_out.mmu) ≡ some m)
    × Reaches 0x1000 (2 ^ 39) 0x5000 m
page_fault_handler-alloc_page_example =
    page_fault_handler-alloc_page 0x1000 space level (0x1000 ∷ []) (2 ^ 39) handed_out 0x5000
      after_frame begin-IsTree refl handed one_left

-- A page that was touched, with the ban on execution, is mapped again, to the frame 7.
pt_entry-set_entry_word_example : SetsEntry 0x7000 0x8000000000005261
pt_entry-set_entry_word_example = pt_entry-set_entry_word 0x7000 0x8000000000005261
