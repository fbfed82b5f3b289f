-- ===== src/Frames/Memtest.antt =====
-- src/page_allocator.c: the cycles of MMU_memtest, which fills all pages and checks them. The first word
-- of a page is the link of a freed frame.
pub mod Capacity
pub mod Words
pub mod Cycle
pub mod Passes
mod Tests
use banj_os.Base.{
  leb, ℕ, zero, suc, ◌+◌, ◌-◌, ◌*◌, ◌/◌, Bool, true, false, ◌&&◌, Option, none, some, List, [], ◌∷◌,
  ◌==◌, if◌then◌else◌,
}
use banj_os.Regions.{MemRegion, page_size}
use banj_os.Frames.{Frames, pf_alloc, pf_free, write}

-- The allocator, with the words of the pages but the first of each.
pub record Memory : Type 0 where
  pub frames : Frames
  pub words : ℕ → ℕ → ℕ

abbrev pub read_word : Memory → (page j : ℕ) → ℕ
read_word m page j = if j == 0 then m.frames.link page else m.words page j

abbrev pub write_word : (page j value : ℕ) → Memory → Memory
write_word page j value m =
    if j == 0
    then record m { frames = record (m.frames) { link = write (m.frames.link) page value } }
    else record m { words = λ p i. if (p == page) && (i == j) then value else m.words p i }

-- `n` turns of the loop over the words, from `j` on.
unfoldable pub fill_page : (n j page : ℕ) → Memory → Memory
fill_page zero j page m = m
fill_page (suc n) j page m = fill_page n (suc j) page (write_word page j page m)

unfoldable pub check_page : (n j page : ℕ) → Memory → Bool
check_page zero j page m = true
check_page (suc n) j page m =
    if read_word m page j == page then check_page n (suc j) page m else false

abbrev pub words_of_page : ℕ
words_of_page = 512

-- The pages are given in the order in which they are allocated; `none` is the end of the memory.
unfoldable pub alloc_all : (n : ℕ) → Memory → Option (List ℕ × Memory)
alloc_all zero m = some ([], m)
alloc_all (suc n) m = elim (pf_alloc (m.frames)) [
  | none ↦ none
  | some (page, frames') ↦
      elim (alloc_all n (fill_page words_of_page 0 page (record m { frames = frames' }))) [
        | none ↦ none
        | some (pages, m') ↦ some (page ∷ pages, m')
      ]
]

-- `none` is a failed assertion.
unfoldable pub verify_all : List ℕ → Memory → Option Memory
verify_all [] m = some m
verify_all (page ∷ pages) m =
    if check_page words_of_page 0 page m
    then verify_all pages (record m { frames = pf_free page (m.frames) })
    else none

unfoldable pub memtest_cycle : (total_pages : ℕ) → Memory → Option Memory
memtest_cycle total_pages m = elim (alloc_all total_pages m) [
  | none ↦ none
  | some (pages, m') ↦ verify_all pages m'
]

unfoldable pub memtest_cycles : (cycles total_pages : ℕ) → Memory → Option Memory
memtest_cycles zero total_pages m = some m
memtest_cycles (suc cycles) total_pages m = elim (memtest_cycle total_pages m) [
  | none ↦ none
  | some m' ↦ memtest_cycles cycles total_pages m'
]

-- `total_pages` before the cycles.
unfoldable pub count_pages : List MemRegion → ℕ
count_pages [] = 0
count_pages (r ∷ rs) = (r.end - r.start) / page_size + count_pages rs

-- The allocations before the cycles: two neighbours, which come back in the reverse order.
unfoldable pub basic_allocations : Frames → Option Frames
basic_allocations s = elim (pf_alloc s) [
  | none ↦ none
  | some (addr1, s1) ↦ elim (pf_alloc s1) [
    | none ↦ none
    | some (addr2, s2) ↦ elim (addr1 + page_size == addr2) [
      | false ↦ none
      | true ↦ elim (pf_alloc (pf_free addr2 (pf_free addr1 s2))) [
        | none ↦ none
        | some (addr2_new, s3) ↦ elim (pf_alloc s3) [
          | none ↦ none
          | some (addr1_new, s4) ↦
              if (addr1 == addr1_new) && (addr2 == addr2_new)
              then some (pf_free addr2_new (pf_free addr1_new s4))
              else none
        ]
      ]
    ]
  ]
]

abbrev pub memtest_cycles_count : ℕ
memtest_cycles_count = 2

abbrev pub memtest_addr_capacity : ℕ
memtest_addr_capacity = 0x8000

-- `MMU_memtest`; `none` is a failed assertion or the end of the memory.
unfoldable pub mmu_memtest : Memory → Option Memory
mmu_memtest m = elim (basic_allocations (m.frames)) [
  | none ↦ none
  | some frames' ↦
      let total_pages = count_pages (frames'.regions) in
      if leb total_pages memtest_addr_capacity
      then memtest_cycles memtest_cycles_count total_pages (record m { frames = frames' })
      else none
]
