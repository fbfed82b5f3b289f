-- ===== src/Frames.antt =====
-- The page frames of src/page_allocator.c: a list of freed frames, linked through their first
-- words, in front of the memory regions.
pub mod Untouched
pub mod Alloc
pub mod Memtest
mod Tests
use banj_os.Base.{ℕ, ◌+◌, ◌-◌, Option, none, some, List, [], ◌∷◌, ltb, ◌==◌, if◌then◌else◌}
use banj_os.Regions.{MemRegion, page_size, u64}

-- `link` gives the word at the start of each frame.
pub record Frames : Type 0 where
  pub free_list : ℕ
  pub link : ℕ → ℕ
  pub regions : List MemRegion

-- The loop adds up what is left of each region.
pub get_free_memory : List MemRegion → (free : ℕ) → ℕ
get_free_memory [] free = free
get_free_memory (r ∷ rs) free = get_free_memory rs (u64 (free + (r.end - r.next)))

-- The next frame of the first region with one left, and the regions after it is taken.
unfoldable pub take_region : List MemRegion → Option (ℕ × List MemRegion)
take_region [] = none
take_region (r ∷ rs) =
    let rest = take_region rs in
    if ltb r.next r.end
    then some (r.next, record r { next = r.next + page_size } ∷ rs)
    else elim rest [ none ↦ none | some (p, rs') ↦ some (p, r ∷ rs') ]

-- `none` is the end of the memory, which halts.
unfoldable pub pf_alloc : Frames → Option (ℕ × Frames)
unfolding take_region
pf_alloc s =
    if s.free_list == 0
    then elim (take_region s.regions) [
      | none ↦ none
      | some (p, rs) ↦ some (p, record s { regions = rs })
    ]
    else some (s.free_list, record s { free_list = s.link s.free_list })

abbrev pub write : (ℕ → ℕ) → ℕ → ℕ → ℕ → ℕ
write f p v q = if p == q then v else f q

-- The frame's first word is written at its physical address. Whether the page table in use lets the
-- write through is the matter of `free_page`.
unfoldable pub pf_free : ℕ → Frames → Frames
pf_free pf s = record s { free_list = pf; link = write s.link pf s.free_list }
