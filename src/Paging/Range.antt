-- ===== src/Paging/Range.antt =====
-- src/page_table.c: the loop over a range of pages, and the first page table.
use banj_os.Base.{ℕ, zero, suc, ◌+◌, true, false, Option, none, some, List, [], ◌∷◌, ltb}
use banj_os.Regions.{MemRegion, page_size}
use banj_os.Frames.{Frames, pf_alloc}
use banj_os.Paging.{Tables, Mmu, zero_page, halted, missing, at, get_entry, direct_map_callback}

-- `halts` is the end of the memory, `faults` a NULL entry, and `spins` the end of the fuel.
pub data Outcome : Type 0 where
  done : Mmu → Outcome
  halts : Mmu → Outcome
  faults : Outcome
  spins : Outcome

abbrev pub Callback : Type 0
Callback = (addr table i : ℕ) → Mmu → Mmu

unfoldable pub page_table_walk : (fuel table addr end_addr : ℕ) → Callback → Mmu → Outcome
page_table_walk zero table addr end_addr callback s = spins
page_table_walk (suc fuel) table addr end_addr callback s = elim (ltb addr end_addr) [
  | false ↦ done s
  | true ↦
      let (found, s') = get_entry table addr true s in
      elim found [
        | at t i ↦
            page_table_walk fuel table (addr + page_size) end_addr callback (callback addr t i s')
        | halted ↦ halts s'
        | missing ↦ faults
      ]
]

unfoldable pub last_end : List MemRegion → Option ℕ
last_end [] = none
last_end (r ∷ []) = some (r.end)
last_end (r ∷ r' ∷ rs) = last_end (r' ∷ rs)

-- The top table and the outcome; the first frame is missing at `none`, and so is the last region.
unfoldable pub init_page_table : (fuel : ℕ) → Frames → Tables → Option (ℕ × Outcome)
init_page_table fuel f tables = elim (pf_alloc f) [
  | none ↦ none
  | some (p, f') ↦ elim (last_end (f'.regions)) [
    | none ↦ none
    | some mem_end ↦ some (
      p,
      page_table_walk fuel p page_size mem_end direct_map_callback
          (record { frames = f'; tables = zero_page tables p }),
    )
  ]
]
