-- ===== src/Paging/Virtual.antt =====
-- src/page_allocator.c: virtual pages. A page is marked when it is handed out, and gets its frame by
-- the page fault of the first access. The page table in use and the faulting address, which the
-- processor holds in cr3 and cr2, are arguments; `none` is a halt.
use banj_os.Base.{
  ℕ, zero, suc, ◌+◌, ◌*◌, ◌^◌, ltb, Bool, true, false, Option, none, some, ◌==◌, if◌then◌else◌,
}
use banj_os.Regions.{page_size}
use banj_os.Frames.{pf_alloc, pf_free}
use banj_os.Paging.Range.{Outcome, page_table_walk}
use banj_os.Paging.{Mmu, set_entry, frame_number, Found, halted, missing, at, get_entry}

pub record Space : Type 0 where
  pub mmu : Mmu
  pub brk : ℕ

unfoldable pub sbrk : (increment : ℕ) → Space → ℕ × Space
sbrk increment s = (s.brk, record s { brk = s.brk + increment })

unfoldable pub mark_available_callback : (virt_addr table i : ℕ) → Mmu → Mmu
mark_available_callback virt_addr table i s = record s {
  tables = set_entry (s.tables) table i (record (s.tables table i) { available1 = 1 });
}

unfoldable pub mark_found : (virt_addr brk : ℕ) → Found × Mmu → Option (ℕ × Space)
mark_found virt_addr brk (at table i, s) =
    some (virt_addr, record { mmu = mark_available_callback virt_addr table i s; brk = brk })
mark_found virt_addr brk (halted, s) = none
mark_found virt_addr brk (missing, s) = none

unfoldable pub alloc_page : (table : ℕ) → Space → Option (ℕ × Space)
alloc_page table s =
    let (virt_addr, s') = sbrk page_size s in
    mark_found virt_addr (s'.brk) (get_entry table virt_addr true (s'.mmu))

unfoldable pub fault_at : Found × Mmu → Option Mmu
fault_at (at table i, s) =
    if (s.tables table i).available1 == 0 then none else elim (pf_alloc (s.frames)) [
      | none ↦ none
      | some (p, f) ↦ some (record {
        frames = f;
        tables = set_entry (s.tables) table i (record (s.tables table i) {
          present = true;
          read_write = true;
          addr = frame_number p;
        });
      })
    ]
fault_at (halted, s) = none
fault_at (missing, s) = none

unfoldable pub page_fault_handler : (table addr : ℕ) → Mmu → Option Mmu
page_fault_handler table addr s = fault_at (get_entry table addr false s)

-- The product of a page's size and a number of pages is an `int`, beyond which it is undefined.
abbrev pub fits_int : ℕ → Bool
fits_int n = ltb n (2 ^ 31)

unfoldable pub mark_pages : (fuel table num : ℕ) → Space → ℕ × ℕ × Outcome
mark_pages fuel table num s =
    let (virt_addr, s') = sbrk (page_size * num) s in
    (
      virt_addr,
      s'.brk,
      page_table_walk fuel table virt_addr (virt_addr + page_size * num) mark_available_callback
          (s'.mmu),
    )

-- The address, the break after it, and the outcome of marking `num` pages, a number that is not
-- negative: `none` is undefined, and a negative number is left out.
unfoldable pub alloc_pages : (fuel table num : ℕ) → Space → Option (ℕ × ℕ × Outcome)
alloc_pages fuel table num s =
    if fits_int (page_size * num) then some (mark_pages fuel table num s) else none

-- A store to an address: where its page is not present, it faults first.
unfoldable pub touch_at : (table addr : ℕ) → Found × Mmu → Option Mmu
touch_at table addr (at t i, s) =
    if (s.tables t i).present then some s else page_fault_handler table addr s
touch_at table addr (halted, s) = none
touch_at table addr (missing, s) = page_fault_handler table addr s

unfoldable pub touch : (table addr : ℕ) → Mmu → Option Mmu
touch table addr s = touch_at table addr (get_entry table addr false s)

-- `MMU_pf_free` stores into the frame, at its physical address.
unfoldable pub free_at : (top : ℕ) → Found × Mmu → Option Mmu
free_at top (at table i, s) = elim (touch top ((s.tables table i).addr * 4096) s) [
  | none ↦ none
  | some s' ↦ some (record {
    frames = pf_free ((s.tables table i).addr * 4096) (s'.frames);
    tables = set_entry (s'.tables) table i (record (s'.tables table i) { present = false });
  })
]
free_at top (halted, s) = none
free_at top (missing, s) = none

unfoldable pub free_page : (table virt_addr : ℕ) → Mmu → Option Mmu
free_page table virt_addr s = free_at table (get_entry table virt_addr true s)

-- The loop over `num` pages.
unfoldable pub free_each : (num table page : ℕ) → Mmu → Option Mmu
free_each zero table page s = some s
free_each (suc num) table page s = elim (free_page table page s) [
  | none ↦ none
  | some s' ↦ free_each num table (page + page_size) s'
]

unfoldable pub free_pages : (num table virt_addr : ℕ) → Mmu → Option Mmu
free_pages num table virt_addr s =
    if fits_int (page_size * num) then free_each num table virt_addr s else none
