-- ===== src/Paging/Backed.antt =====
-- Pages that are handed out together, faults in them, and a page that is freed before its first fault.
use banj_os.Base.{
  ℕ, suc, ◌+◌, ◌*◌, ◌%◌, ◌^◌, ◌≤◌, ◌<◌, ◌≡◌, ◌∙◌, refl, true, false, none, some, List, arith, ltb,
  lt→ltb, ◌==◌, ==→eq, Bool-cases, ◌⊎◌, inl, inr, ◌≢◌, Option,
}
use banj_os.Regions.{page_size}
use banj_os.Frames.{Frames, pf_alloc, pf_free, write}
use banj_os.Frames.Alloc.{pf_alloc-pf_free}
use banj_os.Paging.{
  Entry, Mmu, set_entry, frame_number, page_offset, missing, at, get_entry, virt_to_phys,
}
use banj_os.Paging.Pool.{pf_alloc-IsNew}
use banj_os.Paging.Tree.{IsTree, lookup}
use banj_os.Paging.Translate.{Reaches, descend-lookup, lookup-kept, set_entry_self}
use banj_os.Paging.Apart.{lookup-lowest}
use banj_os.Paging.Mapped.{IsMapped, set_entry_above}
use banj_os.Paging.Walk.{Ends, walk-Ends}
use banj_os.Paging.Range.{Outcome, done, halts, faults, spins, page_table_walk}
use banj_os.Paging.Virtual.{
  Space, sbrk, mark_available_callback, alloc_pages, mark_pages, touch_at, touch, fault_at,
  page_fault_handler, free_at, free_page,
}

abbrev pub IsAvailable : ℕ → Entry → Type 0
IsAvailable v e = e.available1 ≡ 1

abbrev mark : ℕ → Entry → Entry
mark addr e = record e { available1 = 1 }

-- A fault at an address whose entry is marked.
abbrev pub Faults : (table v : ℕ) → Mmu → Type 0
Faults table v s =
    (p : ℕ) (f : Frames)
    → pf_alloc (s.frames) ≡ some (p, f)
    → (m : Mmu) × (page_fault_handler table v s ≡ some m) × Reaches table v (p + page_offset v) m

IsMapped-Faults :
    (table v : ℕ) (s : Mmu) (lev : ℕ → ℕ) (out : List ℕ)
    → IsTree s lev out
    → lev table ≡ 4
    → IsMapped IsAvailable table s v
    → Faults table v s
unfolding page_fault_handler fault_at virt_to_phys get_entry
IsMapped-Faults table v s lev out tree top (t, i, l, mk) p f a =
    let e : Entry = record (s.tables t i) {
      present = true;
      read_write = true;
      addr = frame_number p;
    } in
    let m : Mmu = record { frames = f; tables = set_entry (s.tables) t i e } in
    let low = lookup-lowest s lev out tree 3 table v t i top l in
    let here = descend-lookup 3 table v false s t i l in
    let kept =
      lookup-kept 3 table v s m lev out tree top
        (λ q j h. set_entry_above (s.tables) t i e lev q j low h) in
    let there = descend-lookup 3 table v false m t i (kept ∙ l) in
    let new = (pf_alloc-IsNew (s.frames) out p f (tree.pool) a).1 in
    let al = new.aligned in
    let be = new.below in
    let self = set_entry_self (s.tables) t i e in
    let marks : ((s.tables t i).available1 == 0) ≡ false = rw mk refl in
    (
      m,
      rw (page_fault_handler, here, fault_at, marks, a) refl,
      (
        t,
        i,
        there,
        rw self refl,
        rw self refl,
        rw (virt_to_phys, there, self) (omega (arith, al, be)),
      ),
    )

-- Each address faults in; or the memory ended, with no frame left.
abbrev pub AllFault : (table lo hi : ℕ) → Outcome → Type 0
AllFault table lo hi (done s) = (v : ℕ) → lo ≤ v → v < hi → Faults table v s
AllFault table lo hi (halts s) = pf_alloc (s.frames) ≡ none
AllFault table lo hi faults = ⊥
AllFault table lo hi spins = ⊥

Ends-AllFault :
    (table lo hi : ℕ) (o : Outcome) → Ends IsAvailable table lo hi o → AllFault table lo hi o
Ends-AllFault table lo hi (done s) (lev, out, tree, top, h) =
    λ v l u. IsMapped-Faults table v s lev out tree top (h v l u)
Ends-AllFault table lo hi (halts s) e = e
Ends-AllFault table lo hi faults e = absurd e
Ends-AllFault table lo hi spins e = absurd e

-- From tables that form a tree below `table`, a break at a page and below 2 ^ 48 in the end, fewer
-- than 2 ^ 19 pages, and more fuel than pages: `MMU_alloc_pages` returns the old break and moves it by the pages, and it either
-- ends, and then a fault at any address of the pages succeeds as long as a frame is left and the
-- address translates to that frame plus its offset, by an entry that is present and writable; or it halts where no frame is left.
pub alloc_pages-AllFault :
    (num table : ℕ) (s : Space) (lev : ℕ → ℕ) (out : List ℕ)
    → IsTree (s.mmu) lev out
    → lev table ≡ 4
    → s.brk % page_size ≡ 0
    → s.brk + page_size * num ≤ 2 ^ 48
    → num < 2 ^ 19
    → (o : Outcome) × (alloc_pages (suc num) table num s ≡ some (s.brk, s.brk + page_size * num, o))
      × AllFault table (s.brk) (s.brk + page_size * num) o
unfolding alloc_pages mark_pages sbrk mark_available_callback
alloc_pages-AllFault num table s lev out tree top al b few =
    let v = s.brk in
    let fits : ltb (page_size * num) (2 ^ 31) ≡ true = lt→ltb _ _ (omega (arith, few)) in
    (
      page_table_walk (suc num) table v (v + page_size * num) mark_available_callback (s.mmu),
      rw fits refl,
      Ends-AllFault table v (v + page_size * num)
          (page_table_walk (suc num) table v (v + page_size * num) mark_available_callback (s.mmu))
          (walk-Ends IsAvailable mark (λ addr w e x y z. refl) num table v v (v + page_size * num)
            (s.mmu) lev out tree top al b (omega arith) (λ w l u. absurd (omega (arith, l, u)))),
    )

-- No access to `v` gets through: a table on the way is missing, or its entry is neither present nor
-- marked.
abbrev pub Unmapped : (table v : ℕ) → Mmu → Type 0
Unmapped table v s =
    (get_entry table v false s ≡ (missing, s))
    ⊎ ((t : ℕ) × (i : ℕ) × (get_entry table v false s ≡ (at t i, s))
        × ((s.tables t i).present ≡ false)
        × ((s.tables t i).available1 ≡ 0))

touch-Unmapped : (table v : ℕ) (s : Mmu) → Unmapped table v s → touch table v s ≡ none
unfolding touch touch_at page_fault_handler fault_at
touch-Unmapped table v s u = elim u [
  | inl e ↦ rw (touch, e, touch_at, page_fault_handler, e) refl
  | inr (t, i, e, absent, unmarked) ↦
      rw (touch, e, touch_at, absent, page_fault_handler, e, fault_at, unmarked) refl
]

touch-Reaches : (table v p : ℕ) (s : Mmu) → Reaches table v p s → touch table v s ≡ some s
unfolding touch touch_at
touch-Reaches table v p s (t, i, e, present, _, _) = rw (touch, e, touch_at, present) refl

-- What `MMU_free_page` leaves of a page with the entry `i` of `t`: a halt for the frame number 0, and
-- else the page is not present, its frame is the next one to be handed out, and the freed frames
-- before it are behind it.
abbrev pub Frees : (t i : ℕ) (s : Mmu) → Option Mmu → Type 0
Frees t i s result =
    (((s.tables t i).addr ≡ 0) × (result ≡ none))
    ⊎ (((s.tables t i).addr ≢ 0)
        × ((m : Mmu) × (result ≡ some m)
            × ((m.tables t i).present ≡ false)
            × ((f : Frames) × (pf_alloc (m.frames) ≡ some ((s.tables t i).addr * 4096, f))
                × (f.free_list ≡ s.frames.free_list)
                × (f.regions ≡ s.frames.regions))))

-- For a page whose tables are there, when the first page is not mapped, and a frame in the page's
-- entry that is not 0 is mapped to itself: `MMU_free_page` halts if the entry has the frame number 0,
-- since it was never faulted in. Else it succeeds: the page is not present then, its frame is the
-- next one to be handed out, and the freed frames before it are behind it.
pub free_page_lem :
    (table v t i : ℕ) (s : Mmu)
    → lookup 3 table v (s.tables) ≡ some (t, i)
    → Unmapped table 0 s
    → ((s.tables t i).addr ≢ 0
        → Reaches table ((s.tables t i).addr * 4096) ((s.tables t i).addr * 4096) s)
    → Frees t i s (free_page table v s)
unfolding free_page free_at get_entry
free_page_lem table v t i s l u r =
    let here = descend-lookup 3 table v true s t i l in
    let frame = (s.tables t i).addr * 4096 in
    elim (Bool-cases ((s.tables t i).addr == 0)) [
      | inl y ↦
          let z = ==→eq _ _ y in
          let not_there : touch table ((s.tables t i).addr * 4096) s ≡ none =
            rw z (touch-Unmapped table 0 s u) in
          inl (z, rw (free_page, here, free_at, not_there) refl)
      | inr n ↦
          let nz : (s.tables t i).addr ≢ 0 = ground (arith, n) in
          let there = touch-Reaches table frame frame s (r nz) in
          inr (
            nz,
            (
              record {
                frames = pf_free frame (s.frames);
                tables = set_entry (s.tables) t i (record (s.tables t i) { present = false });
              },
              rw (free_page, here, free_at, there) refl,
              rw (set_entry_self (s.tables) t i (record (s.tables t i) { present = false })) refl,
              (
                record (s.frames) { link = write (s.frames.link) frame (s.frames.free_list) },
                pf_alloc-pf_free (s.frames) frame (λ e. nz (omega (arith, e))),
                refl,
                refl,
              ),
            ),
          )
    ]
