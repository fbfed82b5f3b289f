-- ===== src/Paging/Fault.antt =====
-- The first access to a page that was handed out gives it a frame.
use banj_os.Base.{
  ℕ, ◌+◌, ◌<◌, ◌≡◌, ◌∙◌, sym, refl, true, false, some, List, arith, ◌==◌, Bool-cases, inl, inr,
}
use mathlib.Core.Path.{subst}
use banj_os.Regions.{page_size}
use banj_os.Frames.{pf_alloc, Frames}
use banj_os.Paging.{
  Entry, Tables, Mmu, set_entry, page_offset, frame_number, Found, halted, missing, at, get_entry,
  virt_to_phys,
}
use banj_os.Paging.Pool.{pf_alloc-IsNew}
use banj_os.Paging.Tree.{IsTree, Walked, descend-Walked}
use banj_os.Paging.Translate.{Reaches, descend-lookup, lookup-kept, set_entry_self}
use banj_os.Paging.Virtual.{
  Space, sbrk, mark_available_callback, mark_found, alloc_page, fault_at, page_fault_handler,
}

-- Entries of the lowest level are on no way.
same_above :
    (f : Tables) (lev : ℕ → ℕ) (t i : ℕ) (e : Entry) (q j : ℕ)
    → lev t ≡ 1
    → 1 < lev q
    → set_entry f t i e q j ≡ f q j
same_above f lev t i e q j low h = elim (Bool-cases (t == q)) [
  | inl same ↦ absurd (ground (arith, same, low, h))
  | inr n ↦ rw n refl
]

-- The lowest entry is still found when it changes.
found_after :
    (table v : ℕ) (s s' : Mmu) (lev : ℕ → ℕ) (t i : ℕ) (w : Walked 3 table v s s' lev t i) (m : Mmu)
    → ((q j : ℕ) → 1 < w.lev' q → m.tables q j ≡ s'.tables q j)
    → get_entry table v false m ≡ (at t i, m)
unfolding get_entry
found_after table v s s' lev t i w m same =
    descend-lookup 3 table v false m t i
      (lookup-kept 3 table v s' m (w.lev') (w.out') (w.tree) (w.level) same ∙ w.found)

-- What the handler makes of an entry that is marked.
faulted : (f : Tables) (t i p : ℕ) → Tables
faulted f t i p =
    set_entry f t i (record (f t i) { present = true; read_write = true; addr = frame_number p })

-- The address `v` was handed out, and marked in its entry.
module _ (table v : ℕ) (s s' : Mmu) (lev : ℕ → ℕ) (t i : ℕ)
    (w : Walked 3 table v s s' lev t i) where
  abbrev marked : Mmu
  marked = mark_available_callback v t i s'

  marked-above : (q j : ℕ) → 1 < w.lev' q → marked.tables q j ≡ s'.tables q j
  unfolding mark_available_callback
  marked-above q j h =
      same_above (s'.tables) (w.lev') t i (record (s'.tables t i) { available1 = 1 }) q j (w.lowest)
        h

  marked-available : (marked.tables t i).available1 ≡ 1
  unfolding mark_available_callback
  marked-available = ground arith

  marked-frames : marked.frames ≡ s'.frames
  unfolding mark_available_callback
  marked-frames = refl

  -- The fault finds the entry and puts the new frame into it, which the address then translates to.
  fault-marked :
      (p : ℕ) (f : Frames)
      → pf_alloc (marked.frames) ≡ some (p, f)
      → (m : Mmu) × (page_fault_handler table v marked ≡ some m)
        × Reaches table v (p + page_offset v) m
  unfolding page_fault_handler fault_at virt_to_phys faulted
  fault-marked p f a =
      let m : Mmu = record { frames = f; tables = faulted (marked.tables) t i p } in
      let here = found_after table v s s' lev t i w marked marked-above in
      let above : (q j : ℕ) → 1 < w.lev' q → m.tables q j ≡ s'.tables q j = (λ q j h.
        same_above (marked.tables) (w.lev') t i
          (record (marked.tables t i) { present = true; read_write = true; addr = frame_number p })
          q j (w.lowest) h
        ∙ marked-above q j h) in
      let there = found_after table v s s' lev t i w m above in
      let a' = rw marked-frames at a in
      let fresh = (pf_alloc-IsNew (s'.frames) (w.out') p f (w.tree.pool) a').1 in
      let al = fresh.aligned in
      let self =
        set_entry_self (marked.tables) t i (record (marked.tables t i) {
          present = true;
          read_write = true;
          addr = frame_number p;
        }) in
      let marks : ((marked.tables t i).available1 == 0) ≡ false =
        let k = marked-available in rw k refl in
      let be = fresh.below in
      (
        m,
        rw (page_fault_handler, here, fault_at, marks, a) refl,
        (
          t,
          i,
          there,
          rw self refl,
          rw self refl,
          rw (virt_to_phys, there, self) (omega (arith, al, be)),
        ),
      )

-- From tables that form a tree below `table`: when `MMU_alloc_page` has handed out an address and
-- the allocator gives a frame, the page fault at that address succeeds, and afterwards the
-- address's entry is found, present and writable, and the address translates to that frame, plus its
-- offset in the page.
pub page_fault_handler-alloc_page :
    (table : ℕ) (s : Space) (lev : ℕ → ℕ) (out : List ℕ) (v : ℕ) (s' : Space) (p : ℕ) (f : Frames)
    → IsTree (s.mmu) lev out
    → lev table ≡ 4
    → alloc_page table s ≡ some (v, s')
    → pf_alloc (s'.mmu.frames) ≡ some (p, f)
    → (m : Mmu) × (page_fault_handler table v (s'.mmu) ≡ some m)
      × Reaches table v (p + page_offset v) m
unfolding alloc_page mark_found sbrk get_entry
page_fault_handler-alloc_page table s lev out v s' p f tree h e a =
    go (get_entry table (s.brk) true (s.mmu)) refl
  where
    go :
        (r : Found × Mmu)
        → get_entry table (s.brk) true (s.mmu) ≡ r
        → (m : Mmu) × (page_fault_handler table v (s'.mmu) ≡ some m)
          × Reaches table v (p + page_offset v) m
    go (halted, m) q = absurd (let e' = rw (alloc_page, q) at e in ground arith)
    go (missing, m) q = absurd (let e' = rw (alloc_page, q) at e in ground arith)
    go (at t i, m) q =
        let w = descend-Walked 3 table (s.brk) (s.mmu) lev out t i m tree h q in
        let e' : some (
          s.brk,
          record { mmu = mark_available_callback (s.brk) t i m; brk = s.brk + page_size },
        )
            ≡ some (v, s') =
          rw (alloc_page, q) at e in
        let v1 : s.brk ≡ v = ground (arith, e') in
        let s1 : record { mmu = mark_available_callback (s.brk) t i m; brk = s.brk + page_size }
            ≡ s' =
          ground (arith, e') in
        let a' : pf_alloc ((mark_available_callback (s.brk) t i m).frames) ≡ some (p, f) =
          subst (λ x. pf_alloc (x.mmu.frames) ≡ some (p, f)) (sym s1) a in
        rw (← v1, ← s1) (fault-marked table (s.brk) (s.mmu) m lev t i w p f a')
