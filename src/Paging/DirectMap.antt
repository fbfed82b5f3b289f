-- ===== src/Paging/DirectMap.antt =====
-- The direct map of `init_page_table`, which goes over all memory but the first page.
use banj_os.Base.{
  ℕ, suc, ◌*◌, ◌/◌, ◌^◌, ◌≤◌, ◌<◌, ◌≡◌, refl, true, false, none, some, List, ◌∷◌, arith, ◌==◌,
}
use banj_os.Regions.{page_size}
use banj_os.Frames.{Frames, pf_alloc, write}
use banj_os.Paging.{
  Entry, Tables, Mmu, frame_number, zero_page, get_entry, virt_to_phys, direct_map_callback,
}
use banj_os.Paging.Pool.{IsPool, pf_alloc-IsNew}
use banj_os.Paging.Tree.{IsTree}
use banj_os.Paging.Translate.{Reaches, descend-lookup}
use banj_os.Paging.Mapped.{IsMapped, Sets}
use banj_os.Paging.Walk.{Ends, walk-Ends}
use banj_os.Paging.Range.{
  Outcome, done, halts, faults, spins, page_table_walk, last_end, init_page_table,
}

-- Every address of the range is mapped to itself, with an entry that is present and writable; or the memory ended, with no frame left.
abbrev pub Maps : (table lo hi : ℕ) → Outcome → Type 0
Maps table lo hi (done s) = (v : ℕ) → lo ≤ v → v < hi → Reaches table v v s
Maps table lo hi (halts s) = pf_alloc (s.frames) ≡ none
Maps table lo hi faults = ⊥
Maps table lo hi spins = ⊥

-- The entry is present and writable, and its frame is the page of the address.
abbrev IsDirect : ℕ → Entry → Type 0
IsDirect v e = (e.present ≡ true) × (e.read_write ≡ true) × (e.addr * 4096 ≡ v / 4096 * 4096)

abbrev direct : ℕ → Entry → Entry
direct addr e = record e { present = true; read_write = true; addr = frame_number addr }

direct-Sets : Sets IsDirect direct
direct-Sets addr v e al b same = (refl, refl, omega (arith, al, b, same))

IsMapped-translates : (table v : ℕ) (s : Mmu) → IsMapped IsDirect table s v → Reaches table v v s
unfolding virt_to_phys get_entry
IsMapped-translates table v s (t, i, l, (present, writable, a)) =
    let here = descend-lookup 3 table v false s t i l in
    (t, i, here, present, writable, rw (virt_to_phys, here) (omega (arith, a)))

Ends-Maps : (table lo hi : ℕ) (o : Outcome) → Ends IsDirect table lo hi o → Maps table lo hi o
Ends-Maps table lo hi (done s) (lev, out, tree, top, h) =
    λ v l u. IsMapped-translates table v s (h v l u)
Ends-Maps table lo hi (halts s) e = e
Ends-Maps table lo hi faults e = absurd e
Ends-Maps table lo hi spins e = absurd e

-- The cleared first table is a tree of its own.
zero_page-IsTree :
    (f : Frames) (tables : Tables) (p : ℕ) (out : List ℕ)
    → IsPool f (p ∷ out)
    → IsTree (record { frames = f; tables = zero_page tables p }) (write (λ _. 0) p 4) (p ∷ out)
zero_page-IsTree f tables p out pool = record {
  pool = pool;
  in_use = λ t h. ground (arith, h);
  below = λ t i k h q. absurd (absent t i (ground (arith, h)) q);
  single = λ t i t' i' k h h' q q' e. absurd (absent t i (ground (arith, h)) q);
}
  where
    absent : (t i : ℕ) → (p == t) ≡ true → (zero_page tables p t i).present ≡ true → ⊥
    absent t i h q = let q' = rw h at q in ground arith

-- With a frame for the top table, memory that ends below 2 ^ 48, and more fuel than there are pages:
-- `init_page_table` either ends with every address from the second page to the end of the memory
-- translated to itself, by an entry that is present and writable, or it halts at a point where the allocator has no frame left.
pub init_page_table-Maps :
    (k : ℕ) (f : Frames) (tables : Tables) (out : List ℕ) (p : ℕ) (f' : Frames) (mem_end : ℕ)
    → IsPool f out
    → pf_alloc f ≡ some (p, f')
    → last_end (f'.regions) ≡ some mem_end
    → mem_end ≤ 2 ^ 48
    → mem_end ≤ 4096 * k
    → (o : Outcome) × (init_page_table (suc k) f tables ≡ some (p, o)) × Maps p 4096 mem_end o
unfolding init_page_table direct_map_callback
init_page_table-Maps k f tables out p f' mem_end pool a e b fuel =
    let (pool', _) = pf_alloc-IsNew f out p f' pool a in
    let s : Mmu = record { frames = f'; tables = zero_page tables p } in
    (
      page_table_walk (suc k) p page_size mem_end direct_map_callback s,
      rw (init_page_table, a, e) refl,
      Ends-Maps p page_size mem_end
          (page_table_walk (suc k) p page_size mem_end direct_map_callback s)
          (walk-Ends IsDirect direct direct-Sets k p page_size page_size mem_end s
            (write (λ _. 0) p 4) (p ∷ out) (zero_page-IsTree f' tables p out pool') (ground arith)
            (omega arith) b (omega (arith, fuel)) (λ v l u. absurd (omega (arith, l, u)))),
    )
