-- ===== src/Frames/Memtest/Passes.antt =====
-- The memory test passes.
use mathlib.Core.Path.{subst}
use banj_os.Base.{
  ℕ, ◌+◌, ◌-◌, ◌*◌, ◌/◌, ◌<◌, ◌≤◌, ◌≡◌, ◌≢◌, refl, ap, ◌∙◌, true, ◌&&◌, some, List, [], ◌∷◌, arith,
  leb, ◌==◌, lt→ltb, eq→==, has, erase, erase-head,
}
use banj_os.Regions.{MemRegion, page_size}
use banj_os.Regions.Chain.{Chain, top}
use banj_os.Frames.{Frames, take_region, pf_alloc, pf_free, write}
use banj_os.Frames.Alloc.{
  IsFrames, start-IsFrames, region_first, free_first, pf_alloc-IsFrames, pf_free-IsFrames,
  pf_alloc-pf_free,
}
use banj_os.Frames.Memtest.{
  Memory, basic_allocations, count_pages, mmu_memtest, memtest_cycles_count, memtest_addr_capacity,
}
use banj_os.Frames.Memtest.Capacity.{capacity, pages_left}
use banj_os.Frames.Memtest.Cycle.{memtest_cycles_lem}

-- The page that a region gives.
take_first :
    (r : MemRegion) (rs : List MemRegion)
    → r.next < r.end
    → take_region (r ∷ rs) ≡ some (r.next, record r { next = r.next + page_size } ∷ rs)
unfolding take_region
take_first r rs h = rw (lt→ltb _ _ h) refl

erase_second : (a b : ℕ) → a ≢ b → erase b (a ∷ (b ∷ [])) ≡ a ∷ []
unfolding erase
erase_second a b h = ground (arith, h)

-- Both frames of a pair are given back.
free_both :
    (s : Frames) (a b : ℕ) (out : List ℕ)
    → IsFrames s [] out
    → has a out ≡ true
    → erase a out ≡ b ∷ []
    → IsFrames (pf_free b (pf_free a s)) (b ∷ (a ∷ [])) []
free_both s a b out v h e =
    let v1 = subst (λ o. IsFrames (pf_free a s) (a ∷ []) o) e (pf_free-IsFrames s [] out v a h) in
    subst (λ o. IsFrames (pf_free b (pf_free a s)) (b ∷ (a ∷ [])) o) (erase-head b [])
      (pf_free-IsFrames (pf_free a s) (a ∷ []) (b ∷ []) v1 b (ground arith))

module _ (s : Frames) (r : MemRegion) (rs : List MemRegion) (v : IsFrames s [] [])
    (first : s.regions ≡ r ∷ rs) (two : r.next + 2 * page_size ≤ r.end) (low : 0 < r.next) where
  abbrev after_two : Frames
  after_two = record s { regions = record r { next = r.next + page_size + page_size } ∷ rs }

  basic_allocations_lem :
      (s' : Frames) × (basic_allocations s ≡ some s')
      × (s'.regions ≡ after_two.regions)
      × IsFrames s' ((r.next + page_size) ∷ (r.next ∷ [])) []
  unfolding basic_allocations pf_free
  basic_allocations_lem =
      let a1 = r.next in
      let a2 = r.next + page_size in
      let r1 : MemRegion = record r { next = a2 } in
      let s1 : Frames = record s { regions = r1 ∷ rs } in
      let e1 : pf_alloc s ≡ some (a1, s1) =
        region_first s a1 (r1 ∷ rs) v.chain
          (ap take_region first ∙ take_first r rs (omega (arith, two))) in
      let (v1, _) = pf_alloc-IsFrames s [] [] v a1 s1 e1 in
      let e2 : pf_alloc s1 ≡ some (a2, after_two) =
        region_first s1 a2 (after_two.regions) v.chain (take_first r1 rs (omega (arith, two))) in
      let (v2, _) = pf_alloc-IsFrames s1 [] (a1 ∷ []) v1 a2 after_two e2 in
      let differ : a2 ≢ a1 = λ e. omega (arith, e) in
      let v4 =
        free_both after_two a1 a2 (a2 ∷ (a1 ∷ [])) v2 (ground arith) (erase_second a2 a1 differ) in
      let s3 = pf_free a1 after_two in
      let s5 : Frames = record s3 { link = write s3.link a2 s3.free_list } in
      let e4 : pf_alloc (pf_free a2 s3) ≡ some (a2, s5) =
        pf_alloc-pf_free s3 a2 (λ e. omega (arith, e, low)) in
      let (v5, _) = pf_alloc-IsFrames (pf_free a2 s3) (a2 ∷ (a1 ∷ [])) [] v4 a2 s5 e4 in
      let s6 : Frames = record s5 { free_list = s5.link a1 } in
      let e5 : pf_alloc s5 ≡ some (a1, s6) = free_first s5 a1 refl (λ e. omega (arith, e, low)) in
      let (v6, _) = pf_alloc-IsFrames s5 (a1 ∷ []) (a2 ∷ []) v5 a1 s6 e5 in
      let v8 = free_both s6 a1 a2 (a1 ∷ (a2 ∷ [])) v6 (ground arith) (erase-head a1 (a2 ∷ [])) in
      let t1 : (a1 + page_size == a2) ≡ true = eq→== _ _ refl in
      let t2 : ((a1 == a1) && (a2 == a2)) ≡ true = ground arith in
      (pf_free a2 (pf_free a1 s6), rw (basic_allocations, e1, e2, t1, e4, e5, t2) refl, refl, v8)

pages_left-count_pages :
    (lo hi : ℕ) (rs : List MemRegion) → Chain lo rs hi → pages_left rs ≡ count_pages rs
unfolding count_pages
pages_left-count_pages lo hi [] c = refl
pages_left-count_pages lo hi (r ∷ rs) (f, c) =
    let u = f.unused in
    let e : (r.end - r.next) / page_size ≡ (r.end - r.start) / page_size =
      ap (λ n. (r.end - n) / page_size) u in
    let rest = pages_left-count_pages (r.end) hi rs c in omega (arith, e, rest)

-- From regions as they are built, of which the first has two pages at least and all together have no
-- more than the test can store: the memory test passes, and at the end no frame is in use, and every
-- page of the regions can be handed out.
pub mmu_memtest_lem :
    (r : MemRegion) (rs : List MemRegion) (link : ℕ → ℕ) (words : ℕ → ℕ → ℕ)
    → Chain 1 (r ∷ rs) top
    → r.start + 2 * page_size ≤ r.end
    → count_pages (r ∷ rs) ≤ memtest_addr_capacity
    → let frames : Frames = record { free_list = 0; link = link; regions = r ∷ rs } in
      (m' : Memory) × (free' : List ℕ) × (mmu_memtest (record { frames = frames; words = words })
        ≡ some m')
      × IsFrames (m'.frames) free' []
      × (capacity (m'.frames) free' ≡ count_pages (r ∷ rs))
unfolding mmu_memtest count_pages
mmu_memtest_lem r rs link words c two fits =
    let s : Frames = record { free_list = 0; link = link; regions = r ∷ rs } in
    let u = c.0.unused in
    let low = c.0.low in
    let (s', e, regions, v) =
      basic_allocations_lem s r rs (start-IsFrames (r ∷ rs) link c) refl (omega (arith, u, two))
        (omega (arith, u, low)) in
    let n = count_pages (r ∷ rs) in
    let same : count_pages (s'.regions) ≡ n = ap count_pages regions in
    let all = pages_left-count_pages 1 top (r ∷ rs) c in
    let left : pages_left (s'.regions) + 2 ≡ n =
      ap (λ q. pages_left q + 2) regions ∙ omega (arith, all, u, two) in
    let t : leb (count_pages (s'.regions)) memtest_addr_capacity ≡ true =
      rw same (ground (arith, fits)) in
    let (m', free', ran, v', c') =
      memtest_cycles_lem memtest_cycles_count (count_pages (s'.regions))
        (record { frames = s'; words = words }) ((r.next + page_size) ∷ (r.next ∷ [])) v
        (omega (arith, same, left)) in
    (m', free', rw (mmu_memtest, e, t) ran, v', c' ∙ same)
