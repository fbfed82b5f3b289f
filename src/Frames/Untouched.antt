-- ===== src/Frames/Untouched.antt =====
-- The part of the regions that was never handed out.
use banj_os.Base.{
  ℕ, ◌+◌, ◌%◌, ◌≤◌, ◌<◌, ◌≡◌, refl, Bool, true, false, not, ◌&&◌, ◌||◌, none, some, List, [], ◌∷◌,
  arith, ltb, leb, ltb→lt, inl, inr, Bool-cases, Option-cases,
}
use banj_os.Regions.{MemRegion, page_size}
use banj_os.Regions.Chain.{Chain}
use banj_os.Frames.{take_region}

-- The regions ascend from `lo` on and are apart; of each one a whole number of pages is left.
abbrev pub Ready : (lo : ℕ) → List MemRegion → Type 0
Ready lo [] = Unit {0}
Ready lo (r ∷ rs) =
    (lo ≤ r.start)
    × (r.start ≤ r.next)
    × (r.next ≤ r.end)
    × (r.next % page_size ≡ 0)
    × (r.end % page_size ≡ 0)
    × Ready r.end rs

-- The address was never handed out.
abbrev pub untouched : List MemRegion → ℕ → Bool
untouched [] a = false
untouched (r ∷ rs) a = (leb r.next a && ltb a r.end) || untouched rs a

abbrev pub in_page : ℕ → ℕ → Bool
in_page p a = leb p a && ltb a (p + page_size)

-- The regions as they are built are ready.
pub Chain-Ready : (lo hi : ℕ) (rs : List MemRegion) → Chain lo rs hi → Ready lo rs
Chain-Ready lo hi [] c = tt
Chain-Ready lo hi (r ∷ rs) (f, c) =
    (f.low, ground arith, ground arith, ground arith, f.pages.1, Chain-Ready r.end hi rs c)

-- Nothing is left below the first region.
below : (lo a : ℕ) (rs : List MemRegion) → Ready lo rs → a < lo → untouched rs a ≡ false
below lo a [] h l = refl
below lo a (r ∷ rs) h l = ground (arith, below r.end a rs)

-- What is taken is a page that was not handed out, and only that page is handed out with it.
pub take_region_lem :
    (rs : List MemRegion) (lo p : ℕ) (rs' : List MemRegion)
    → Ready lo rs
    → take_region rs ≡ some (p, rs')
    → Ready lo rs'
      × (lo ≤ p)
      × (p % page_size ≡ 0)
      × (untouched rs p ≡ true)
      × ((a : ℕ) → untouched rs' a ≡ (untouched rs a && not (in_page p a)))
unfolding take_region
take_region_lem [] lo p rs' h e = absurd (ground arith)
take_region_lem (r ∷ rs) lo p rs' h e = elim (Bool-cases (ltb r.next r.end)) [
  | inl room ↦
      let q = rw room at e in
      let e1 : p ≡ r.next = ground arith in
      let e2 : rs' ≡ record r { next = r.next + page_size } ∷ rs = ground arith in
      let b = λ (a : ℕ). below r.end a rs h.5 in
      rw (e1, e2)
        (
          (h.0, omega arith, ground (arith, ltb→lt _ _ room), omega arith, h.4, h.5),
          omega arith,
          h.3,
          ground arith,
          λ a. ground (arith, b a),
        )
  | inr full ↦ elim (Option-cases (take_region rs)) [
    | inl stopped ↦ absurd (ground arith)
    | inr ((p1, rs1), k) ↦
        let q = rw (full, k) at e in
        let e1 : p ≡ p1 = ground arith in
        let e2 : rs' ≡ r ∷ rs1 = ground arith in
        let (ready, above, page, fresh, same) = take_region_lem rs r.end p1 rs1 h.5 k in
        rw (e1, e2)
          (
            (h.0, h.1, h.2, h.3, h.4, ready),
            omega arith,
            page,
            ground arith,
            λ a. ground (arith, same a),
          )
  ]
]

-- No region has anything left when nothing can be taken.
pub take_region-none :
    (rs : List MemRegion) (lo : ℕ)
    → Ready lo rs
    → take_region rs ≡ none
    → (a : ℕ) → untouched rs a ≡ false
unfolding take_region
take_region-none [] lo h e a = refl
take_region-none (r ∷ rs) lo h e a = elim (Option-cases (take_region rs)) [
  | inl stopped ↦ ground (arith, take_region-none rs r.end h.5 stopped a)
  | inr (out, k) ↦ absurd (ground arith)
]
