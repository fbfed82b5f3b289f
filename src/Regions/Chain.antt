-- ===== src/Regions/Chain.antt =====
-- The regions follow one another, and are whole pages.
use banj_os.Base.{
  ℕ, ◌+◌, ◌-◌, ◌%◌, ◌^◌, ◌≤◌, ◌<◌, ◌≡◌, refl, true, false, arith, ◌==◌, if◌then◌else◌, inl, inr,
  Bool-cases, List, [], ◌∷◌, ◌++◌, ◌⊎◌, some, ltb, ltb→lt, All,
}
use banj_os.Regions.{
  MemRegion, MemMapEntry, low, high, add_gap, ElfEntry, align_pointer, page_size, add_region, min,
  max,
}
use banj_os.Regions.Align.{align_pointer_nearest}

-- The last address that can be rounded up.
abbrev pub top : ℕ
top = 2 ^ 64 - page_size

-- A region of whole pages, not empty, within `[lo, hi)`, of which nothing is handed out.
pub record IsFresh (r : MemRegion) (lo hi : ℕ) : Type 0 where
  pub low : lo ≤ r.start
  pub high : r.end ≤ hi
  pub pages : (r.start % page_size ≡ 0) × (r.end % page_size ≡ 0)
  pub filled : r.start < r.end
  pub unused : r.next ≡ r.start

-- `add_region` adds at most one region, within the given bounds.
abbrev pub Added : List MemRegion → (lo hi : ℕ) → List MemRegion → Type 0
Added regions lo hi out =
    (out ≡ regions) ⊎ ((r : MemRegion) × IsFresh r lo hi × (out ≡ regions ++ (r ∷ [])))

region : ℕ → ℕ → MemRegion
region lo hi =
    let start = align_pointer lo page_size true in
    record { start = start; end = align_pointer hi page_size false; next = start }

region-IsFresh :
    (lo hi : ℕ)
    → lo ≤ top
    → hi ≤ top
    → (region lo hi).start < (region lo hi).end
    → IsFresh (region lo hi) lo hi
unfolding region
region-IsFresh lo hi l h e =
    let a = align_pointer_nearest lo page_size (omega arith) (omega arith) in
    let b = align_pointer_nearest hi page_size (omega arith) (omega arith) in
    record { low = a.0.0; high = b.1.0; pages = (a.0.2, b.1.2); filled = e; unused = refl }

pub add_region-Added :
    (regions : List MemRegion) (lo hi : ℕ) {regions' : List MemRegion}
    → lo ≤ top
    → hi ≤ top
    → add_region regions lo hi ≡ some regions'
    → Added regions lo hi regions'
unfolding add_region region
add_region-Added regions lo hi l h e =
    elim (Bool-cases (ltb (region lo hi).start (region lo hi).end)) [
      | inl gap ↦ inr (region lo hi, region-IsFresh lo hi l h (ltb→lt _ _ gap), ground arith)
      | inr shut ↦ inl (ground arith)
    ]

-- The regions lie between two addresses, in ascending order and apart from one another; each is made
-- of whole pages, is not empty, and nothing of it is handed out.
abbrev pub Chain : (lo : ℕ) → List MemRegion → (hi : ℕ) → Type 0
Chain lo [] hi = lo ≤ hi
Chain lo (r ∷ rs) hi = IsFresh r lo hi × Chain r.end rs hi

pub IsFresh-widen :
    {r : MemRegion} {lo lo' hi hi' : ℕ} → lo' ≤ lo → hi ≤ hi' → IsFresh r lo hi → IsFresh r lo' hi'
IsFresh-widen l h f = ground arith

pub Chain-mono :
    (lo : ℕ) (rs : List MemRegion) {hi hi' : ℕ} → hi ≤ hi' → Chain lo rs hi → Chain lo rs hi'
Chain-mono lo [] h c = omega arith
Chain-mono lo (r ∷ rs) h (f, c) = (IsFresh-widen (omega arith) h f, Chain-mono r.end rs h c)

Chain-snoc :
    (lo mid hi : ℕ) (rs : List MemRegion) (r : MemRegion)
    → Chain lo rs mid
    → IsFresh r mid hi
    → mid ≤ hi
    → Chain lo (rs ++ (r ∷ [])) hi
Chain-snoc lo mid hi [] r c f h = (IsFresh-widen c (omega arith) f, f.high)
Chain-snoc lo mid hi (x ∷ rs) r (g, c) f h =
    (IsFresh-widen (omega arith) h g, Chain-snoc x.end mid hi rs r c f h)

pub Chain-Added :
    (lo mid hi : ℕ) (rs : List MemRegion) {rs' : List MemRegion}
    → Chain lo rs mid
    → mid ≤ hi
    → Added rs mid hi rs'
    → Chain lo rs' hi
Chain-Added lo mid hi rs c h (inl e) = rw e (Chain-mono lo rs h c)
Chain-Added lo mid hi rs c h (inr (r, f, e)) = rw e (Chain-snoc lo mid hi rs r c f h)

pub gap_widen :
    (rs : List MemRegion) (cur hi : ℕ) (x : ElfEntry) {rs' : List MemRegion}
    → max cur x.segment_address ≤ hi
    → Added rs cur (max cur x.segment_address) rs'
    → Added rs cur hi rs'
gap_widen rs cur hi x h (inl e) = inl e
gap_widen rs cur hi x h (inr (r, f, e)) = inr (r, IsFresh-widen (omega arith) h f, e)

-- The usable entries are in ascending order from `lo` on, apart from one another, and do not come
-- within a page of the end of the address space.
abbrev pub Ascending : (lo : ℕ) → List MemMapEntry → Type 0
Ascending lo [] = lo ≤ top
Ascending lo (m ∷ ms) =
    if m.type == 1
    then (lo ≤ low m) × (low m ≤ high m) × (high m ≤ top) × Ascending (high m) ms
    else Ascending lo ms

-- No section wraps round the end of the address space.
abbrev pub Fits : List ElfEntry → Type 0
Fits = All (λ e. e.segment_address + e.segment_size < 2 ^ 64)

-- The gap before a section that begins before `end` is between `cur` and the section.
pub gap-Added :
    (rs : List MemRegion) (cur end : ℕ) (x : ElfEntry) {rs' : List MemRegion}
    → cur ≤ end
    → end ≤ top
    → x.segment_address < end
    → add_gap rs cur end x ≡ some rs'
    → Added rs cur (max cur x.segment_address) rs'
unfolding add_gap
gap-Added rs cur end x l t b e = elim (Bool-cases (ltb cur x.segment_address)) [
  | inl gap ↦
      let p = ltb→lt _ _ gap in
      let a : min x.segment_address end ≡ x.segment_address = ground arith in
      let m : max cur x.segment_address ≡ x.segment_address = ground arith in
      rw m
        (add_region-Added rs cur x.segment_address (omega arith) (omega arith) (rw (gap, a) at e))
  | inr shut ↦ inl (ground arith)
]
