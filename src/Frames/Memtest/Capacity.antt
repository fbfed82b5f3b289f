-- ===== src/Frames/Memtest/Capacity.antt =====
-- How many frames the allocator can still hand out.
use banj_os.Base.{
  ℕ, suc, ◌+◌, ◌-◌, ◌/◌, ◌≤◌, ◌≡◌, refl, false, some, List, [], ◌∷◌, arith, ltb, length, drop, inl,
  inr, Bool-cases, Option-cases, ltb→lt,
}
use banj_os.Regions.{MemRegion, page_size}
use banj_os.Frames.{Frames, take_region, pf_alloc}
use banj_os.Frames.Untouched.{Ready, untouched, take_region-none}
use banj_os.Frames.Alloc.{IsFrames, free_first, region_first}

abbrev pub pages_left : List MemRegion → ℕ
pages_left [] = 0
pages_left (r ∷ rs) = (r.end - r.next) / page_size + pages_left rs

none_left :
    (lo : ℕ) (rs : List MemRegion)
    → Ready lo rs
    → ((a : ℕ) → untouched rs a ≡ false)
    → pages_left rs ≡ 0
none_left lo [] h u = refl
none_left lo (r ∷ rs) h u =
    let here = u (r.next) in
    let ended : r.end ≤ r.next = ground (arith, here) in
    let rest = none_left (r.end) rs h.5 (λ a. let x = u a in ground (arith, x)) in
    omega (arith, ended, rest)

take_region-pages :
    (lo p : ℕ) (rs rs' : List MemRegion)
    → Ready lo rs
    → take_region rs ≡ some (p, rs')
    → pages_left rs ≡ suc (pages_left rs')
unfolding take_region
take_region-pages lo p [] rs' h e = absurd (ground (arith, e))
take_region-pages lo p (r ∷ rs) rs' h e = elim (Bool-cases (ltb r.next r.end)) [
  | inl room ↦
      let q = rw room at e in
      let e2 : rs' ≡ record r { next = r.next + page_size } ∷ rs = ground (arith, q) in
      let l = ltb→lt _ _ room in let a = h.3 in let b = h.4 in rw e2 (omega (arith, l, a, b))
  | inr full ↦ elim (Option-cases (take_region rs)) [
    | inl stopped ↦ absurd (let q = rw (full, stopped) at e in ground (arith, q))
    | inr ((p1, rs1), k) ↦
        let q = rw (full, k) at e in
        let e2 : rs' ≡ r ∷ rs1 = ground (arith, q) in
        let ih = take_region-pages (r.end) p1 rs rs1 h.5 k in rw e2 (omega (arith, ih))
  ]
]

-- The frames that can be handed out: the freed ones, and the pages left of the regions.
abbrev pub capacity : Frames → (free : List ℕ) → ℕ
capacity s free = length free + pages_left s.regions

-- As long as there are such frames a call hands one out, and they are one less.
pub pf_alloc-capacity :
    (s : Frames) (free out : List ℕ) (n : ℕ)
    → IsFrames s free out
    → capacity s free ≡ suc n
    → (p : ℕ) × (s' : Frames) × (pf_alloc s ≡ some (p, s'))
      × (capacity s' (drop 1 free) ≡ n)
      × ((q : ℕ) → s'.link q ≡ s.link q)
pf_alloc-capacity s [] out n v c = elim (Option-cases (take_region s.regions)) [
  | inl stopped ↦ absurd (
      let z = none_left 1 s.regions v.ready (take_region-none s.regions 1 v.ready stopped) in
      omega (arith, z, c))
  | inr ((p, rs), k) ↦
      let e = region_first s p rs v.chain k in
      (
        p,
        record s { regions = rs },
        e,
        (let t = take_region-pages 1 p s.regions rs v.ready k in omega (arith, t, c)),
        λ q. refl,
      )
]
pf_alloc-capacity s (x ∷ xs) out n v c =
    let chain = v.chain in
    (
      x,
      record s { free_list = s.link x },
      free_first s x chain.0 chain.1,
      omega (arith, c),
      λ q. refl,
    )
