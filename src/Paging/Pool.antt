-- ===== src/Paging/Pool.antt =====
-- The frame allocator as the page tables use it: frames that are new, whole and within reach of an
-- entry's address.
use banj_os.Base.{
  ℕ, ◌%◌, ◌^◌, ◌≤◌, ◌<◌, ◌≡◌, true, false, some, List, [], ◌∷◌, All, has, drop, arith, ltb, ◌==◌,
  Bool-cases, Option-cases, inl, inr,
}
use mathlib.Core.Path.{subst}
use banj_os.Regions.{MemRegion, page_size}
use banj_os.Frames.{Frames, pf_alloc, take_region}
use banj_os.Frames.Alloc.{IsFrames, pf_alloc-IsFrames, FreeChain}

abbrev pub reach : ℕ
reach = 2 ^ 52

abbrev pub InReach : List MemRegion → Type 0
InReach rs = All (λ r. r.end ≤ reach) rs

pub record IsPool (f : Frames) (out : List ℕ) : Type 0 where
  pub free : List ℕ
  pub frames : IsFrames f free out
  pub regions_below : InReach (f.regions)
  pub free_below : All (λ p. p < reach) free

take_region-InReach :
    (rs : List MemRegion) (p : ℕ) (rs' : List MemRegion)
    → take_region rs ≡ some (p, rs')
    → InReach rs
    → (p < reach) × InReach rs'
unfolding take_region
take_region-InReach [] p rs' e b = cc
take_region-InReach (r ∷ rs) p rs' e (h, hs) = elim (Bool-cases (ltb r.next r.end)) [
  | inl more ↦ ground (arith, more, e, h, hs)
  | inr used ↦ elim (Option-cases (take_region rs)) [
    | inl stop ↦ absurd (ground (arith, used, stop, e))
    | inr ((q, qs), k) ↦
        let ih = take_region-InReach rs q qs k hs in ground (arith, used, k, e, h, ih)
  ]
]

-- What the page tables rely on: a new frame is a page in reach that is not in use.
pub record IsNew (out : List ℕ) (p : ℕ) : Type 0 where
  pub unused : has p out ≡ false
  pub aligned : p % page_size ≡ 0
  pub below : p < reach

All-drop : (P : ℕ → Type 0) (xs : List ℕ) → All P xs → All P (drop 1 xs)
All-drop P [] a = tt
All-drop P (x ∷ xs) (h, hs) = hs

pf_alloc-InReach :
    (f : Frames) (free : List ℕ) (p : ℕ) (f' : Frames)
    → FreeChain (f.link) (f.free_list) free
    → All (λ q. q < reach) free
    → InReach (f.regions)
    → pf_alloc f ≡ some (p, f')
    → (p < reach) × InReach (f'.regions)
unfolding pf_alloc
pf_alloc-InReach f [] p f' c b r e = elim (Option-cases (take_region (f.regions))) [
  | inl stop ↦ absurd (ground (arith, c, stop, e))
  | inr ((q, qs), k) ↦
      let t = take_region-InReach (f.regions) q qs k r in
      let z : (f.free_list == 0) ≡ true = ground (arith, c) in
      let e' : some (q, record f { regions = qs }) ≡ some (p, f') = rw (z, k) at e in
      let p1 : q ≡ p = ground (arith, e') in
      let f1 : record f { regions = qs } ≡ f' = ground (arith, e') in
      (rw p1 at (t.0), subst (λ g. InReach (g.regions)) f1 (t.1))
]
pf_alloc-InReach f (x ∷ xs) p f' (c, n, cs) (b, bs) r e =
    let z : (f.free_list == 0) ≡ false = ground (arith, c, n) in
    let e' : some (f.free_list, record f { free_list = f.link (f.free_list) }) ≡ some (p, f') =
      rw z at e in
    let p1 : f.free_list ≡ p = ground (arith, e') in
    let f1 : record f { free_list = f.link (f.free_list) } ≡ f' = ground (arith, e') in
    (ground (arith, p1, c, b), subst (λ g. InReach (g.regions)) f1 r)

pub pf_alloc-IsNew :
    (f : Frames) (out : List ℕ) (p : ℕ) (f' : Frames)
    → IsPool f out
    → pf_alloc f ≡ some (p, f')
    → IsPool f' (p ∷ out) × IsNew out p
pf_alloc-IsNew f out p f' pool e =
    let (frames, unused) = pf_alloc-IsFrames f (pool.free) out (pool.frames) p f' e in
    let (below, regions) =
      pf_alloc-InReach f (pool.free) p f' (pool.frames.chain) (pool.free_below) (pool.regions_below)
        e in
    let page = frames.was_out p (ground arith) in
    (
      record {
        free = drop 1 (pool.free);
        frames = frames;
        regions_below = regions;
        free_below = All-drop (λ q. q < reach) (pool.free) (pool.free_below);
      },
      record { unused = unused; aligned = page.1; below = below },
    )
