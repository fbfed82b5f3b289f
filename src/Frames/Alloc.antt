-- ===== src/Frames/Alloc.antt =====
-- No frame is handed out twice, and freed frames come back, the last one first.
use banj_os.Base.{
  ℕ, ◌%◌, ◌≡◌, ◌≢◌, refl, ap, true, false, none, some, List, [], ◌∷◌, arith, ◌==◌, inl, inr,
  Bool-cases, Option-cases, has, Distinct, erase, has-erase, Distinct-erase, erase_self, drop,
}
use banj_os.Regions.{MemRegion, page_size}
use banj_os.Regions.Chain.{Chain, top}
use banj_os.Frames.{Frames, take_region, pf_alloc, pf_free, write}
use banj_os.Frames.Untouched.{Ready, untouched, Chain-Ready, take_region_lem, take_region-none}

-- From `head` the links lead through the freed frames to NULL.
abbrev pub FreeChain : (ℕ → ℕ) → (head : ℕ) → List ℕ → Type 0
FreeChain link head [] = head ≡ 0
FreeChain link head (x ∷ xs) = (head ≡ x) × (x ≢ 0) × FreeChain link (link x) xs

-- A page that is not NULL and was handed out.
abbrev pub WasOut : Frames → ℕ → Type 0
WasOut s a = (untouched s.regions a ≡ false) × (a % page_size ≡ 0) × (a ≢ 0)

-- The freed frames are `free`, the last one first, and the frames in use are `out`.
pub record IsFrames (s : Frames) (free out : List ℕ) : Type 0 where
  pub chain : FreeChain s.link s.free_list free
  pub ready : Ready 1 s.regions
  pub once_free : Distinct free
  pub once_out : Distinct out
  pub apart : (a : ℕ) → has a free ≡ true → has a out ≡ false
  pub was_free : (a : ℕ) → has a free ≡ true → WasOut s a
  pub was_out : (a : ℕ) → has a out ≡ true → WasOut s a

pub FreeChain-frame :
    (link link' : ℕ → ℕ) (head : ℕ) (xs : List ℕ)
    → ((a : ℕ) → has a xs ≡ true → link' a ≡ link a)
    → FreeChain link head xs
    → FreeChain link' head xs
FreeChain-frame link link' head [] same c = c
FreeChain-frame link link' head (x ∷ xs) same (e, n, c) = (
  e,
  n,
  rw (same x (ground arith))
      (FreeChain-frame link link' (link x) xs (λ a i. same a (ground arith)) c),
)

-- Nothing is handed out at the start, and what programs write into their frames does no harm: only
-- the words at the start of freed frames count.
pub start-IsFrames :
    (rs : List MemRegion) (link : ℕ → ℕ)
    → Chain 1 rs top
    → IsFrames (record { free_list = 0; link = link; regions = rs }) [] []
start-IsFrames rs link c = record {
  chain = refl;
  ready = Chain-Ready 1 top rs c;
  once_free = tt;
  once_out = tt;
  apart = λ a i. refl;
  was_free = λ a i. cc;
  was_out = λ a i. cc;
}

pub free_first :
    (s : Frames) (x : ℕ)
    → s.free_list ≡ x
    → x ≢ 0
    → pf_alloc s ≡ some (x, record s { free_list = s.link x })
unfolding pf_alloc
free_first s x e h = ground arith

pub region_first :
    (s : Frames) (p : ℕ) (rs : List MemRegion)
    → s.free_list ≡ 0
    → take_region s.regions ≡ some (p, rs)
    → pf_alloc s ≡ some (p, record s { regions = rs })
unfolding pf_alloc
region_first s p rs e k = ground arith

module _ (s : Frames) (free out : List ℕ) (v : IsFrames s free out) where
  pub write-IsFrames :
      (link : ℕ → ℕ)
      → ((a : ℕ) → has a free ≡ true → link a ≡ s.link a)
      → IsFrames (record s { link = link }) free out
  write-IsFrames link same = record {
    chain = FreeChain-frame s.link link s.free_list free same v.chain;
    ready = v.ready;
    once_free = v.once_free;
    once_out = v.once_out;
    apart = v.apart;
    was_free = v.was_free;
    was_out = v.was_out;
  }

  -- `MMU_pf_free` of a frame in use makes it the first freed one.
  pub pf_free-IsFrames :
      (p : ℕ) → has p out ≡ true → IsFrames (pf_free p s) (p ∷ free) (erase p out)
  unfolding pf_free
  pf_free-IsFrames p i = record {
    chain = (refl, (v.was_out p i).2, linked);
    ready = v.ready;
    once_free = (ground (arith, v.apart p), v.once_free);
    once_out = Distinct-erase p out v.once_out;
    apart = λ a j. ground (arith, v.apart a, has-erase a p out, erase_self p out v.once_out);
    was_free = λ a j. elim (Bool-cases (p == a)) [
      | inl e ↦ v.was_out a (ground arith)
      | inr e ↦ v.was_free a (ground arith)
    ];
    was_out = λ a j. v.was_out a (ground (arith, has-erase a p out));
  }
    where
      self : write s.link p s.free_list p ≡ s.free_list
      self = ground arith

      linked : FreeChain (write s.link p s.free_list) (write s.link p s.free_list p) free
      linked = rw self (
          FreeChain-frame s.link (write s.link p s.free_list) s.free_list free
            (λ a j. ground (arith, v.apart a)) v.chain)

  -- What a call of `MMU_pf_alloc` that hands out `p` leaves.
  abbrev Handed : ℕ → Frames → List ℕ → Type 0
  Handed p s' free' = IsFrames s' free' (p ∷ out) × (has p out ≡ false)

  alloc_region :
      (p : ℕ) (rs : List MemRegion)
      → free ≡ []
      → take_region s.regions ≡ some (p, rs)
      → Handed p (record s { regions = rs }) []
  alloc_region p rs f e =
      let (ready, above, page, fresh, same) = take_region_lem s.regions 1 p rs v.ready e in
      let o : has p out ≡ false = ground (arith, v.was_out p) in
      (
        record {
          chain = rw f at v.chain;
          ready = ready;
          once_free = tt;
          once_out = (o, v.once_out);
          apart = λ a i. cc;
          was_free = λ a i. cc;
          was_out = λ a i. ground (arith, same a, same p, v.was_out a);
        },
        o,
      )

  free_list-zero : free ≡ [] → s.free_list ≡ 0
  free_list-zero f = rw f at v.chain

  alloc_free :
      (x : ℕ) (xs : List ℕ) → free ≡ x ∷ xs → Handed x (record s { free_list = s.link x }) xs
  alloc_free x xs f =
      let c = rw f at v.chain in
      let d = rw f at v.once_free in
      let member = λ (a : ℕ). ap (has a) f in
      let o : has x out ≡ false = ground (arith, v.apart x, member x) in
      (
        record {
          chain = c.2;
          ready = v.ready;
          once_free = d.1;
          once_out = (o, v.once_out);
          apart = λ a i. ground (arith, v.apart a, member a);
          was_free = λ a i. v.was_free a (ground (arith, member a));
          was_out = λ a i. elim (Bool-cases (x == a)) [
            | inl e ↦ v.was_free a (ground (arith, member a))
            | inr e ↦ v.was_out a (ground arith)
          ];
        },
        o,
      )

  -- A frame that `MMU_pf_alloc` hands out is not in use, is a page and is not NULL; it counts as in
  -- use from then on, and the first freed frame, if there is one, is no longer free.
  pub pf_alloc-IsFrames :
      (p : ℕ) (s' : Frames)
      → pf_alloc s ≡ some (p, s')
      → IsFrames s' (drop 1 free) (p ∷ out) × (has p out ≡ false)
  unfolding pf_alloc
  pf_alloc-IsFrames p s' e = go free refl
    where
      go : (xs : List ℕ) → free ≡ xs → IsFrames s' (drop 1 xs) (p ∷ out) × (has p out ≡ false)
      go [] f = elim (Option-cases (take_region s.regions)) [
        | inl stopped ↦ absurd (ground (arith, free_list-zero f))
        | inr ((q, rs), k) ↦
            let r = region_first s q rs (free_list-zero f) k in
            let e1 : p ≡ q = ground (arith, r) in
            let e2 : s' ≡ record s { regions = rs } = ground (arith, r) in
            rw (e1, e2) (alloc_region q rs f k)
      ]
      go (x ∷ xs) f =
          let c = rw f at v.chain in
          let r = free_first s x c.0 c.1 in
          let e1 : p ≡ x = ground (arith, r) in
          let e2 : s' ≡ record s { free_list = s.link x } = ground (arith, r) in
          rw (e1, e2) (alloc_free x xs f)

  -- `MMU_pf_alloc` fails only when there is neither a freed frame nor an address left in any region.
  pub pf_alloc-none : pf_alloc s ≡ none → (free ≡ []) × ((a : ℕ) → untouched s.regions a ≡ false)
  unfolding pf_alloc
  pf_alloc-none e = go free refl
    where
      go : (xs : List ℕ) → free ≡ xs → (free ≡ []) × ((a : ℕ) → untouched s.regions a ≡ false)
      go [] f = elim (Option-cases (take_region s.regions)) [
        | inl stopped ↦ (f, take_region-none s.regions 1 v.ready stopped)
        | inr ((q, rs), k) ↦ absurd (ground (arith, region_first s q rs (free_list-zero f) k))
      ]
      go (x ∷ xs) f = let c = rw f at v.chain in absurd (ground (arith, free_first s x c.0 c.1))

-- A frame that was just freed is the next one handed out, and the frames that were freed before it
-- are back as they were.
pub pf_alloc-pf_free :
    (s : Frames) (p : ℕ)
    → p ≢ 0
    → pf_alloc (pf_free p s) ≡ some (p, record s { link = write s.link p s.free_list })
unfolding pf_alloc pf_free
pf_alloc-pf_free s p h =
    let e : (p == 0) ≡ false = ground arith in
    let self : write s.link p s.free_list p ≡ s.free_list = ground arith in rw (e, self)
