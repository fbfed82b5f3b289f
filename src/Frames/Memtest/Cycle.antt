-- ===== src/Frames/Memtest/Cycle.antt =====
-- A cycle of the memory test hands out every page, finds in each what was written, and gives all back.
use mathlib.Core.Path.{subst}
use banj_os.Base.{
  ℕ, zero, suc, ◌+◌, ◌<◌, ◌≡◌, ◌≢◌, ◌⊎◌, refl, ap, sym, ◌∙◌, true, false, some, List, [], ◌∷◌,
  length, arith, ◌==◌, ◌||◌, inl, inr, Bool-cases, has, Distinct, erase, erase_self, drop, ==→eq,
}
use banj_os.Frames.{Frames, pf_free}
use banj_os.Frames.Alloc.{IsFrames, pf_alloc-IsFrames, pf_free-IsFrames}
use banj_os.Frames.Memtest.{
  Memory, read_word, fill_page, words_of_page, alloc_all, verify_all, memtest_cycle, memtest_cycles,
}
use banj_os.Frames.Memtest.Capacity.{capacity, pf_alloc-capacity}
use banj_os.Frames.Memtest.Words.{
  fill_page-other, fill_page-inside, fill_page-IsFrames, check_page_lem,
}

-- Each of the pages holds its own address in all its words.
abbrev pub Filled : Memory → (out : List ℕ) → Type 0
Filled m out = (p i : ℕ) → has p out ≡ true → i < words_of_page → read_word m p i ≡ p

has-erase_ne : (a n : ℕ) (xs : List ℕ) → n ≢ a → has a (erase n xs) ≡ has a xs
unfolding erase
has-erase_ne a n [] h = refl
has-erase_ne a n (x ∷ xs) h = ground (arith, has-erase_ne a n xs, h)

not_free : (s : Frames) (free out : List ℕ) (p : ℕ) → IsFrames s free (p ∷ out) → has p free ≡ false
not_free s free out p v = elim (Bool-cases (has p free)) [
  | inl y ↦ absurd (let a = v.apart p y in ground (arith, a))
  | inr n ↦ n
]

-- One page is handed out and filled.
Filled-more :
    (m : Memory) (s' : Frames) (out : List ℕ) (p : ℕ)
    → Filled m out
    → ((q : ℕ) → s'.link q ≡ m.frames.link q)
    → Filled (fill_page words_of_page 0 p (record m { frames = s' })) (p ∷ out)
Filled-more m s' out p f same q i h l = elim (Bool-cases (p == q)) [
  | inl y ↦
      let e = ==→eq p q y in
      subst (λ q. read_word (fill_page words_of_page 0 p (record m { frames = s' })) q i ≡ q) e
        (fill_page-inside words_of_page 0 p i (record m { frames = s' }) (omega arith)
          (omega (arith, l)))
  | inr n ↦
      let other : q ≢ p = ground (arith, n) in
      let member : has q out ≡ true = rw n at h in
      fill_page-other words_of_page 0 p q i (record m { frames = s' }) other
      ∙ unchanged (Bool-cases (i == 0))
      ∙ f q i member l
]
  where
    unchanged :
        ((i == 0) ≡ true) ⊎ ((i == 0) ≡ false)
        → read_word (record m { frames = s' }) q i ≡ read_word m q i
    unchanged (inl y) = rw y (same q)
    unchanged (inr n) = rw n refl

-- What the loop that allocates leaves, with `k` frames left.
pub record Allocated (m : Memory) (out pages : List ℕ) (k : ℕ) (free' out' : List ℕ) (m' : Memory)
    : Type 0 where
  pub frames : IsFrames (m'.frames) free' out'
  pub filled : Filled m' out'
  pub left : capacity (m'.frames) free' ≡ k
  pub once : Distinct pages
  pub members : (a : ℕ) → has a out' ≡ (has a pages || has a out)
  pub fresh : (a : ℕ) → has a pages ≡ true → has a out ≡ false

-- The page before those that are allocated next.
Allocated-more :
    (m m1 : Memory) (out pages : List ℕ) (p k : ℕ) (free' out' : List ℕ) (m' : Memory)
    → has p out ≡ false
    → Allocated m1 (p ∷ out) pages k free' out' m'
    → Allocated m out (p ∷ pages) k free' out' m'
Allocated-more m m1 out pages p k free' out' m' unused a = record {
  frames = a.frames;
  filled = a.filled;
  left = a.left;
  once = (new, a.once);
  members = λ b. let e = a.members b in ground (arith, e);
  fresh = λ b h. earlier b h (Bool-cases (has b pages));
}
  where
    new : has p pages ≡ false
    new = elim (Bool-cases (has p pages)) [
      | inl y ↦ absurd (let x = a.fresh p y in ground (arith, x))
      | inr absent ↦ absent
    ]

    earlier :
        (b : ℕ)
        → has b (p ∷ pages) ≡ true
        → (has b pages ≡ true) ⊎ (has b pages ≡ false)
        → has b out ≡ false
    earlier b h (inl y) = let x = a.fresh b y in ground (arith, x)
    earlier b h (inr absent) =
        let q : p ≡ b = ground (arith, h, absent) in subst (λ b. has b out ≡ false) q unused

alloc_all-Allocated :
    (n k : ℕ) (m : Memory) (free out : List ℕ)
    → IsFrames (m.frames) free out
    → Filled m out
    → capacity (m.frames) free ≡ n + k
    → (pages : List ℕ) × (free' : List ℕ) × (out' : List ℕ) × (m' : Memory) × (alloc_all n m
        ≡ some (pages, m'))
      × (length pages ≡ n)
      × Allocated m out pages k free' out' m'
unfolding alloc_all
alloc_all-Allocated zero k m free out v f c = (
  [],
  free,
  out,
  m,
  refl,
  refl,
  record {
    frames = v;
    filled = f;
    left = omega (arith, c);
    once = tt;
    members = λ a. refl;
    fresh = λ a h. cc;
  },
)
alloc_all-Allocated (suc n) k m free out v f c =
    let (p, s', e, c', same) = pf_alloc-capacity (m.frames) free out (n + k) v (omega (arith, c)) in
    let (v', unused) = pf_alloc-IsFrames (m.frames) free out v p s' e in
    let m0 : Memory = record m { frames = s' } in
    let m1 = fill_page words_of_page 0 p m0 in
    let (v1, c1) =
      fill_page-IsFrames words_of_page 0 p m0 (drop 1 free) (p ∷ out) v'
        (not_free s' (drop 1 free) out p v') in
    let (pages, free', out', m', ran, len, a) =
      alloc_all-Allocated n k m1 (drop 1 free) (p ∷ out) v1 (Filled-more m s' out p f same)
        (c1 ∙ c') in
    let members = a.members in
    let fresh = a.fresh in
    (
      p ∷ pages,
      free',
      out',
      m',
      rw (alloc_all, e, ran) refl,
      ap suc len,
      Allocated-more m m1 out pages p k free' out' m' unused a,
    )

no_members : (out : List ℕ) → ((a : ℕ) → has a out ≡ false) → out ≡ []
no_members [] h = refl
no_members (x ∷ xs) h = absurd (let e = h x in ground (arith, e))

-- One page is checked and given back.
Filled-free :
    (m : Memory) (out : List ℕ) (p : ℕ)
    → Distinct out
    → Filled m out
    → Filled (record m { frames = pf_free p (m.frames) }) (erase p out)
unfolding pf_free
Filled-free m out p d f q i h l =
    let gone = erase_self p out d in
    let other : p ≢ q = λ e. let h' = rw (sym e) at h in ground (arith, h', gone) in
    let member : has q out ≡ true = sym (has-erase_ne q p out other) ∙ h in
    unchanged other (Bool-cases (i == 0)) ∙ f q i member l
  where
    unchanged :
        p ≢ q
        → ((i == 0) ≡ true) ⊎ ((i == 0) ≡ false)
        → read_word (record m { frames = pf_free p (m.frames) }) q i ≡ read_word m q i
    unchanged n (inl y) = rw y (ground (arith, n))
    unchanged n (inr k) = rw k refl

verify_all_lem :
    (pages : List ℕ) (m : Memory) (free out : List ℕ)
    → IsFrames (m.frames) free out
    → Filled m out
    → Distinct pages
    → ((a : ℕ) → has a out ≡ has a pages)
    → (m' : Memory) × (free' : List ℕ) × (verify_all pages m ≡ some m')
      × IsFrames (m'.frames) free' []
      × (capacity (m'.frames) free' ≡ length pages + capacity (m.frames) free)
unfolding verify_all pf_free
verify_all_lem [] m free out v f d same =
    (m, free, refl, subst (λ o. IsFrames (m.frames) free o) (no_members out same) v, omega arith)
verify_all_lem (p ∷ pages) m free out v f d same =
    let member : has p out ≡ true = let e = same p in ground (arith, e) in
    let checked = check_page_lem words_of_page 0 p m (λ i l. f p i member (omega (arith, l))) in
    let m1 : Memory = record m { frames = pf_free p (m.frames) } in
    let (m', free', ran, v', c) =
      verify_all_lem pages m1 (p ∷ free) (erase p out)
        (pf_free-IsFrames (m.frames) free out v p member) (Filled-free m out p v.once_out f) d.1
        (λ a. left a (Bool-cases (p == a))) in
    (m', free', rw (verify_all, checked) ran, v', c ∙ omega arith)
  where
    left : (a : ℕ) → ((p == a) ≡ true) ⊎ ((p == a) ≡ false) → has a (erase p out) ≡ has a pages
    left a (inl y) =
        let e = ==→eq p a y in
        subst (λ a. has a (erase p out) ≡ has a pages) e (erase_self p out v.once_out ∙ sym (d.0))
    left a (inr n) =
        let other : p ≢ a = ground (arith, n) in
        has-erase_ne a p out other ∙ (let e = same a in ground (arith, e, n))

memtest_cycle_lem :
    (n : ℕ) (m : Memory) (free : List ℕ)
    → IsFrames (m.frames) free []
    → capacity (m.frames) free ≡ n
    → (m' : Memory) × (free' : List ℕ) × (memtest_cycle n m ≡ some m')
      × IsFrames (m'.frames) free' []
      × (capacity (m'.frames) free' ≡ n)
unfolding memtest_cycle
memtest_cycle_lem n m free v c =
    let (pages, free1, out1, m1, ran, len, a) =
      alloc_all-Allocated n 0 m free [] v (λ p i h l. cc) (omega (arith, c)) in
    let left = a.left in
    let (m', free', ran', v', c') =
      verify_all_lem pages m1 free1 out1 a.frames a.filled a.once
        (λ b. let e = a.members b in e ∙ ground arith) in
    (m', free', rw (memtest_cycle, ran) ran', v', omega (arith, c', len, left))

-- When no frame is in use and the pages are as many as can be handed out, every cycle of the memory
-- test passes: it gets that many pages, finds in each word of each what it wrote, and frees them; at
-- the end as many can be handed out as before, and none is in use.
pub memtest_cycles_lem :
    (cycles n : ℕ) (m : Memory) (free : List ℕ)
    → IsFrames (m.frames) free []
    → capacity (m.frames) free ≡ n
    → (m' : Memory) × (free' : List ℕ) × (memtest_cycles cycles n m ≡ some m')
      × IsFrames (m'.frames) free' []
      × (capacity (m'.frames) free' ≡ n)
unfolding memtest_cycles
memtest_cycles_lem zero n m free v c = (m, free, refl, v, c)
memtest_cycles_lem (suc cycles) n m free v c =
    let (m1, free1, ran, v1, c1) = memtest_cycle_lem n m free v c in
    let (m', free', ran', v', c') = memtest_cycles_lem cycles n m1 free1 v1 c1 in
    (m', free', rw (memtest_cycles, ran) ran', v', c')
