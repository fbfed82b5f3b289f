-- ===== src/Regions/Sections.antt =====
-- No region overlaps a section of the kernel.
use banj_os.Base.{
  ℕ, ◌+◌, ◌^◌, ◌≤◌, ◌<◌, ◌≡◌, ◌≢◌, ap, arith, ◌==◌, inl, inr, Bool-cases, List, [], ◌∷◌, ◌⊎◌, ◌||◌,
  leb, some, All, All-append,
}
use banj_os.Regions.{
  MemRegion, MemMapEntry, low, high, ElfEntry, segment_end, skip_elf, cut, Cut, build,
  build_mem_regions, max,
}
use banj_os.Regions.Steps.{behind, stop, more, cut_step, EntryStep, entry_step, build_step}
use banj_os.Regions.Chain.{top, Added, add_region-Added, gap-Added, Ascending, Fits}

-- The sections stand in the order of their addresses.
abbrev pub Sorted : List ElfEntry → Type 0
Sorted [] = Unit {0}
Sorted (x ∷ es) = All (λ y. x.segment_address ≤ y.segment_address) es × Sorted es

abbrev pub In : ElfEntry → List ElfEntry → Type 0
In e [] = ⊥
In e (x ∷ es) = (x ≡ e) ⊎ In e es

-- The region and the section share no address.
abbrev pub Avoids : ElfEntry → MemRegion → Type 0
Avoids e r = (r.end ≤ e.segment_address) ⊎ (e.segment_address + e.segment_size ≤ r.start)

all_of_In {ℓ} :
    (P : ElfEntry → Type ℓ) (e : ElfEntry) (es : List ElfEntry) → All P es → In e es → P e
all_of_In P e [] a i = absurd i
all_of_In P e (x ∷ es) a (inl q) = rw q at a.0
all_of_In P e (x ∷ es) a (inr i) = all_of_In P e es a.1 i

Sorted-skip : (start : ℕ) (es : List ElfEntry) → Sorted es → Sorted (skip_elf start es)
unfolding skip_elf
Sorted-skip start [] s = s
Sorted-skip start (x ∷ es) s =
    elim (Bool-cases ((x.section_type == 0) || leb (segment_end x) start)) [
      | inl skip ↦ rw skip (Sorted-skip start es s.1)
      | inr stay ↦ rw stay s
    ]

Sorted-cut :
    (es : List ElfEntry) (rs : List MemRegion) (cur end : ℕ) (c : Cut)
    → Sorted es
    → cut rs cur end es ≡ some c
    → Sorted c.elf
unfolding cut
Sorted-cut [] rs cur end c s e = let q : c.elf ≡ [] = ground arith in rw q tt
Sorted-cut (x ∷ es) rs cur end c s e = elim (cut_step rs cur end x es c e) [
  | behind b q ↦ rw (ap (λ d. d.elf) q) s
  | stop rs' g b k q ↦ rw (ap (λ d. d.elf) q) s
  | more rs' g b k q ↦ Sorted-cut es rs' (max cur (segment_end x)) end c s.1 q
]

-- One section in use, which does not wrap.
module _ (e : ElfEntry) (used : e.section_type ≢ 0)
    (fits : e.segment_address + e.segment_size < 2 ^ 64) where
  -- Where the section is, seen from the address `cur`: still to come, or passed.
  abbrev Ahead : List ElfEntry → ℕ → Type 0
  Ahead es cur = In e es ⊎ (e.segment_address + e.segment_size ≤ cur)

  Ahead-mono : (es : List ElfEntry) (a b : ℕ) → a ≤ b → Ahead es a → Ahead es b
  Ahead-mono es a b h (inl i) = inl i
  Ahead-mono es a b h (inr p) = inr (omega arith)

  Added-Avoids :
      (rs : List MemRegion) (lo hi : ℕ) {rs' : List MemRegion}
      → All (Avoids e) rs
      → (hi ≤ e.segment_address) ⊎ (e.segment_address + e.segment_size ≤ lo)
      → Added rs lo hi rs'
      → All (Avoids e) rs'
  Added-Avoids rs lo hi a o (inl q) = rw q a
  Added-Avoids rs lo hi a o (inr (r, f, q)) = rw q (
      All-append (Avoids e) rs (r ∷ []) a
        (elim o [ inl b ↦ inl (omega arith) | inr p ↦ inr (omega arith) ], tt))

  -- A section that is skipped is passed.
  Ahead-skip : (start : ℕ) (es : List ElfEntry) → Ahead es start → Ahead (skip_elf start es) start
  unfolding skip_elf
  Ahead-skip start [] a = a
  Ahead-skip start (x ∷ es) (inr p) = inr p
  Ahead-skip start (x ∷ es) (inl i) =
      elim (Bool-cases ((x.section_type == 0) || leb (segment_end x) start)) [
        | inr stay ↦ rw stay (inl i)
        | inl skip ↦
            rw skip (Ahead-skip start es (elim i [ inr j ↦ inl j | inl q ↦ inr (ground arith) ]))
      ]

  -- What the loop over the sections leaves: behind where it stands there is only what begins at
  -- `end` or later.
  record CutAvoids (c : Cut) (end : ℕ) : Type 0 where
    avoids : All (Avoids e) c.regions
    ahead : Ahead c.elf end
    beyond :
        c.cur_start < end
        → (end ≤ e.segment_address) ⊎ (e.segment_address + e.segment_size ≤ c.cur_start)

  seen :
      (x : ElfEntry) (es : List ElfEntry) (cur : ℕ)
      → Sorted (x ∷ es)
      → Ahead (x ∷ es) cur
      → (x.segment_address ≤ e.segment_address) ⊎ (e.segment_address + e.segment_size ≤ cur)
  seen x es cur s (inr p) = inr p
  seen x es cur s (inl (inl q)) = inl (ground arith)
  seen x es cur s (inl (inr i)) =
      inl (all_of_In (λ y. x.segment_address ≤ y.segment_address) e es s.0 i)

  gap-Avoids :
      (x : ElfEntry) (rs : List MemRegion) (cur : ℕ) {rs' : List MemRegion}
      → All (Avoids e) rs
      → (x.segment_address ≤ e.segment_address) ⊎ (e.segment_address + e.segment_size ≤ cur)
      → Added rs cur (max cur x.segment_address) rs'
      → All (Avoids e) rs'
  gap-Avoids x rs cur a o (inl q) = rw q a
  gap-Avoids x rs cur a o (inr (r, f, q)) =
      rw q (All-append (Avoids e) rs (r ∷ []) a (ground arith, tt))

  pass :
      (x : ElfEntry) (es : List ElfEntry) (cur : ℕ)
      → Ahead (x ∷ es) cur
      → Ahead es (max cur (segment_end x))
  pass x es cur (inr p) = inr (ground arith)
  pass x es cur (inl (inl q)) = inr (ground arith)
  pass x es cur (inl (inr i)) = inl i

  cut-Avoids :
      (es : List ElfEntry) (rs : List MemRegion) (cur end : ℕ) (c : Cut)
      → Sorted es
      → All (Avoids e) rs
      → Ahead es cur
      → cur ≤ end
      → end ≤ top
      → cut rs cur end es ≡ some c
      → CutAvoids c end
  unfolding cut
  cut-Avoids [] rs cur end c s a (inl i) l t q = absurd i
  cut-Avoids [] rs cur end c s a (inr p) l t q =
      let r : c.regions ≡ rs = ground arith in
      let k : c.cur_start ≡ cur = ground arith in
      record { avoids = rw r a; ahead = inr (omega arith); beyond = λ b. inr (omega arith) }
  cut-Avoids (x ∷ es) rs cur end c s a h l t q' =
      let o = seen x es cur s h in
      elim (cut_step rs cur end x es c q') [
        | behind b q ↦
            let k = ap (λ d. d.cur_start) q in
            record {
              avoids = rw (ap (λ d. d.regions) q) a;
              ahead = rw (ap (λ d. d.elf) q) (Ahead-mono (x ∷ es) cur end l h);
              beyond = λ _. elim o [ inl p ↦ inl (omega arith) | inr p ↦ inr (omega arith) ];
            }
        | stop rs' g b k q ↦
            let j = ap (λ d. d.cur_start) q in
            record {
              avoids =
                  rw (ap (λ d. d.regions) q)
                    (gap-Avoids x rs cur a o (gap-Added rs cur end x l t b g));
              ahead = rw (ap (λ d. d.elf) q) (Ahead-mono (x ∷ es) cur end l h);
              beyond = λ b'. absurd (omega arith);
            }
        | more rs' g b k q ↦
            cut-Avoids es rs' (max cur (segment_end x)) end c s.1
              (gap-Avoids x rs cur a o (gap-Added rs cur end x l t b g)) (pass x es cur h)
              (omega arith) t q
      ]

  entry-Avoids :
      (rs : List MemRegion) (m : MemMapEntry) (es : List ElfEntry)
      (out : List MemRegion × List ElfEntry)
      → Sorted es
      → All (Avoids e) rs
      → Ahead es (low m)
      → low m ≤ high m
      → high m ≤ top
      → EntryStep rs m es out
      → All (Avoids e) out.0 × Ahead out.1 (high m) × Sorted out.1
  entry-Avoids rs m es out s a h l t step = (
    elim step.rest [
      | inl (room, added) ↦
          Added-Avoids c.regions c.cur_start (high m) k.avoids (k.beyond room)
            (add_region-Added c.regions c.cur_start (high m) (omega arith) t added)
      | inr (full, same) ↦ rw same k.avoids
    ],
    rw step.left k.ahead,
    rw step.left (
        Sorted-cut (skip_elf (low m) es) rs (low m) (high m) c (Sorted-skip (low m) es s)
          step.loop),
  )
    where
      open step use {c}

      k : CutAvoids c (high m)
      k =
          cut-Avoids (skip_elf (low m) es) rs (low m) (high m) c (Sorted-skip (low m) es s) a
            (Ahead-skip (low m) es h) l t step.loop

  build-Avoids :
      (ms : List MemMapEntry) (rs : List MemRegion) (es : List ElfEntry) (out : List MemRegion)
      (mid : ℕ)
      → Sorted es
      → All (Avoids e) rs
      → Ahead es mid
      → Ascending mid ms
      → build rs ms es ≡ some out
      → All (Avoids e) out
  unfolding build
  build-Avoids [] rs es out mid s a h asc q = let r : out ≡ rs = ground arith in rw r a
  build-Avoids (m ∷ ms) rs es out mid s a h asc q = elim (Bool-cases (m.type == 1)) [
    | inl usable ↦
        let (a1, a2, a3, a4) = rw usable at asc in
        let (next, added, q') = build_step rs m ms es usable q in
        let (k, h', s') =
          entry-Avoids rs m es next s a (Ahead-mono es mid (low m) a1 h) a2 a3
            (entry_step rs m es next added) in
        build-Avoids ms next.0 next.1 out (high m) s' k h' a4 q'
    | inr other ↦ build-Avoids ms rs es out mid s a h (rw other at asc) (rw other at q)
  ]

-- From a memory map whose usable entries ascend, and sections sorted by address that do not wrap,
-- no region shares an address with a section that is in use.
pub build_mem_regions-Avoids :
    (ms : List MemMapEntry) (es : List ElfEntry) (e : ElfEntry) {out : List MemRegion}
    → Ascending 1 ms
    → Fits es
    → Sorted es
    → In e es
    → e.section_type ≢ 0
    → build_mem_regions ms es ≡ some out
    → All (Avoids e) out
unfolding build_mem_regions
build_mem_regions-Avoids ms es e {out} asc f s i used q =
    build-Avoids e used (all_of_In (λ x. x.segment_address + x.segment_size < 2 ^ 64) e es f i) ms
      [] es out 1 s tt (inl i) asc q
