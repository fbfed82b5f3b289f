-- ===== src/Regions/Order.antt =====
-- `build_mem_regions` makes a chain of regions.
use banj_os.Base.{
  ℕ, ◌≤◌, ◌≡◌, ap, arith, ◌==◌, inl, inr, Bool-cases, List, [], ◌∷◌, ◌||◌, leb, some,
}
use banj_os.Regions.{
  MemRegion, MemMapEntry, low, high, ElfEntry, segment_end, skip_elf, cut, Cut, build,
  build_mem_regions, min, max,
}
use banj_os.Regions.Steps.{behind, stop, more, cut_step, EntryStep, entry_step, build_step}
use banj_os.Regions.Chain.{
  top, add_region-Added, Chain, Chain-mono, Chain-Added, gap-Added, gap_widen, Ascending, Fits,
}

-- The loop over the sections keeps the regions a chain up to where it stands.
cut-Chain :
    (es : List ElfEntry) (lo : ℕ) (rs : List MemRegion) (cur end : ℕ) (c : Cut)
    → Fits es
    → Chain lo rs cur
    → cur ≤ end
    → end ≤ top
    → cut rs cur end es ≡ some c
    → Chain lo c.regions (min c.cur_start end)
unfolding cut
cut-Chain [] lo rs cur end c f h l t e =
    let r : c.regions ≡ rs = ground arith in
    let k : c.cur_start ≡ cur = ground arith in rw (r, k) (Chain-mono lo rs (ground arith) h)
cut-Chain (x ∷ es) lo rs cur end c f h l t e = elim (cut_step rs cur end x es c e) [
  | behind b q ↦
      rw (ap (λ d. d.regions) q, ap (λ d. d.cur_start) q) (Chain-mono lo rs (ground arith) h)
  | stop rs' g b k q ↦
      let m : min (max cur (segment_end x)) end ≡ end = ground arith in
      rw (ap (λ d. d.regions) q, ap (λ d. d.cur_start) q, m)
        (Chain-Added lo cur end rs h (ground arith)
          (gap_widen rs cur end x (ground arith) (gap-Added rs cur end x l t b g)))
  | more rs' g b k q ↦
      cut-Chain es lo rs' (max cur (segment_end x)) end c f.1
        (Chain-Added lo cur (max cur (segment_end x)) rs h (ground arith) (
          gap_widen rs cur (max cur (segment_end x)) x (ground (arith, f.0))
            (gap-Added rs cur end x l t b g)))
        (omega arith) t q
]

entry-Chain :
    (rs : List MemRegion) (m : MemMapEntry) (es : List ElfEntry)
    (out : List MemRegion × List ElfEntry) (lo : ℕ)
    → Fits (skip_elf (low m) es)
    → Chain lo rs (low m)
    → low m ≤ high m
    → high m ≤ top
    → EntryStep rs m es out
    → Chain lo out.0 (high m)
entry-Chain rs m es out lo f h l t s = elim s.rest [
  | inl (room, added) ↦
      let k : min c.cur_start (high m) ≡ c.cur_start = ground arith in
      Chain-Added lo c.cur_start (high m) c.regions (rw k at loop) (omega arith)
        (add_region-Added c.regions c.cur_start (high m) (omega arith) t added)
  | inr (full, same) ↦
      let k : min c.cur_start (high m) ≡ high m = ground arith in rw same (rw k at loop)
]
  where
    open s use {c}

    loop : Chain lo c.regions (min c.cur_start (high m))
    loop = cut-Chain (skip_elf (low m) es) lo rs (low m) (high m) c f h l t s.loop

pub Fits-skip : (start : ℕ) (es : List ElfEntry) → Fits es → Fits (skip_elf start es)
unfolding skip_elf
Fits-skip start [] f = f
Fits-skip start (e ∷ es) f =
    elim (Bool-cases ((e.section_type == 0) || leb (segment_end e) start)) [
      | inl skip ↦ rw skip (Fits-skip start es f.1)
      | inr stay ↦ rw stay f
    ]

Fits-cut :
    (es : List ElfEntry) (rs : List MemRegion) (cur end : ℕ) (c : Cut)
    → Fits es
    → cut rs cur end es ≡ some c
    → Fits c.elf
unfolding cut
Fits-cut [] rs cur end c f e = let q : c.elf ≡ [] = ground arith in rw q tt
Fits-cut (x ∷ es) rs cur end c f e = elim (cut_step rs cur end x es c e) [
  | behind b q ↦ rw (ap (λ d. d.elf) q) f
  | stop rs' g b k q ↦ rw (ap (λ d. d.elf) q) f
  | more rs' g b k q ↦ Fits-cut es rs' (max cur (segment_end x)) end c f.1 q
]

pub Fits-entry :
    (rs : List MemRegion) (m : MemMapEntry) (es : List ElfEntry)
    (out : List MemRegion × List ElfEntry)
    → Fits es
    → EntryStep rs m es out
    → Fits out.1
Fits-entry rs m es out f s =
    rw s.left
      (Fits-cut (skip_elf (low m) es) rs (low m) (high m) s.c (Fits-skip (low m) es f) s.loop)

build-Chain :
    (ms : List MemMapEntry) (rs : List MemRegion) (es : List ElfEntry) (out : List MemRegion)
    (lo mid : ℕ)
    → Fits es
    → Chain lo rs mid
    → Ascending mid ms
    → build rs ms es ≡ some out
    → Chain lo out top
unfolding build
build-Chain [] rs es out lo mid f h a e =
    let q : out ≡ rs = ground arith in rw q (Chain-mono lo rs a h)
build-Chain (m ∷ ms) rs es out lo mid f h a e = elim (Bool-cases (m.type == 1)) [
  | inl usable ↦
      let (a1, a2, a3, a4) = rw usable at a in
      let (next, added, q) = build_step rs m ms es usable e in
      let s = entry_step rs m es next added in
      build-Chain ms next.0 next.1 out lo (high m) (Fits-entry rs m es next f s)
        (entry-Chain rs m es next lo (Fits-skip (low m) es f) (Chain-mono lo rs a1 h) a2 a3 s) a4 q
  | inr other ↦ build-Chain ms rs es out lo mid f h (rw other at a) (rw other at e)
]

-- From a memory map whose usable entries ascend, and sections that do not wrap, the regions are in
-- ascending order and apart from one another; each is made of whole pages, is not empty, and has
-- nothing handed out.
pub build_mem_regions-Chain :
    (ms : List MemMapEntry) (es : List ElfEntry) {out : List MemRegion}
    → Ascending 1 ms
    → Fits es
    → build_mem_regions ms es ≡ some out
    → Chain 1 out top
unfolding build_mem_regions
build_mem_regions-Chain ms es {out} a f e = build-Chain ms [] es out 1 1 f (omega arith) a e
