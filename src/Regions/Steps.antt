-- ===== src/Regions/Steps.antt =====
-- The rounds of the loop over the sections, taken apart.
use banj_os.Base.{
  ℕ, ◌≤◌, ◌<◌, ◌≡◌, List, ◌∷◌, some, inl, inr, arith, ltb, leb, ltb→lt, ltb→le, Bool-cases,
  Option-cases, ◌⊎◌, ◌==◌, true,
}
use banj_os.Regions.{
  MemRegion, MemMapEntry, ElfEntry, Cut, segment_end, add_gap, add_region, cut, skip_elf, add_entry,
  build, max, low, high,
}

abbrev at : List MemRegion → ℕ → List ElfEntry → Cut
at rs cur es = record { regions = rs; cur_start = cur; elf = es }

-- What a round that ends well has done: stopped before the section, or added the gap before it and
-- then stopped at it or gone on.
pub data CutStep (rs : List MemRegion) (cur end : ℕ) (x : ElfEntry) (es : List ElfEntry) (c : Cut)
    : Type 0 where
  behind : end ≤ x.segment_address → c ≡ at rs cur (x ∷ es) → CutStep rs cur end x es c
  stop :
      (rs' : List MemRegion)
      → add_gap rs cur end x ≡ some rs'
      → x.segment_address < end
      → end ≤ max cur (segment_end x)
      → c ≡ at rs' (max cur (segment_end x)) (x ∷ es)
      → CutStep rs cur end x es c
  more :
      (rs' : List MemRegion)
      → add_gap rs cur end x ≡ some rs'
      → x.segment_address < end
      → max cur (segment_end x) < end
      → cut rs' (max cur (segment_end x)) end es ≡ some c
      → CutStep rs cur end x es c

pub cut_step :
    (rs : List MemRegion) (cur end : ℕ) (x : ElfEntry) (es : List ElfEntry) (c : Cut)
    → cut rs cur end (x ∷ es) ≡ some c
    → CutStep rs cur end x es c
unfolding cut
cut_step rs cur end x es c e = elim (Bool-cases (ltb x.segment_address end)) [
  | inr out ↦ behind (ltb→le _ _ out) (ground arith)
  | inl here ↦ elim (Option-cases (add_gap rs cur end x)) [
    | inl stopped ↦ absurd (ground arith)
    | inr (rs', added) ↦ elim (Bool-cases (leb end (max cur (segment_end x)))) [
      | inl last ↦ stop rs' added (ltb→lt _ _ here) (ground arith) (ground arith)
      | inr on ↦ more rs' added (ltb→lt _ _ here) (ground arith) (ground arith)
    ]
  ]
]

-- What adding a usable entry has done.
pub record EntryStep (rs : List MemRegion) (m : MemMapEntry) (es : List ElfEntry)
    (out : List MemRegion × List ElfEntry) : Type 0 where
  pub c : Cut
  pub loop : cut rs (low m) (high m) (skip_elf (low m) es) ≡ some c
  pub left : out.1 ≡ c.elf
  pub rest :
      ((c.cur_start < high m) × (add_region c.regions c.cur_start (high m) ≡ some out.0))
      ⊎ ((high m ≤ c.cur_start) × (out.0 ≡ c.regions))

pub entry_step :
    (rs : List MemRegion) (m : MemMapEntry) (es : List ElfEntry)
    (out : List MemRegion × List ElfEntry)
    → add_entry rs m es ≡ some out
    → EntryStep rs m es out
unfolding add_entry
entry_step rs m es out e = elim (Option-cases (cut rs (low m) (high m) (skip_elf (low m) es))) [
  | inl stopped ↦ absurd (ground arith)
  | inr (c, loop) ↦ elim (Bool-cases (ltb c.cur_start (high m))) [
    | inr full ↦ record {
      c = c;
      loop = loop;
      left = ground arith;
      rest = inr (ltb→le _ _ full, ground arith);
    }
    | inl room ↦ elim (Option-cases (add_region c.regions c.cur_start (high m))) [
      | inl stopped ↦ absurd (ground arith)
      | inr (rs', added) ↦ record {
        c = c;
        loop = loop;
        left = ground arith;
        rest = inl (ltb→lt _ _ room, ground arith);
      }
    ]
  ]
]

pub build_step :
    (rs : List MemRegion) (m : MemMapEntry) (ms : List MemMapEntry) (es : List ElfEntry)
    {out : List MemRegion}
    → (m.type == 1) ≡ true
    → build rs (m ∷ ms) es ≡ some out
    → (mid : List MemRegion × List ElfEntry) × (add_entry rs m es ≡ some mid)
      × (build mid.0 ms mid.1 ≡ some out)
unfolding build
build_step rs m ms es u e = elim (Option-cases (add_entry rs m es)) [
  | inl stopped ↦ absurd (ground arith)
  | inr (mid, added) ↦ (mid, added, ground arith)
]
