-- ===== src/Start/Boot.antt =====
-- src/kmain.c: from the boot tags to the first page table. The page allocator begins with the regions
-- and no freed frame.
use banj_os.Base.{
  ℕ, suc, ◌+◌, ◌*◌, ◌^◌, ◌<◌, ◌≤◌, ◌≡◌, refl, ap, ◌∙◌, Option, none, some, List, [], ◌∷◌, length,
  arith, lt→ltb, true, ltb,
}
use banj_os.Disk.{Buffer}
use banj_os.Regions.{MemRegion, MemMapEntry, ElfEntry, page_size, build_mem_regions}
use banj_os.Regions.Chain.{Chain, top, IsFresh, Ascending, Fits}
use banj_os.Regions.Order.{build_mem_regions-Chain}
use banj_os.Regions.Tags.{multiboot_tags_parse_to_mem_regions}
use banj_os.Regions.Tags.Layout.{Tag, IsTags, last_map, last_sections}
use banj_os.Regions.Tags.Walk.{multiboot_tags_parse_to_mem_regions_lem}
use banj_os.Frames.{Frames, pf_alloc, take_region}
use banj_os.Frames.Alloc.{IsFrames, start-IsFrames}
use banj_os.Paging.{Tables}
use banj_os.Paging.Pool.{InReach}
use banj_os.Paging.Range.{Outcome, last_end, init_page_table}
use banj_os.Paging.DirectMap.{Maps, init_page_table-Maps}

-- `link` and `tables` are what the memory holds at first.
abbrev pub first_frames : (link : ℕ → ℕ) → List MemRegion → Frames
first_frames link rs = record { free_list = 0; link = link; regions = rs }

-- The calls of kmain that set up the memory: the regions, the top table and how the walk ends.
unfoldable pub memory_init :
    (turns fuel : ℕ)
    → Buffer
    → (multiboot_tag_addr : ℕ) → (link : ℕ → ℕ) → Tables
    → Option (List MemRegion × ℕ × Outcome)
memory_init turns fuel b header link tables =
    elim (multiboot_tags_parse_to_mem_regions turns b header) [
      | none ↦ none
      | some rs ↦ elim (init_page_table fuel (first_frames link rs) tables) [
        | none ↦ none
        | some (p, o) ↦ some (rs, p, o)
      ]
    ]

-- The regions end where the last one does.
first_end :
    (r : MemRegion) (rs : List MemRegion) (lo hi e : ℕ)
    → Chain lo (r ∷ rs) hi
    → last_end (r ∷ rs) ≡ some e
    → r.end ≤ e
unfolding last_end
first_end r [] lo hi e c q = let s : r.end ≡ e = ground (arith, q) in omega (arith, s)
first_end r (r' ∷ rs) lo hi e (f, c) q =
    let l = first_end r' rs (r.end) hi e c q in
    let low = c.0.low in let filled = c.0.filled in omega (arith, l, low, filled)

all_InReach :
    (rs : List MemRegion) (lo hi e : ℕ)
    → Chain lo rs hi
    → last_end rs ≡ some e
    → e ≤ 2 ^ 48
    → InReach rs
unfolding last_end
all_InReach [] lo hi e c q h = tt
all_InReach (r ∷ []) lo hi e c q h = (let l = first_end r [] lo hi e c q in omega (arith, l, h), tt)
all_InReach (r ∷ (r' ∷ rs)) lo hi e (f, c) q h = (
  let l = first_end r (r' ∷ rs) lo hi e (f, c) q in omega (arith, l, h),
  all_InReach (r' ∷ rs) (r.end) hi e c q h,
)

taken : Frames → MemRegion → List MemRegion → Frames
taken f r rs = record f { regions = record r { next = r.next + page_size } ∷ rs }

-- The first frame is the first page of the first region.
first_frame :
    (link : ℕ → ℕ) (r : MemRegion) (rs : List MemRegion) (lo hi : ℕ)
    → IsFresh r lo hi
    → pf_alloc (first_frames link (r ∷ rs))
      ≡ some (r.start, taken (first_frames link (r ∷ rs)) r rs)
unfolding pf_alloc take_region taken
first_frame link r rs lo hi f =
    let u = f.unused in
    let t : ltb (r.next) (r.end) ≡ true = let n = f.filled in lt→ltb _ _ (omega (arith, u, n)) in
    rw t (
      ap
        (λ p. some (
          p,
          record (first_frames link (r ∷ rs)) {
            regions = record r { next = r.next + page_size } ∷ rs;
          },
        ))
        u)

last_end-taken :
    (f : Frames) (r : MemRegion) (rs : List MemRegion)
    → last_end ((taken f r rs).regions) ≡ last_end (r ∷ rs)
unfolding last_end taken
last_end-taken f r [] = refl
last_end-taken f r (r' ∷ rs) = refl

-- From boot tags behind the header, with a memory map whose usable entries ascend and sections that do
-- not wrap, from which at least one region is built, the last one ending below 2 ^ 48, and with
-- enough fuel for the tags and the pages: no frame is in use at first, and the setting up of the
-- memory takes the first page of the first region for the top table, and either ends with every
-- address from the second page to the end of the memory translated to itself, by an entry that is
-- present and writable, or halts at a point where no frame is left.
pub memory_init-Maps :
    (turns k : ℕ) (b : Buffer) (header : ℕ) (ts : List Tag) (ms : List MemMapEntry)
    (es : List ElfEntry) (r : MemRegion) (rs : List MemRegion) (mem_end : ℕ) (link : ℕ → ℕ)
    (tables : Tables)
    → IsTags b (header + 8) ts
    → last_map none ts ≡ some ms
    → last_sections none ts ≡ some es
    → length ts < turns
    → Ascending 1 ms
    → Fits es
    → build_mem_regions ms es ≡ some (r ∷ rs)
    → last_end (r ∷ rs) ≡ some mem_end
    → mem_end ≤ 2 ^ 48
    → mem_end ≤ 4096 * k
    → IsFrames (first_frames link (r ∷ rs)) [] []
      × ((o : Outcome) × (memory_init turns (suc k) b header link tables
            ≡ some (r ∷ rs, r.start, o))
          × Maps (r.start) 4096 mem_end o)
unfolding memory_init
memory_init-Maps turns k b header ts ms es r rs mem_end link tables laid m e fuel a f built last h1
      h2 =
    let chain = build_mem_regions-Chain ms es a f built in
    let frames = start-IsFrames (r ∷ rs) link chain in
    let parsed =
      multiboot_tags_parse_to_mem_regions_lem turns b header ts ms es laid m e fuel ∙ built in
    let f0 = first_frames link (r ∷ rs) in
    let (o, ran, maps) =
      init_page_table-Maps k f0 tables [] (r.start) (taken f0 r rs) mem_end
        (record {
          free = [];
          frames = frames;
          regions_below = all_InReach (r ∷ rs) 1 top mem_end chain last h1;
          free_below = tt;
        })
        (first_frame link r rs 1 top (chain.0)) (last_end-taken f0 r rs ∙ last) h1 h2 in
    (frames, (o, rw (memory_init, parsed, ran) refl, maps))
